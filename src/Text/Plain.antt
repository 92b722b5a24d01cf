-- ===== src/Text/Plain.antt =====
-- internal/text/document.go: the fast path for plain text agrees with the general one.
use kotlsp.Prelude.{
  ℕ, zero, suc, ◌-◌, ◌≤◌, ◌≡◌, refl, sym, ◌∙◌, Bool, true, false, [], ◌∷◌, Bytes, ℤ, pos,
  if◌then◌else◌, length, length-take, length-drop, take, drop, arith,
}
use kotlsp.Std.Utf8.{decode_rune_ascii}
use kotlsp.Text.Document.{Document, is_plain_text}
use kotlsp.Text.Lookup.{byte_line_at_string, byte_line_at_bytes}
use kotlsp.Text.Position.{position, clamp_offset, utf16_len, utf16_len_loop, slice}

pub plain_take : (n : ℕ) (s : Bytes) → is_plain_text s ≡ true → is_plain_text (take n s) ≡ true
unfolding is_plain_text
plain_take zero s h = refl
plain_take (suc n) [] h = refl
plain_take (suc n) (b ∷ s) h =
    let rest : is_plain_text s ≡ true = ground arith in let ih = plain_take n s rest in ground arith

pub plain_drop : (n : ℕ) (s : Bytes) → is_plain_text s ≡ true → is_plain_text (drop n s) ≡ true
unfolding is_plain_text
plain_drop zero s h = h
plain_drop (suc n) [] h = refl
plain_drop (suc n) (b ∷ s) h =
    let rest : is_plain_text s ≡ true = ground arith in plain_drop n s rest

utf16_len_plain :
    (fuel : ℕ) (s : Bytes)
    → length s ≤ fuel
    → is_plain_text s ≡ true
    → utf16_len_loop fuel s ≡ length s
unfolding utf16_len_loop is_plain_text
utf16_len_plain zero [] h p = refl
utf16_len_plain zero (b ∷ s) h p = absurd (omega arith)
utf16_len_plain (suc fuel) [] h p = refl
utf16_len_plain (suc fuel) (b ∷ s) h p =
    let rest : is_plain_text s ≡ true = ground arith in
    let small : suc b ≤ 0x80 = ground arith in
    let ih = utf16_len_plain fuel s (omega arith) rest in
    rw (decode_rune_ascii b s small, utf16_len_loop, ih) ground arith

either_way {ℓ} : {A : Type ℓ} (b : Bool) {x y : A} → x ≡ y → (if b then x else y) ≡ y
either_way true e = e
either_way false e = refl

length-slice :
    (text : Bytes) (start at : ℕ) → at ≤ length text → length (slice text start at) ≡ at - start
length-slice text start at h =
    omega (arith, length-take (at - start) (drop start text), length-drop start text)

clamp_offset-le : (d : Document) (offset : ℤ) → clamp_offset d offset ≤ length d.text
clamp_offset-le d offset = ground arith

utf16_len-slice :
    (text : Bytes) (start at : ℕ)
    → is_plain_text text ≡ true
    → at ≤ length text
    → utf16_len (slice text start at) ≡ at - start
unfolding utf16_len
utf16_len-slice text start at p h =
    utf16_len_plain _ (slice text start at) (omega arith)
      (plain_take (at - start) (drop start text) (plain_drop start text p))
    ∙ length-slice text start at h

-- For a document of plain text, `Position` with its fast path returns what it returns without.
position_general :
    (d : Document) (offset : ℤ)
    → is_plain_text d.text ≡ true
    → position d offset ≡ position (record d { plain = false }) offset
unfolding position byte_line_at_string byte_line_at_bytes
position_general d offset p =
    let at = clamp_offset d offset in
    let found = byte_line_at_string d at in
    either_way d.plain (λ i. record {
      line = pos found.0;
      character = pos (sym (utf16_len-slice d.text found.1 at p (clamp_offset-le d offset)) i);
    })
