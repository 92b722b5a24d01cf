-- ===== src/Text/Offsets.antt =====
-- internal/text/document.go: the two ways in which `Document.Offset` counts the columns of a line.
use kotlsp.Prelude.{
  ℕ, zero, suc, ◌+◌, ◌-◌, ◌^◌, ◌≤◌, ◌<◌, ◌≡◌, ◌⊎◌, refl, sym, ap, subst, ◌∙◌, true, false, [], ◌∷◌,
  ◌++◌, Bytes, ℤ, pos, if◌then◌else◌, length, take-append, drop-append, take, drop, ltb, ◌==◌,
  arith, Bool-cases, inl, inr,
}
use kotlsp.Prelude.Int.{ltb_ℤ, leb_ℤ, pos_part}
use kotlsp.Std.Utf8.{decode_rune_ascii}
use kotlsp.Text.Document.{Document, is_plain_text, strings_count_byte, newline, carriage_return}
use kotlsp.Text.Lookup.{line_bounds_string, line_bounds_bytes, sparse_bounds, dense_bounds}
use kotlsp.Text.Plain.{plain_take, plain_drop}
use kotlsp.Text.Position.{Position, offset, offset_loop, int_sum, slice}
use kotlsp.Text.Apply.Spec.{IsDocument}
use kotlsp.Text.Table.Bounds.{line_bounds_bytes-LineAt}
use kotlsp.Text.Table.Count.{newlines, LineAt}
use kotlsp.Text.Strict.Exact.{LineAt-le}

-- A newline stands only at the end.
abbrev OneLine : Bytes → Type 0
OneLine [] = Unit
OneLine (b ∷ bs) = (((b == newline) ≡ false) ⊎ (bs ≡ [])) × OneLine bs

clean_OneLine : (body : Bytes) → newlines body ≡ 0 → OneLine body
unfolding strings_count_byte
clean_OneLine [] h = tt
clean_OneLine (b ∷ bs) h =
    let rest : newlines bs ≡ 0 = ground arith in (inl (ground arith), clean_OneLine bs rest)

closed_OneLine : (cs : Bytes) → newlines cs ≡ 0 → OneLine (cs ++ (newline ∷ []))
unfolding strings_count_byte
closed_OneLine [] h = (inr refl, tt)
closed_OneLine (b ∷ bs) h =
    let rest : newlines bs ≡ 0 = ground arith in (inl (ground arith), closed_OneLine bs rest)

-- How far the column of a plain line reaches.
abbrev reached : ℕ → ℕ → ℕ
reached end at = if ltb end at then end else at

offset_loop_plain :
    (fuel : ℕ) (s : Bytes) (i end units target : ℕ)
    → length s ≤ fuel
    → i + length s ≡ end
    → units < target
    → is_plain_text s ≡ true
    → OneLine s
    → offset_loop fuel s i end units target ≡ reached end (i + (target - units))
unfolding offset_loop is_plain_text
offset_loop_plain zero [] i end units target f e u p o = ground arith
offset_loop_plain zero (b ∷ s) i end units target f e u p o = absurd (omega arith)
offset_loop_plain (suc fuel) [] i end units target f e u p o = ground arith
offset_loop_plain (suc fuel) (b ∷ s) i end units target f e u p o =
    let rest : is_plain_text s ≡ true = ground arith in
    let small : b < 0x80 = ground arith in
    let unreturned : (b == carriage_return) ≡ false = ground arith in
    elim (Bool-cases (b == newline)) [
      | inl n ↦
          let last : s ≡ [] = elim o.0 [ inl q ↦ cc | inr q ↦ q ] in
          let one = ap length last in
          simp (offset_loop, decode_rune_ascii b s small, n) (ground arith)
      | inr n ↦ elim (Bool-cases (suc units == target)) [
        | inl t ↦ simp (offset_loop, decode_rune_ascii b s small, n, unreturned) (ground arith)
        | inr t ↦
            let ih =
              offset_loop_plain fuel s (i + 1) end (units + 1) target (omega arith) (omega arith)
                (ground arith) rest o.1 in
            simp (offset_loop, decode_rune_ascii b s small, n, unreturned) (ground (arith, ih))
      ]
    ]

slice-LineAt :
    (content : Bytes) (line start end : ℕ) (a : LineAt content line start end)
    → slice content start end ≡ a.body
slice-LineAt content line start end a =
    let at = a.start_is in
    let to = a.end_is in
    let n : end - start ≡ length a.body = omega arith in
    ap (λ c. take (end - start) (drop start c)) a.splits
    ∙ ap (take (end - start)) (drop-append a.before (a.body ++ a.after) start (sym at))
    ∙ take-append a.body a.after (end - start) n

LineAt-OneLine :
    (content : Bytes) (line start end : ℕ)
    → LineAt content line start end
    → OneLine (slice content start end)
LineAt-OneLine content line start end a =
    subst OneLine (sym (slice-LineAt content line start end a)) (elim a.whole [
      | inl (last, clean) ↦ clean_OneLine a.body clean
      | inr (cs, e, clean) ↦ subst OneLine (sym e) (closed_OneLine cs clean)
    ])

same_bounds :
    (d : Document) (line : ℤ)
    → line_bounds_string (record d { plain = false }) line ≡ line_bounds_string d line
unfolding line_bounds_string line_bounds_bytes sparse_bounds dense_bounds
same_bounds d line = refl

-- The fast path and the loop on a line that exists.
paths_agree :
    (text : Bytes) (line start end target : ℕ)
    → LineAt text line start end
    → is_plain_text text ≡ true
    → 0 < target
    → length text + target < 2 ^ 63
    → (if ltb_ℤ (pos end) (int_sum start target) then pos end else int_sum start target)
      ≡ pos (offset_loop (length text) (slice text start end) start end 0 target)
paths_agree text line start end target a p t l =
    let sizes = LineAt-le a in
    let size = ap length (slice-LineAt text line start end a) in
    let to = a.end_is in
    let at = a.start_is in
    let e =
      offset_loop_plain (length text) (slice text start end) start end 0 target (omega arith)
        (omega arith) t (plain_take (end - start) (drop start text) (plain_drop start text p))
        (LineAt-OneLine text line start end a) in
    let small : ltb (start + target) (2 ^ 63) ≡ true = ground arith in rw (e, small) (ground arith)

line_found :
    (d : Document) (line : ℤ)
    → IsDocument d
    → line ≡ pos (pos_part line)
    → pos_part line < d.line_count
    → let b = line_bounds_string d line in LineAt d.text (pos_part line) b.start b.end
unfolding line_bounds_string
line_found d line v e l =
    let table = v.indexed.table in
    subst (λ x. let b = line_bounds_bytes d x d.text in LineAt d.text (pos_part line) b.start b.end)
      (sym e) (line_bounds_bytes-LineAt d d.text (pos_part line) table l).1

-- For a document whose line index is that of its text and whose flag says whether the text is
-- plain, Offset returns the same with its fast path for plain text and without it, whatever the
-- position is, if the length of the text and the column add up to less than 2^63.
pub offset_general :
    (d : Document) (p : Position)
    → IsDocument d
    → length d.text + pos_part p.character < 2 ^ 63
    → offset d p ≡ offset (record d { plain = false }) p
unfolding offset
offset_general d p v l =
    let b = line_bounds_string d p.line in
    let same = same_bounds d p.line in
    elim (Bool-cases (ltb_ℤ p.line (pos 0))) [
      | inl n ↦ simp (offset, n) refl
      | inr n ↦ elim (Bool-cases (leb_ℤ (pos d.line_count) p.line)) [
        | inl m ↦ simp (offset, n, m) refl
        | inr m ↦ elim (Bool-cases (leb_ℤ p.character (pos 0))) [
          | inl c ↦ simp (offset, n, m, c, same) refl
          | inr c ↦ elim (Bool-cases d.plain) [
            | inr f ↦ simp (offset, n, m, c, same, f) refl
            | inl t ↦
                let at : LineAt d.text (pos_part p.line) b.start b.end =
                  line_found d p.line v (ground arith) (ground arith) in
                simp (offset, n, m, c, same, t)
                  (paths_agree d.text (pos_part p.line) b.start b.end (pos_part p.character) at
                    (sym v.plainness ∙ t) (ground arith) l)
          ]
        ]
      ]
    ]
