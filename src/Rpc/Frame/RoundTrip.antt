-- ===== src/Rpc/Frame/RoundTrip.antt =====
-- internal/jsonrpc/conn.go: `read` takes the frames that `write` puts on a stream.
use kotlsp.Prelude.{
  ℕ, suc, ◌+◌, ◌≤◌, ◌<◌, ◌≡◌, refl, sym, ap, subst, ◌∙◌, Bool, true, false, not, ◌&&◌, [], ◌∷◌,
  ◌++◌, Option, none, some, Bytes, codes, same, ltb, ◌==◌, length, length-append, take, drop,
  take-append, drop-append, arith, pos, ok,
}
use kotlsp.Std.Decimal.{Decimal, AreDigits, format_int-Decimal}
use kotlsp.Std.Find.{Lacks, index_byte-append}
use kotlsp.Std.Space.{trim_space, trim_space-solid, trim_space_solid}
use kotlsp.Std.Strconv.{format_int}
use kotlsp.Std.Strings.{index, cut, trim_right, contains_rune}
use kotlsp.Rpc.Frame.{
  read_line, header_field, equal_fold, read_headers, read_full, read_body, write, max_message_bytes,
}

Lacks-append : (s t : Bytes) (c : ℕ) → Lacks s c → Lacks t c → Lacks (s ++ t) c
Lacks-append [] t c h k = k
Lacks-append (b ∷ s) t c (n, h) k = (n, Lacks-append s t c h k)

digits-Lacks : (s : Bytes) (c : ℕ) → c < 48 → AreDigits s → Lacks s c
digits-Lacks [] c l h = tt
digits-Lacks (b ∷ s) c l ((low, high), h) = (ground arith, digits-Lacks s c l h)

take_past :
    (s : Bytes) (c : ℕ) (rest : Bytes) → take (suc (length s)) (s ++ (c ∷ rest)) ≡ s ++ (c ∷ [])
take_past [] c rest = refl
take_past (b ∷ s) c rest = ap (◌∷◌ b) (take_past s c rest)

drop_past : (s : Bytes) (c : ℕ) (rest : Bytes) → drop (suc (length s)) (s ++ (c ∷ rest)) ≡ rest
drop_past [] c rest = refl
drop_past (b ∷ s) c rest = drop_past s c rest

read_line-append :
    (line rest : Bytes)
    → Lacks line 0x0a
    → length line < 8192
    → read_line (line ++ (0x0a ∷ rest)) ≡ ok (line ++ (0x0a ∷ []), rest)
unfolding read_line
read_line-append line rest h l =
    let e = index_byte-append line 0x0a rest h in
    let k : ltb 8192 (suc (length line)) ≡ false = ground arith in
    rw (read_line, e, k, take_past line 0x0a rest, drop_past line 0x0a rest) refl

not_empty : (front : Bytes) (b : ℕ) → same (front ++ (b ∷ [])) [] ≡ false
not_empty [] b = refl
not_empty (a ∷ front) b = refl

trim_right-append :
    (front t cutset : Bytes) (b : ℕ)
    → contains_rune cutset b ≡ false
    → trim_right t cutset ≡ []
    → trim_right (front ++ (b ∷ t)) cutset ≡ front ++ (b ∷ [])
unfolding trim_right
trim_right-append [] t cutset b n e = rw (trim_right, e, n) refl
trim_right-append (a ∷ front) t cutset b n e =
    rw (trim_right, trim_right-append front t cutset b n e, not_empty front b) refl

module _ (n : ℕ) (figures : Bytes) (decimal : Decimal n figures)
    (small : n ≤ max_message_bytes) where
  value_text : trim_space (0x20 ∷ figures) ≡ figures
  value_text =
      let (front, b, e, (bl, bu)) = decimal.last in
      let (a, more, f, (al, au)) = decimal.first in
      ap (λ s. trim_space (0x20 ∷ s)) f
      ∙ trim_space-solid a more front b (omega arith, ground arith) (omega arith, ground arith)
          (sym f ∙ e)
      ∙ sym f

  name_text : trim_space (codes "Content-Length") ≡ codes "Content-Length"
  name_text =
      trim_space_solid 67 (codes "ontent-Length") (codes "Content-Lengt") 104 (omega arith, refl)
        (omega arith, refl) refl

  length_field : header_field (codes "Content-Length: " ++ figures) none ≡ ok (some n)
  unfolding header_field cut index equal_fold
  length_field =
      let k : ltb max_message_bytes n ≡ false = ground arith in
      rw (header_field, cut, index, name_text, value_text, decimal.value, k) refl

headers_step :
    (fuel : ℕ) (known next : Option ℕ) (sum : ℕ) (stream line_bytes rest line : Bytes) (b : ℕ)
    → read_line stream ≡ ok (line_bytes, rest)
    → sum + length line_bytes ≤ 32_768
    → trim_right line_bytes (codes "\r\n") ≡ b ∷ line
    → header_field (b ∷ line) known ≡ ok next
    → read_headers (suc fuel) known sum stream
      ≡ read_headers fuel next (sum + length line_bytes) rest
unfolding read_headers
headers_step fuel known next sum stream line_bytes rest line b e l t f =
    let k : ltb 32_768 (sum + length line_bytes) ≡ false = ground arith in
    rw (read_headers, e, k, t, f) refl

-- The line that ends the headers.
headers_end :
    (fuel : ℕ) (known : Option ℕ) (sum : ℕ) (rest : Bytes)
    → sum ≤ 32_000
    → read_headers (suc fuel) known sum (0x0d ∷ 0x0a ∷ rest) ≡ ok (known, rest)
unfolding read_headers trim_right
headers_end fuel known sum rest l =
    let e = read_line-append (0x0d ∷ []) rest (refl, tt) (omega arith) in
    let k : ltb 32_768 (sum + 2) ≡ false = ground arith in rw (read_headers, e, k, trim_right) refl

abbrev is_without : Bytes → ℕ → Bool
is_without [] c = true
is_without (b ∷ s) c = not (b == c) && is_without s c

is_without-Lacks : (s : Bytes) (c : ℕ) → is_without s c ≡ true → Lacks s c
is_without-Lacks [] c h = tt
is_without-Lacks (b ∷ s) c h = (ground arith, is_without-Lacks s c (ground arith))

crlf_append :
    (front : Bytes) (b : ℕ)
    → ((front ++ (b ∷ [])) ++ (0x0d ∷ [])) ++ (0x0a ∷ []) ≡ front ++ (b ∷ 0x0d ∷ 0x0a ∷ [])
crlf_append [] b = refl
crlf_append (a ∷ front) b = ap (◌∷◌ a) (crlf_append front b)

abbrev field_of : Bytes → Bytes
field_of figures = codes "Content-Length: " ++ figures

-- Both header lines of a frame, as `read_line` takes the stream apart.
abbrev framed : Bytes → Bytes → Bytes
framed figures rest = (field_of figures ++ (0x0d ∷ [])) ++ (0x0a ∷ 0x0d ∷ 0x0a ∷ rest)

trim_crlf : trim_right (0x0d ∷ 0x0a ∷ []) (codes "\r\n") ≡ []
unfolding trim_right
trim_crlf = refl

headers-framed :
    (n fuel : ℕ) (figures rest : Bytes)
    → Decimal n figures
    → n ≤ max_message_bytes
    → length figures < 100
    → read_headers (suc (suc fuel)) none 0 (framed figures rest) ≡ ok (some n, rest)
headers-framed n fuel figures rest decimal small short =
    let line = field_of figures ++ (0x0d ∷ []) in
    let (front, b, e, (low, high)) = decimal.last in
    let la = length-append (field_of figures) (0x0d ∷ []) in
    let lb = length-append line (0x0a ∷ []) in
    let lacks : Lacks line 0x0a =
      Lacks-append (field_of figures) (0x0d ∷ []) 0x0a
        (Lacks-append (codes "Content-Length: ") figures 0x0a
          (is_without-Lacks (codes "Content-Length: ") 0x0a refl)
          (digits-Lacks figures 0x0a (omega arith) decimal.all))
        (refl, tt) in
    let read = read_line-append line (0x0d ∷ 0x0a ∷ rest) lacks (omega arith) in
    let trimmed : trim_right (line ++ (0x0a ∷ [])) (codes "\r\n") ≡ field_of figures =
      subst
        (λ s. trim_right ((field_of s ++ (0x0d ∷ [])) ++ (0x0a ∷ [])) (codes "\r\n") ≡ field_of s)
        (sym e)
        (ap (λ s. trim_right (field_of s) (codes "\r\n")) (crlf_append front b)
          ∙ trim_right-append (field_of front) (0x0d ∷ 0x0a ∷ []) (codes "\r\n") b (ground arith)
              trim_crlf) in
    headers_step (suc fuel) none (some n) 0 (framed figures rest) (line ++ (0x0a ∷ []))
      (0x0d ∷ 0x0a ∷ rest) (codes "ontent-Length: " ++ figures) 67 read (omega arith) trimmed
      (length_field n figures decimal small)
    ∙ headers_end fuel (some n) (0 + length (line ++ (0x0a ∷ []))) rest (omega arith)

apart :
    (figures body rest : Bytes)
    → (figures ++ (0x0d ∷ 0x0a ∷ 0x0d ∷ 0x0a ∷ body)) ++ rest
      ≡ (figures ++ (0x0d ∷ [])) ++ (0x0a ∷ 0x0d ∷ 0x0a ∷ (body ++ rest))
apart [] body rest = refl
apart (b ∷ figures) body rest = ap (◌∷◌ b) (apart figures body rest)

read_full-append : (body rest : Bytes) → read_full (length body) (body ++ rest) ≡ ok (body, rest)
unfolding read_full
read_full-append [] rest = refl
read_full-append (b ∷ body) rest =
    let l = length-append body rest in
    let k : ltb (length (b ∷ body ++ rest)) (length (b ∷ body)) ≡ false = ground arith in
    let z : (length (b ∷ body) == 0) ≡ false = ground arith in
    let y : (length (b ∷ body ++ rest) == 0) ≡ false = ground arith in
    rw
      (
        read_full,
        z,
        y,
        k,
        take-append (b ∷ body) rest (length (b ∷ body)) refl,
        drop-append (b ∷ body) rest,
      )
      refl

-- A body of no more than 16 MiB is written, and what `write` puts on the stream, with anything behind
-- it, `read` takes as that body, and leaves what stands behind it.
pub read_body-write :
    (body rest : Bytes)
    → length body ≤ max_message_bytes
    → (frame : Bytes) × (write body ≡ some frame) × (read_body (frame ++ rest) ≡ ok (body, rest))
unfolding write read_body
read_body-write body rest small =
    let figures = format_int (pos (length body)) in
    let k : ltb 67_108_864 (length body) ≡ false = ground arith in
    let frame = codes "Content-Length: " ++ (figures ++ (codes "\r\n\r\n" ++ body)) in
    let split : frame ++ rest ≡ framed figures (body ++ rest) =
      ap field_of (apart figures body rest) in
    let decimal = format_int-Decimal (length body) (omega arith) in
    let e =
      headers-framed (length body) (length (drop 1 (frame ++ rest))) figures (body ++ rest) decimal
        small (omega (arith, decimal.short)) in
    (frame, rw (write, k) refl, rw (read_body, split, e) (read_full-append body rest))
