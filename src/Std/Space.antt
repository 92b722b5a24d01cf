-- ===== src/Std/Space.antt =====
-- `strings.TrimSpace`, with `unicode.IsSpace` and `utf8.DecodeLastRune`.
use kotlsp.Prelude.{
  ℕ, zero, suc, ◌-◌, ◌<◌, ◌≡◌, refl, ◌∙◌, Bool, true, false, ◌&&◌, ◌||◌, [], ◌∷◌, ◌++◌, Bytes, ltb,
  leb, ◌==◌, within, if◌then◌else◌, length, take, drop, arith, get_or, length-append, ap, sym,
}
use kotlsp.Std.Utf8.{decode_rune, rune_error}

-- `unicode.IsSpace`
abbrev pub is_space_rune : ℕ → Bool
is_space_rune r =
    within 9 13 r
    || r == 0x20
    || r == 0x85
    || r == 0xa0
    || r == 0x1680
    || within 0x2000 0x200a r
    || r == 0x2028
    || r == 0x2029
    || r == 0x202f
    || r == 0x205f
    || r == 0x3000

abbrev starts_rune : ℕ → Bool
starts_rune b = ltb b 0x80 || leb 0xc0 b

-- The rune of the last `n` bytes, if they are one.
last_of : ℕ → Bytes → ℕ × ℕ
last_of n s =
    let (r, width) = decode_rune (drop (length s - n) s) in
    if width == n then (r, n) else (rune_error, 1)

-- The byte that stands `n` bytes from the end.
abbrev from_end : Bytes → ℕ → ℕ
from_end s n = get_or s (length s - n) 0

-- `utf8.DecodeLastRune`, for a string that is not empty: it goes back to the last byte, of at most
-- four, that starts a rune.
unfoldable pub decode_last_rune : Bytes → ℕ × ℕ
unfolding last_of
decode_last_rune s =
    if ltb (from_end s 1) 0x80
    then (from_end s 1, 1)
    else if leb 2 (length s) && starts_rune (from_end s 2)
    then last_of 2 s
    else if leb 3 (length s) && starts_rune (from_end s 3)
    then last_of 3 s
    else if leb 4 (length s) && starts_rune (from_end s 4)
    then last_of 4 s
    else (rune_error, 1)

-- On fuel: a round takes a byte at least.
trim_left_space : ℕ → Bytes → Bytes
trim_left_space zero s = s
trim_left_space (suc fuel) [] = []
trim_left_space (suc fuel) (b ∷ s) =
    let (r, width) = decode_rune (b ∷ s) in
    let rest = trim_left_space fuel (drop width (b ∷ s)) in if is_space_rune r then rest else b ∷ s

trim_right_space : ℕ → Bytes → Bytes
trim_right_space zero s = s
trim_right_space (suc fuel) [] = []
trim_right_space (suc fuel) (b ∷ s) =
    let (r, width) = decode_last_rune (b ∷ s) in
    let rest = trim_right_space fuel (take (suc (length s) - width) (b ∷ s)) in
    if is_space_rune r then rest else b ∷ s

-- `strings.TrimSpace`
unfoldable pub trim_space : Bytes → Bytes
unfolding trim_left_space trim_right_space
trim_space s = let front = trim_left_space (length s) s in trim_right_space (length front) front

trimmed :
    trim_space (0xc2 ∷ 0xa0 ∷ 0x20 ∷ 0xc3 ∷ 0xa9 ∷ 0xe2 ∷ 0x80 ∷ 0xa8 ∷ 9 ∷ []) ≡ 0xc3 ∷ 0xa9 ∷ []
unfolding trim_space trim_left_space trim_right_space decode_last_rune last_of decode_rune
trimmed = refl

-- A byte that is ASCII and not white space.
abbrev pub IsSolid : ℕ → Type 0
IsSolid b = (b < 0x80) × (is_space_rune b ≡ false)

get_or-append : (front : Bytes) (b d : ℕ) → get_or (front ++ (b ∷ [])) (length front) d ≡ b
get_or-append [] b d = refl
get_or-append (a ∷ front) b d = get_or-append front b d

solid_left : (fuel b : ℕ) (s : Bytes) → IsSolid b → trim_left_space fuel (b ∷ s) ≡ b ∷ s
unfolding trim_left_space decode_rune
solid_left zero b s h = refl
solid_left (suc fuel) b s (l, n) =
    let e : ltb b 0x80 ≡ true = ground arith in rw (trim_left_space, decode_rune, e, n) refl

decode_last_rune_solid :
    (front : Bytes) (b : ℕ) → b < 0x80 → decode_last_rune (front ++ (b ∷ [])) ≡ (b, 1)
unfolding decode_last_rune
decode_last_rune_solid front b l =
    let n = length-append front (b ∷ []) in
    let k : length (front ++ (b ∷ [])) - 1 ≡ length front = omega arith in
    let g : from_end (front ++ (b ∷ [])) 1 ≡ b =
      ap (λ i. get_or (front ++ (b ∷ [])) i 0) k ∙ get_or-append front b 0 in
    let e : ltb b 0x80 ≡ true = ground arith in rw (decode_last_rune, g, e) refl

solid_right :
    (fuel : ℕ) (front : Bytes) (b : ℕ)
    → IsSolid b
    → trim_right_space fuel (front ++ (b ∷ [])) ≡ front ++ (b ∷ [])
unfolding trim_right_space
solid_right zero front b h = refl
solid_right (suc fuel) [] b (l, n) =
    let e : ltb b 0x80 ≡ true = ground arith in
    rw (trim_right_space, decode_last_rune_solid [] b l, n) refl
solid_right (suc fuel) (a ∷ front) b (l, n) =
    rw (trim_right_space, decode_last_rune_solid (a ∷ front) b l, n) refl

-- White space in front of a string that starts and ends with solid bytes.
pub trim_space-solid :
    (a : ℕ) (s front : Bytes) (b : ℕ)
    → IsSolid a
    → IsSolid b
    → a ∷ s ≡ front ++ (b ∷ [])
    → trim_space (0x20 ∷ a ∷ s) ≡ a ∷ s
unfolding trim_space trim_left_space decode_rune
trim_space-solid a s front b h k e =
    let l : trim_left_space (length (0x20 ∷ a ∷ s)) (0x20 ∷ a ∷ s) ≡ a ∷ s =
      solid_left (length (a ∷ s)) a s h in
    rw (trim_space, l)
      (ap (trim_right_space (length (a ∷ s))) e ∙ solid_right (length (a ∷ s)) front b k ∙ sym e)

-- A string that starts and ends with solid bytes.
pub trim_space_solid :
    (a : ℕ) (s front : Bytes) (b : ℕ)
    → IsSolid a
    → IsSolid b
    → a ∷ s ≡ front ++ (b ∷ [])
    → trim_space (a ∷ s) ≡ a ∷ s
unfolding trim_space
trim_space_solid a s front b h k e =
    let l = solid_left (length (a ∷ s)) a s h in
    rw (trim_space, l)
      (ap (trim_right_space (length (a ∷ s))) e ∙ solid_right (length (a ∷ s)) front b k ∙ sym e)
