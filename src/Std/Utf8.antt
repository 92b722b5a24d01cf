-- ===== src/Std/Utf8.antt =====
-- Go's `utf8.DecodeRune`: a rune and its width in bytes. A malformed sequence is the rune
-- U+FFFD of width 1, and the empty string is U+FFFD of width 0.
use kotlsp.Prelude.{
  ℕ, suc, ◌+◌, ◌-◌, ◌*◌, ◌≤◌, ◌<◌, ◌≡◌, refl, Bool, ◌&&◌, [], ◌∷◌, arith, ltb, ◌==◌, within,
  if◌then◌else◌, Bytes, length,
}

abbrev pub rune_error : ℕ
rune_error = 0xfffd

abbrev failed : ℕ × ℕ
failed = (rune_error, 1)

abbrev continues : ℕ → Bool
continues b = within 0x80 0xbf b

decode_two : ℕ → Bytes → ℕ × ℕ
decode_two b0 (b1 ∷ _) = if continues b1 then ((b0 - 0xc0) * 64 + (b1 - 0x80), 2) else failed
decode_two b0 _ = failed

-- The range of the second byte depends on the first.
second_of_three : ℕ → ℕ → Bool
second_of_three b0 b1 =
    if b0 == 0xe0
    then within 0xa0 0xbf b1
    else if b0 == 0xed
    then within 0x80 0x9f b1
    else continues b1

decode_three : ℕ → Bytes → ℕ × ℕ
unfolding second_of_three
decode_three b0 (b1 ∷ b2 ∷ _) =
    if second_of_three b0 b1 && continues b2
    then ((b0 - 0xe0) * 4096 + (b1 - 0x80) * 64 + (b2 - 0x80), 3)
    else failed
decode_three b0 _ = failed

second_of_four : ℕ → ℕ → Bool
second_of_four b0 b1 =
    if b0 == 0xf0
    then within 0x90 0xbf b1
    else if b0 == 0xf4
    then within 0x80 0x8f b1
    else continues b1

decode_four : ℕ → Bytes → ℕ × ℕ
unfolding second_of_four
decode_four b0 (b1 ∷ b2 ∷ b3 ∷ _) =
    if second_of_four b0 b1 && continues b2 && continues b3
    then ((b0 - 0xf0) * 262144 + (b1 - 0x80) * 4096 + (b2 - 0x80) * 64 + (b3 - 0x80), 4)
    else failed
decode_four b0 _ = failed

unfoldable pub decode_rune : Bytes → ℕ × ℕ
unfolding decode_two decode_three decode_four
decode_rune [] = (rune_error, 0)
decode_rune (b0 ∷ rest) =
    if ltb b0 0x80
    then (b0, 1)
    else if within 0xc2 0xdf b0
    then decode_two b0 rest
    else if within 0xe0 0xef b0
    then decode_three b0 rest
    else if within 0xf0 0xf4 b0
    then decode_four b0 rest
    else failed

abbrev Fits : Bytes → ℕ × ℕ → Type 0
Fits rest r = (1 ≤ r.1) × (r.1 ≤ suc (length rest))

decode_two-Fits : (b0 : ℕ) (rest : Bytes) → Fits rest (decode_two b0 rest)
unfolding decode_two
decode_two-Fits b0 [] = omega arith
decode_two-Fits b0 (b1 ∷ _) = ground arith

decode_three-Fits : (b0 : ℕ) (rest : Bytes) → Fits rest (decode_three b0 rest)
unfolding decode_three
decode_three-Fits b0 [] = omega arith
decode_three-Fits b0 (b1 ∷ []) = omega arith
decode_three-Fits b0 (b1 ∷ b2 ∷ _) = ground arith

decode_four-Fits : (b0 : ℕ) (rest : Bytes) → Fits rest (decode_four b0 rest)
unfolding decode_four
decode_four-Fits b0 [] = omega arith
decode_four-Fits b0 (b1 ∷ []) = omega arith
decode_four-Fits b0 (b1 ∷ b2 ∷ []) = omega arith
decode_four-Fits b0 (b1 ∷ b2 ∷ b3 ∷ _) = ground arith

-- A rune of a string that is not empty takes at least one byte, and no more than there are.
pub decode_rune-Fits : (b : ℕ) (rest : Bytes) → Fits rest (decode_rune (b ∷ rest))
unfolding decode_rune
decode_rune-Fits b rest =
    ground (arith, decode_two-Fits b rest, decode_three-Fits b rest, decode_four-Fits b rest)

pub decode_rune_ascii : (b : ℕ) (rest : Bytes) → b < 0x80 → decode_rune (b ∷ rest) ≡ (b, 1)
unfolding decode_rune
decode_rune_ascii b rest h = ground arith

euro : decode_rune (0xe2 ∷ 0x82 ∷ 0xac ∷ []) ≡ (0x20ac, 3)
unfolding decode_rune
euro = refl

smile : decode_rune (0xf0 ∷ 0x9f ∷ 0x98 ∷ 0x80 ∷ []) ≡ (0x1f600, 4)
unfolding decode_rune
smile = refl

overlong : decode_rune (0xc0 ∷ 0x80 ∷ []) ≡ (0xfffd, 1)
unfolding decode_rune
overlong = refl
