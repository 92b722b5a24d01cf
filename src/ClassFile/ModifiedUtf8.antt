-- ===== src/ClassFile/ModifiedUtf8.antt =====
-- internal/classfile/classfile.go: `decodeModifiedUTF8`, which makes Go strings of the texts of
-- the constant pool. A position is the bytes from there on.
pub mod Encode
use kotlsp.Prelude.{
  ℕ, zero, suc, ◌+◌, ◌*◌, ◌-◌, ◌/◌, ◌%◌, Bool, true, false, List, [], ◌∷◌, Option, none, some,
  Bytes, ltb, ◌==◌, within, if◌then◌else◌, length,
}
use kotlsp.Std.Runes.{string_of}

-- The rune of three bytes.
abbrev pub rune_of_three : ℕ → ℕ → ℕ → ℕ
rune_of_three b0 b1 b2 = b0 % 16 * 4096 + b1 % 64 * 64 + b2 % 64

-- A high surrogate, and the low one that may follow it.
unfoldable pub pair_up : ℕ → Bytes → ℕ × Bytes
pair_up first (b0 ∷ b1 ∷ b2 ∷ s) =
    let second = rune_of_three b0 b1 b2 in
    if b0 / 16 == 14
    then if within 0xdc00 0xdfff second
      then (0x10000 + (first - 0xd800) * 1024 + (second - 0xdc00), s)
      else (first, b0 ∷ b1 ∷ b2 ∷ s)
    else (first, b0 ∷ b1 ∷ b2 ∷ s)
pair_up first s = (first, s)

two_bytes : ℕ → Bytes → Option (ℕ × Bytes)
two_bytes b0 (b1 ∷ s) = some (b0 % 32 * 64 + b1 % 64, s)
two_bytes b0 s = none

three_bytes : ℕ → Bytes → Option (ℕ × Bytes)
unfolding pair_up
three_bytes b0 (b1 ∷ b2 ∷ s) =
    let first = rune_of_three b0 b1 b2 in
    if within 0xd800 0xdbff first then some (pair_up first s) else some (first, s)
three_bytes b0 s = none

-- The switch of `decodeModifiedUTF8`.
unfoldable pub rune_at : ℕ → Bytes → Option (ℕ × Bytes)
unfolding two_bytes three_bytes
rune_at b0 s =
    if ltb b0 0x80
    then some (b0, s)
    else if b0 / 32 == 6
    then two_bytes b0 s
    else if b0 / 16 == 14
    then three_bytes b0 s
    else none

-- Its loop, on fuel; a round reads a byte at least.
unfoldable pub decode_runes : ℕ → Bytes → Option (List ℕ)
decode_runes zero text = some []
decode_runes (suc fuel) [] = some []
decode_runes (suc fuel) (b ∷ s) = elim (rune_at b s) [
  | none ↦ none
  | some r ↦ elim (decode_runes fuel r.1) [ none ↦ none | some runes ↦ some (r.0 ∷ runes) ]
]

-- `decodeModifiedUTF8`
unfoldable pub decode_modified_utf8 : Bytes → Bytes
decode_modified_utf8 text = elim (decode_runes (length text) text) [
  | none ↦ text
  | some runes ↦ string_of runes
]
