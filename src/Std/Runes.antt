-- ===== src/Std/Runes.antt =====
-- The UTF-8 of a rune, as Go's `string(runes)` spells it.
use kotlsp.Prelude.{
  ℕ, ◌+◌, ◌/◌, ◌%◌, ◌≡◌, refl, ◌||◌, List, [], ◌∷◌, ◌++◌, Bytes, ltb, within, if◌then◌else◌,
}

-- `utf8.EncodeRune`; what is no scalar value is U+FFFD.
unfoldable pub encode_rune : ℕ → Bytes
encode_rune r =
    if ltb r 0x80
    then r ∷ []
    else if ltb r 0x800
    then (0xc0 + r / 64) ∷ (0x80 + r % 64) ∷ []
    else if within 0xd800 0xdfff r || ltb 0x10ffff r
    then 0xef ∷ 0xbf ∷ 0xbd ∷ []
    else if ltb r 0x10000
    then (0xe0 + r / 4096) ∷ (0x80 + r / 64 % 64) ∷ (0x80 + r % 64) ∷ []
    else (0xf0 + r / 262144) ∷ (0x80 + r / 4096 % 64) ∷ (0x80 + r / 64 % 64) ∷ (0x80 + r % 64) ∷ []

-- `string(runes)`
unfoldable pub string_of : List ℕ → Bytes
string_of [] = []
string_of (r ∷ rs) = encode_rune r ++ string_of rs

euro : encode_rune 0x20ac ≡ 0xe2 ∷ 0x82 ∷ 0xac ∷ []
unfolding encode_rune
euro = refl

smile : encode_rune 0x1f600 ≡ 0xf0 ∷ 0x9f ∷ 0x98 ∷ 0x80 ∷ []
unfolding encode_rune
smile = refl
