-- ===== src/Std/Hex.antt =====
-- Go's package `encoding/hex`.
use kotlsp.Prelude.{
  ℕ, suc, ◌+◌, ◌-◌, ◌*◌, ◌/◌, ◌%◌, ◌<◌, ◌≡◌, refl, Bool, true, ◌||◌, [], ◌∷◌, Bytes, ltb, leb,
  within, if◌then◌else◌, length, arith,
}

-- A digit of `hex.EncodeToString`.
abbrev pub hex_digit : ℕ → ℕ
hex_digit n = if ltb n 10 then 0x30 + n else 0x57 + n

-- `hex.EncodeToString`
unfoldable pub encode_to_string : Bytes → Bytes
encode_to_string [] = []
encode_to_string (b ∷ s) = hex_digit (b / 16) ∷ hex_digit (b % 16) ∷ encode_to_string s

-- A digit that `hex.DecodeString` reads, in lower case.
abbrev pub is_hex : ℕ → Bool
is_hex b = within 0x30 0x39 b || within 0x61 0x66 b

abbrev pub hex_value : ℕ → ℕ
hex_value b = if leb b 0x39 then b - 0x30 else b - 0x57

-- `hex.DecodeString`, for an even number of lower-case digits.
unfoldable pub decode_string : Bytes → Bytes
decode_string [] = []
decode_string (a ∷ []) = []
decode_string (a ∷ b ∷ s) = (hex_value a * 16 + hex_value b) ∷ decode_string s

-- The bytes of a string.
abbrev pub AllBytes : Bytes → Type 0
AllBytes [] = Unit
AllBytes (b ∷ s) = (b < 256) × AllBytes s

digit-is_hex : (n : ℕ) → n < 16 → is_hex (hex_digit n) ≡ true
digit-is_hex n h = ground arith

digit-value : (n : ℕ) → n < 16 → hex_value (hex_digit n) ≡ n
digit-value n h = ground arith

pub decode-encode_to_string : (s : Bytes) → AllBytes s → decode_string (encode_to_string s) ≡ s
unfolding decode_string encode_to_string
decode-encode_to_string [] h = refl
decode-encode_to_string (b ∷ s) (lt, h) =
    let hi = digit-value (b / 16) (omega arith) in
    let lo = digit-value (b % 16) (omega arith) in
    let q : hex_value (hex_digit (b / 16)) * 16 + hex_value (hex_digit (b % 16)) ≡ b =
      omega arith in
    λ i. q i ∷ decode-encode_to_string s h i

pub length-encode_to_string : (s : Bytes) → length (encode_to_string s) ≡ length s * 2
unfolding encode_to_string
length-encode_to_string [] = omega arith
length-encode_to_string (b ∷ s) = omega (arith, length-encode_to_string s)

-- How many hexadecimal digits a text begins with.
unfoldable pub hex_run : Bytes → ℕ
hex_run [] = 0
hex_run (b ∷ s) = let rest = hex_run s in if is_hex b then suc rest else 0

pub hex_run-encode_to_string :
    (s : Bytes) → AllBytes s → hex_run (encode_to_string s) ≡ length s * 2
unfolding hex_run encode_to_string
hex_run-encode_to_string [] h = omega arith
hex_run-encode_to_string (b ∷ s) (lt, h) =
    let hi = digit-is_hex (b / 16) (omega arith) in
    let lo = digit-is_hex (b % 16) (omega arith) in
    let ih = hex_run-encode_to_string s h in ground arith
