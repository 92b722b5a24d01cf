-- ===== src/Std/Strconv.antt =====
-- What the program uses of Go's packages `strconv` and `math`.
use kotlsp.Prelude.{
  ℕ, zero, suc, ◌+◌, ◌-◌, ◌/◌, ◌%◌, ◌^◌, ◌≡◌, refl, Bool, false, [], ◌∷◌, ◌++◌, Bytes, codes, ltb,
  if◌then◌else◌, ◌*◌, ◌==◌, true, none, some, Option, within, ℤ, pos, negsuc,
}

-- What the model takes as a parameter. A float64 is its 64 bits, as `Float64frombits` reads them;
-- `widen` is the conversion of the float32 of 32 bits, and `format_float` takes the bit size.
-- Nothing is assumed of them.
pub record Strconv : Type 0 where
  pub widen : ℕ → ℕ
  pub format_float : ℕ → ℕ → Bytes
  pub quote : Bytes → Bytes
  pub quote_rune : ℤ → Bytes

-- The decimal digits, of as many as 20: a 64-bit number has no more.
unfoldable pub digits : ℕ → ℕ → Bytes
digits zero n = []
digits (suc fuel) n =
    let front = digits fuel (n / 10) in
    if ltb n 10 then (48 + n) ∷ [] else front ++ ((48 + n % 10) ∷ [])

-- `FormatInt` to base 10.
unfoldable pub format_int : ℤ → Bytes
unfolding digits
format_int (pos n) = digits 20 n
format_int (negsuc n) = b'-' ∷ digits 20 (suc n)

-- The two's complement of a width.
unfoldable pub signed : ℕ → ℕ → ℤ
signed width n = if ltb n (2 ^ (width - 1)) then pos n else negsuc (2 ^ width - 1 - n)

minus_twelve : format_int (signed 32 (2 ^ 32 - 12)) ≡ codes "-12"
unfolding format_int digits signed
minus_twelve = refl

-- The value of decimal digits behind what has been read, with `none` for other bytes.
unfoldable pub digits_value : ℕ → Bytes → Option ℕ
digits_value n [] = some n
digits_value n (b ∷ s) =
    let later = digits_value (n * 10 + (b - 48)) s in if within 48 57 b then later else none

-- At least one digit, of any value.
unfoldable pub natural : Bytes → Option ℕ
natural [] = none
natural (b ∷ s) = digits_value 0 (b ∷ s)

abbrev in_int64 : Bool → Option ℕ → Option ℤ
in_int64 minus none = none
in_int64 true (some zero) = some (pos 0)
in_int64 true (some (suc n)) = if ltb n (2 ^ 63) then some (negsuc n) else none
in_int64 false (some n) = if ltb n (2 ^ 63) then some (pos n) else none

-- `strconv.Atoi`, with `none` for its error: out of the range of an int64, or not a number.
unfoldable pub atoi : Bytes → Option ℤ
atoi [] = none
atoi (b ∷ s) =
    if b == b'-'
    then in_int64 true (natural s)
    else in_int64 false (natural (if b == b'+' then s else b ∷ s))
