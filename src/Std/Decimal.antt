-- ===== src/Std/Decimal.antt =====
-- `strconv.Atoi` reads back what `strconv.FormatInt` writes.
use native.Mathlib.Nat.{pow-suc}
use mathlib.Core.Option.{some-injective}
use kotlsp.Prelude.{
  ℕ, zero, suc, ◌+◌, ◌-◌, ◌*◌, ◌/◌, ◌%◌, ◌^◌, ◌≤◌, ◌<◌, ◌≡◌, refl, subst, ap, ◌∙◌, false, true, [],
  ◌∷◌, ◌++◌, Bytes, ltb, length, length-append, ◌==◌, none, some, within, arith, Bool-cases, inl,
  inr, pos,
}
use kotlsp.Std.Strconv.{digits, format_int, digits_value, natural, atoi}

abbrev pub IsDigit : ℕ → Type 0
IsDigit b = (48 ≤ b) × (b ≤ 57)

abbrev pub AreDigits : Bytes → Type 0
AreDigits [] = Unit
AreDigits (b ∷ s) = IsDigit b × AreDigits s

AreDigits-append : (s t : Bytes) → AreDigits s → AreDigits t → AreDigits (s ++ t)
AreDigits-append [] t h k = k
AreDigits-append (b ∷ s) t (d, h) k = (d, AreDigits-append s t h k)

digits-AreDigits : (fuel n : ℕ) → AreDigits (digits fuel n)
unfolding digits
digits-AreDigits zero n = tt
digits-AreDigits (suc fuel) n = elim (Bool-cases (ltb n 10)) [
  | inl q ↦ rw (digits, q) ((omega arith, ground arith), tt)
  | inr q ↦
      rw (digits, q)
        (AreDigits-append (digits fuel (n / 10)) ((48 + n % 10) ∷ [])
          (digits-AreDigits fuel (n / 10)) ((omega arith, omega arith), tt))
]

digits_value-append :
    (s : Bytes) (b n m : ℕ)
    → IsDigit b
    → digits_value n s ≡ some m
    → digits_value n (s ++ (b ∷ [])) ≡ some (m * 10 + (b - 48))
unfolding digits_value
digits_value-append [] b n m (l, u) e =
    let w : within 48 57 b ≡ true = ground arith in
    let f : n ≡ m = some-injective _ _ e in rw (digits_value, w, f) refl
digits_value-append (a ∷ s) b n m d e = elim (Bool-cases (within 48 57 a)) [
  | inl q ↦
      let f : digits_value (n * 10 + (a - 48)) s ≡ some m = rw (digits_value, q) at e in
      rw (digits_value, q) (digits_value-append s b (n * 10 + (a - 48)) m d f)
  | inr q ↦ let f : none ≡ some m = rw (digits_value, q) at e in cc
]

-- As many digits as the fuel are enough for a number below that power of ten.
digits_value-digits : (fuel n : ℕ) → n < 10 ^ fuel → digits_value 0 (digits fuel n) ≡ some n
unfolding digits digits_value
digits_value-digits zero n h = let z : n ≡ 0 = omega arith in rw (z) refl
digits_value-digits (suc fuel) n h = elim (Bool-cases (ltb n 10)) [
  | inl q ↦
      let w : within 48 57 (48 + n) ≡ true = ground arith in
      let e : 0 * 10 + (48 + n - 48) ≡ n = omega arith in rw (digits, digits_value, q, w, e) refl
  | inr q ↦
      let p : 10 ^ suc fuel ≡ 10 ^ fuel * 10 = pow-suc 10 fuel in
      let ih = digits_value-digits fuel (n / 10) (omega arith) in
      let e : n / 10 * 10 + (48 + n % 10 - 48) ≡ n = omega arith in
      rw (digits, q)
        (digits_value-append (digits fuel (n / 10)) (48 + n % 10) 0 (n / 10)
            (omega arith, omega arith) ih
          ∙ ap some e)
]

length-digits : (fuel n : ℕ) → length (digits fuel n) ≤ fuel
unfolding digits
length-digits zero n = omega arith
length-digits (suc fuel) n = elim (Bool-cases (ltb n 10)) [
  | inl q ↦ rw (digits, q) (omega arith)
  | inr q ↦
      rw (digits, q)
        (omega (
          arith,
          length-append (digits fuel (n / 10)) ((48 + n % 10) ∷ []),
          length-digits fuel (n / 10),
        ))
]

-- What is said of the digits of a number.
pub record Decimal (n : ℕ) (s : Bytes) : Type 0 where
  pub all : AreDigits s
  pub short : length s ≤ 20
  pub last : (front : Bytes) × (b : ℕ) × (s ≡ front ++ (b ∷ [])) × IsDigit b
  pub first : (b : ℕ) × (more : Bytes) × (s ≡ b ∷ more) × IsDigit b
  pub value : atoi s ≡ some (pos n)

digits_last :
    (fuel n : ℕ) → (front : Bytes) × (b : ℕ) × (digits (suc fuel) n ≡ front ++ (b ∷ [])) × IsDigit b
unfolding digits
digits_last fuel n = elim (Bool-cases (ltb n 10)) [
  | inl q ↦ ([], 48 + n, rw (digits, q) refl, (omega arith, ground arith))
  | inr q ↦ (digits fuel (n / 10), 48 + n % 10, rw (digits, q) refl, (omega arith, omega arith))
]

first_of :
    (front : Bytes) (b : ℕ)
    → AreDigits (front ++ (b ∷ []))
    → (a : ℕ) × (more : Bytes) × (front ++ (b ∷ []) ≡ a ∷ more) × IsDigit a
first_of [] b (d, _) = (b, [], refl, d)
first_of (a ∷ front) b (d, _) = (a, front ++ (b ∷ []), refl, d)

atoi_natural :
    (b n : ℕ) (s : Bytes)
    → IsDigit b
    → n < 2 ^ 63
    → digits_value 0 (b ∷ s) ≡ some n
    → atoi (b ∷ s) ≡ some (pos n)
unfolding atoi natural
atoi_natural b n s (l, u) h e =
    let m : (b == b'-') ≡ false = ground arith in
    let p : (b == b'+') ≡ false = ground arith in
    let k : ltb n (2 ^ 63) ≡ true = ground arith in rw (atoi, natural, m, p, e, k) refl

pub format_int-Decimal : (n : ℕ) → n < 2 ^ 63 → Decimal n (format_int (pos n))
unfolding format_int
format_int-Decimal n h =
    let all = digits-AreDigits 20 n in
    let (front, d, e, k) = digits_last 19 n in
    let (a, more, f, j) = first_of front d (subst AreDigits e all) in
    let g : digits 20 n ≡ a ∷ more = e ∙ f in
    let v : digits_value 0 (digits 20 n) ≡ some n = digits_value-digits 20 n (omega arith) in
    record {
      all = all;
      short = length-digits 20 n;
      last = (front, d, e, k);
      first = (a, more, g, j);
      value = ap atoi g ∙ atoi_natural a n more j h (subst (λ s. digits_value 0 s ≡ some n) g v);
    }
