-- ===== src/Std/Prefix.antt =====
-- What `strings.HasPrefix` and `strings.Index` say of the bytes of a string.
use kotlsp.Prelude.{
  ℕ, zero, suc, ◌+◌, ◌<◌, ◌≡◌, refl, ap, ◌∙◌, true, false, [], ◌∷◌, none, some, Bytes, length, take,
  drop, get_or, arith, Bool-cases, Option-cases, inl, inr,
}
use kotlsp.Std.Strings.{has_prefix, index}

pub has_prefix-take : (s part : Bytes) → has_prefix s part ≡ true → take (length part) s ≡ part
has_prefix-take s [] h = refl
has_prefix-take [] (p ∷ ps) h = absurd (ground arith)
has_prefix-take (b ∷ s) (p ∷ ps) h =
    let ih = has_prefix-take s ps (ground arith) in let e : b ≡ p = ground arith in λ i. e i ∷ ih i

pub take-has_prefix : (s part : Bytes) → take (length part) s ≡ part → has_prefix s part ≡ true
take-has_prefix s [] h = refl
take-has_prefix [] (p ∷ ps) h = cc
take-has_prefix (b ∷ s) (p ∷ ps) h =
    let e : b ≡ p = ap (λ xs. get_or xs 0 0) h in
    let t : take (length ps) s ≡ ps = ap (drop 1) h in
    let ih = take-has_prefix s ps t in ground arith

-- The bytes of a prefix are those of the string.
pub prefix-get_or :
    (s part : Bytes) (k : ℕ)
    → has_prefix s part ≡ true
    → k < length part
    → get_or s k 0 ≡ get_or part k 0
prefix-get_or s [] k h l = absurd (omega arith)
prefix-get_or [] (p ∷ ps) k h l = absurd (ground arith)
prefix-get_or (b ∷ s) (p ∷ ps) zero h l = ground arith
prefix-get_or (b ∷ s) (p ∷ ps) (suc k) h l = prefix-get_or s ps k (ground arith) (omega arith)

pub get_or-drop : (s : Bytes) (i k : ℕ) → get_or (drop i s) k 0 ≡ get_or s (i + k) 0
get_or-drop s zero k = let n : k ≡ 0 + k = omega arith in ap (λ n. get_or s n 0) n
get_or-drop [] (suc i) k = refl
get_or-drop (b ∷ s) (suc i) k =
    let n : suc (i + k) ≡ suc i + k = omega arith in
    get_or-drop s i k ∙ ap (λ n. get_or (b ∷ s) n 0) n

-- A part that is not found begins nowhere.
pub index-absent :
    (s part : Bytes) → index s part ≡ none → (k : ℕ) → has_prefix (drop k s) part ≡ false
unfolding index
index-absent [] part h zero = ground arith
index-absent [] part h (suc k) = ground arith
index-absent (b ∷ s) part h zero = elim (Bool-cases (has_prefix (b ∷ s) part)) [
  | inl q ↦ absurd (ground arith)
  | inr q ↦ q
]
index-absent (b ∷ s) part h (suc k) = elim (Bool-cases (has_prefix (b ∷ s) part)) [
  | inl q ↦ absurd (ground arith)
  | inr q ↦ elim (Option-cases (index s part)) [
    | inl e ↦ index-absent s part e k
    | inr (j, e) ↦ absurd (ground arith)
  ]
]

-- Nor before the place where it is found.
pub index-earlier :
    (s part : Bytes) (i : ℕ)
    → index s part ≡ some i
    → (k : ℕ) → k < i
    → has_prefix (drop k s) part ≡ false
unfolding index
index-earlier [] part i h k l = absurd (ground arith)
index-earlier (b ∷ s) part i h zero l = elim (Bool-cases (has_prefix (b ∷ s) part)) [
  | inl q ↦ absurd (ground arith)
  | inr q ↦ q
]
index-earlier (b ∷ s) part i h (suc k) l = elim (Bool-cases (has_prefix (b ∷ s) part)) [
  | inl q ↦ absurd (ground arith)
  | inr q ↦ elim (Option-cases (index s part)) [
    | inl e ↦ absurd (ground arith)
    | inr (j, e) ↦ index-earlier s part j e k (ground arith)
  ]
]
