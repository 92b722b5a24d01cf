-- ===== src/Std/Find.antt =====
-- What `strings.IndexByte` finds.
use kotlsp.Prelude.{
  ℕ, suc, ◌≡◌, refl, sym, ap, subst, ◌∙◌, true, false, [], ◌∷◌, ◌++◌, Option, none, some, Bytes,
  ◌==◌, length, take, drop, arith, Bool-cases, Option-cases, inl, inr,
}
use mathlib.Core.Option.{some-injective}
use kotlsp.Std.Strings.{index, index_byte}

-- A string without a byte.
abbrev pub Lacks : Bytes → ℕ → Type 0
Lacks [] c = Unit
Lacks (b ∷ s) c = ((b == c) ≡ false) × Lacks s c

index_byte_here : (b : ℕ) (s : Bytes) (c : ℕ) → (b == c) ≡ true → index_byte (b ∷ s) c ≡ some 0
unfolding index_byte index
index_byte_here b s c h = ground arith

index_byte_later :
    (b : ℕ) (s : Bytes) (c : ℕ)
    → (b == c) ≡ false
    → index_byte (b ∷ s) c
      ≡ elim (index_byte s c) as (λ _. Option ℕ) [ none ↦ none | some i ↦ some (suc i) ]
unfolding index_byte index
index_byte_later b s c h = ground arith

-- The first occurrence behind a string without the byte.
pub index_byte-append :
    (s : Bytes) (c : ℕ) (rest : Bytes)
    → Lacks s c
    → index_byte (s ++ (c ∷ rest)) c ≡ some (length s)
unfolding index_byte
index_byte-append [] c rest h = index_byte_here c rest c (ground arith)
index_byte-append (b ∷ s) c rest (ne, h) =
    index_byte_later b (s ++ (c ∷ rest)) c ne ∙ rw (index_byte-append s c rest h) refl

-- What stands before and behind an occurrence.
pub record Found (s : Bytes) (c i : ℕ) : Type 0 where
  pub split : s ≡ take i s ++ (c ∷ drop (suc i) s)
  pub first : Lacks (take i s) c

pub index_byte-Found : (s : Bytes) (c i : ℕ) → index_byte s c ≡ some i → Found s c i
unfolding index_byte index
index_byte-Found [] c i h = cc
index_byte-Found (b ∷ s) c i h = elim (Bool-cases (b == c)) [
  | inl q ↦
      let z = some-injective _ _ (sym (index_byte_here b s c q) ∙ h) in
      let e : b ≡ c = ground arith in
      subst (Found (b ∷ s) c) z (record { split = λ j. e j ∷ s; first = tt })
  | inr q ↦ elim (Option-cases (index_byte s c)) [
    | inl n ↦
        let e : index_byte (b ∷ s) c ≡ none = index_byte_later b s c q ∙ rw (n) refl in
        let f : none ≡ some i = sym e ∙ h in cc
    | inr (k, n) ↦
        let e : index_byte (b ∷ s) c ≡ some (suc k) = index_byte_later b s c q ∙ rw (n) refl in
        let z = some-injective _ _ (sym e ∙ h) in
        let f = index_byte-Found s c k n in
        subst (Found (b ∷ s) c) z (record { split = ap (◌∷◌ b) f.split; first = (q, f.first) })
  ]
]
