-- ===== src/ClassFile/Nesting/Chains.antt =====
-- internal/classfile/classfile.go: `classNesting` ends where the entries have no cycle.
use kotlsp.Prelude.{
  ℕ, zero, suc, ◌<◌, ◌≡◌, subst, ◌∙◌, true, false, not, ◌&&◌, List, [], ◌∷◌, none, some, Bytes,
  same, same→eq, arith, Bool-cases, Option-cases, inl, inr,
}
use mathlib.Core.Option.{some-injective}
use kotlsp.ClassFile.Class.{Class, InnerClass}
use kotlsp.ClassFile.Nesting.{relation, Nesting, outermost, nesting_loop, class_nesting}

-- Every entry that has an outer class has one of a lower rank.
abbrev pub IsRanked : (Bytes → ℕ) → List InnerClass → Type 0
IsRanked rank [] = Unit
IsRanked rank (e ∷ entries) =
    (same e.outer_name [] ≡ false → rank e.outer_name < rank e.internal_name)
    × IsRanked rank entries

relation-IsRanked :
    (rank : Bytes → ℕ) (entries : List InnerClass) (current : Bytes) (e : InnerClass)
    → IsRanked rank entries
    → relation entries current ≡ some e
    → rank e.outer_name < rank current
unfolding relation
relation-IsRanked rank [] current e h r = absurd (ground arith)
relation-IsRanked rank (x ∷ entries) current e (h, hs) r =
    elim (Option-cases (relation entries current)) [
      | inr (y, q) ↦
          let f : some y ≡ some e = simp (relation, q) at r in
          relation-IsRanked rank entries current e hs (q ∙ f)
      | inl q ↦ elim (Bool-cases (same x.internal_name current && not (same x.outer_name []))) [
        | inr b ↦ let f : none ≡ some e = simp (relation, q, b) at r in absurd (ground arith)
        | inl b ↦
            let f : some x ≡ some e = simp (relation, q, b) at r in
            let c : same x.internal_name current ≡ true = ground arith in
            let d : same x.outer_name [] ≡ false = ground arith in
            let eq = same→eq x.internal_name current c in
            let l : rank x.outer_name < rank current =
              subst (λ n. rank x.outer_name < rank n) eq (h d) in
            subst (λ y. rank y.outer_name < rank current) (some-injective _ _ f) l
      ]
    ]

nesting_loop_ends :
    (rank : Bytes → ℕ) (fuel : ℕ) (entries : List InnerClass) (current : Bytes) (names : List Bytes)
    (access : List ℕ)
    → IsRanked rank entries
    → rank current < fuel
    → (n : Nesting) × (nesting_loop fuel entries current names access ≡ some n)
unfolding nesting_loop
nesting_loop_ends rank zero entries current names access h l = absurd (omega arith)
nesting_loop_ends rank (suc fuel) entries current names access h l =
    elim (Option-cases (relation entries current)) [
      | inl q ↦ (outermost current names access, simp (nesting_loop, q))
      | inr (e, q) ↦
          let k = relation-IsRanked rank entries current e h q in
          let (n, f) =
            nesting_loop_ends rank fuel entries e.outer_name (e.simple_name ∷ names)
              (e.access ∷ access) h (omega arith) in
          (n, (simp (nesting_loop, q)) ∙ f)
    ]

-- classNesting ends for a class file whose inner-class entries can be ranked so that every outer class
-- has a lower rank than the class in it (as the length of the names ranks the entries that a Java
-- compiler writes), after no more rounds than the rank of the class and one.
pub class_nesting_ends :
    (rank : Bytes → ℕ) (class : Class) (fuel : ℕ)
    → IsRanked rank class.inner_classes
    → rank class.internal_name < fuel
    → (n : Nesting) × (class_nesting fuel class ≡ some n)
unfolding class_nesting
class_nesting_ends rank class fuel h l =
    nesting_loop_ends rank fuel class.inner_classes class.internal_name [] [] h l
