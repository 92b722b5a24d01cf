-- ===== src/ClassFile/Nesting/Cycles.antt =====
-- internal/classfile/classfile.go: `classNesting` on entries that go round in a circle.
use kotlsp.Prelude.{ℕ, zero, suc, ◌≡◌, refl, ◌∙◌, List, [], ◌∷◌, none, some, Bytes}
use kotlsp.ClassFile.Class.{Class, InnerClass}
use kotlsp.ClassFile.Nesting.{relation, nesting_loop, class_nesting}

-- Two classes that each hold the other.
pub record IsCycle (entries : List InnerClass) (a b : Bytes) : Type 0 where
  pub inner : InnerClass
  pub outer : InnerClass
  pub from_inner : relation entries a ≡ some inner
  pub to_outer : inner.outer_name ≡ b
  pub from_outer : relation entries b ≡ some outer
  pub to_inner : outer.outer_name ≡ a

turn_round : (entries : List InnerClass) (a b : Bytes) → IsCycle entries a b → IsCycle entries b a
turn_round entries a b c = record {
  inner = c.outer;
  outer = c.inner;
  from_inner = c.from_outer;
  to_outer = c.to_inner;
  from_outer = c.from_inner;
  to_inner = c.to_outer;
}

nesting_loop-IsCycle :
    (fuel : ℕ) (entries : List InnerClass) (a b : Bytes) (names : List Bytes) (access : List ℕ)
    → IsCycle entries a b
    → nesting_loop fuel entries a names access ≡ none
unfolding nesting_loop
nesting_loop-IsCycle zero entries a b names access c = refl
nesting_loop-IsCycle (suc fuel) entries a b names access c =
    (simp (nesting_loop, c.from_inner, c.to_outer))
    ∙ nesting_loop-IsCycle fuel entries b a (c.inner.simple_name ∷ names) (c.inner.access ∷ access)
        (turn_round entries a b c)

-- classNesting does not end for a class whose entry names an outer class whose entry names the class
-- again: no number of rounds is enough.
pub class_nesting_cycle :
    (class : Class) (b : Bytes) (fuel : ℕ)
    → IsCycle class.inner_classes class.internal_name b
    → class_nesting fuel class ≡ none
unfolding class_nesting
class_nesting_cycle class b fuel c =
    nesting_loop-IsCycle fuel class.inner_classes class.internal_name b [] [] c
