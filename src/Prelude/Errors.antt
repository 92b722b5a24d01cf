-- ===== src/Prelude/Errors.antt =====
-- A Go result `(value, error)`, of which one is nil, with `do` blocks and what they have passed.
use mathlib.Core.Path.{◌≡◌, refl}
use mathlib.Core.Bool.{Bool, true, false}
use mathlib.Core.Option.{Option, none, some}
use mathlib.Core.Logic.{◌↔◌}
use mathlib.Core.List.{List, [], ◌∷◌}

pub data Outcome {ℓ} (E : Type 0) (A : Type ℓ) : Type ℓ where
  failed : E → Outcome E A
  ok : A → Outcome E A

module _ {ℓ κ} {E : Type 0} {A : Type ℓ} {B : Type κ} where
  infixl 5 ◌>>=◌
  abbrev pub ◌>>=◌ : Outcome E A → (A → Outcome E B) → Outcome E B
  failed why >>= next = failed why
  ok value >>= next = next value

  pub bind-eq-ok :
      (m : Outcome E A) (next : A → Outcome E B) (b : B)
      → (m >>= next) ≡ ok b
      → (a : A) × (m ≡ ok a) × (next a ≡ ok b)
  bind-eq-ok (failed why) next b h = cc
  bind-eq-ok (ok a) next b h = (a, refl, h)

module _ {E : Type 0} where
  -- `if failed { return nil, … }`
  abbrev pub fail_if : Bool → E → Outcome E (Unit {0})
  fail_if test why = elim test [ true ↦ failed why | false ↦ ok tt ]

module _ {ℓ} {E : Type 0} {A : Type ℓ} where
  infixl 5 ◌>>◌
  abbrev pub ◌>>◌ : Outcome E (Unit {0}) → Outcome E A → Outcome E A
  failed why >> rest = failed why
  ok _ >> rest = rest

  pub fail_if-eq-ok :
      (b : Bool) (why : E) (m : Outcome E A) (a : A)
      → (fail_if b why >> m) ≡ ok a
      → (b ≡ false) × (m ≡ ok a)
  fail_if-eq-ok true why m a h = cc
  fail_if-eq-ok false why m a h = (refl, h)

  abbrev the_outcome : A → Outcome E A
  the_outcome a = ok a

  -- An optional value, with the error that stands for its absence.
  abbrev pub or_fail : E → Option A → Outcome E A
  or_fail why none = failed why
  or_fail why (some a) = ok a

  pub or_fail-eq-ok {κ} :
      {B : Type κ} {o : Option A} (why : E) (next : A → Outcome E B) (b : B)
      → (or_fail why o >>= next) ≡ ok b
      → (a : A) × (o ≡ some a) × (next a ≡ ok b)
  or_fail-eq-ok {o = none} why next b h = cc
  or_fail-eq-ok {o = some a} why next b h = (a, refl, h)

  pub ok-injective : {a b : A} → the_outcome a ≡ ok b → a ≡ b
  ok-injective h = cc

-- Returns with an error, each under its test, one after the other.
abbrev pub guards : {E : Type 0} → List (Bool × E) → Outcome E (Unit {0})
guards [] = ok tt
guards ((test, why) ∷ rest) = fail_if test why >> guards rest

abbrev pub NoneHolds : {E : Type 0} → List (Bool × E) → Type 0
NoneHolds [] = Unit
NoneHolds ((test, why) ∷ rest) = (test ≡ false) × NoneHolds rest

pub guards_iff : {E : Type 0} (gs : List (Bool × E)) → (guards gs ≡ ok tt) ↔ NoneHolds gs
guards_iff [] = (λ h. tt, λ h. refl)
guards_iff ((true, why) ∷ rest) = (λ h. cc, λ h. cc)
guards_iff ((false, why) ∷ rest) =
    (λ h. (refl, (guards_iff rest).0 h), λ h. (guards_iff rest).1 h.1)

-- A chain of two, of which both are passed.
pub then-eq-ok :
    {E A : Type 0} (m : Outcome E (Unit {0})) (rest : Outcome E A) (a : A)
    → (m >> rest) ≡ ok a
    → (m ≡ ok tt) × (rest ≡ ok a)
then-eq-ok (failed why) rest a h = cc
then-eq-ok (ok tt) rest a h = (refl, h)
