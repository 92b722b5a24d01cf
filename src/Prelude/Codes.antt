-- ===== src/Prelude/Codes.antt =====
-- Byte strings as lists of numbers, and Go's `==` on them.
use Prim.Native.Nat.{ℕ}
use Prim.Native.Char.{code}
use Prim.Native.String.{String}
use mathlib.Core.Path.{◌≡◌, refl, sym, subst, ◌∙◌}
use mathlib.Core.Bool.{Bool, true, false, ◌&&◌}
use mathlib.Core.List.{List, [], ◌∷◌}
use native.Mathlib.Omega.{arith}
use kotlsp.Prelude.Tests.{◌==◌}

abbrev pub Bytes : Type 0
Bytes = List ℕ

-- The code points of a text: its bytes, if it is ASCII.
abbrev pub codes : String → Bytes
codes String.[] = []
codes (String.◌∷◌ c s) = code c ∷ codes s

abbrev pub same : Bytes → Bytes → Bool
same [] [] = true
same [] (b ∷ t) = false
same (a ∷ s) [] = false
same (a ∷ s) (b ∷ t) = (a == b) && same s t

pub same_refl : (s : Bytes) → same s s ≡ true
same_refl [] = refl
same_refl (a ∷ s) = let ih = same_refl s in ground arith

pub same→eq : (s t : Bytes) → same s t ≡ true → s ≡ t
same→eq [] [] h = refl
same→eq [] (b ∷ t) h = cc
same→eq (a ∷ s) [] h = cc
same→eq (a ∷ s) (b ∷ t) h =
    let q : a ≡ b = ground arith in
    let r : same s t ≡ true = ground arith in λ i. q i ∷ same→eq s t r i

-- Equal names have the same tests.
pub same_trans : (a b c : Bytes) → same a b ≡ true → same a c ≡ same b c
same_trans a b c h = rw (same→eq a b h)

pub same_join : (a b c : Bytes) → same a c ≡ true → same b c ≡ true → same a b ≡ true
same_join a b c h k =
    subst (λ x. same a x ≡ true) (same→eq a c h ∙ sym (same→eq b c k)) (same_refl a)
