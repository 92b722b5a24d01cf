-- ===== src/ClassFile/Nesting.antt =====
-- internal/classfile/classfile.go: `classNesting`, the classes around a class.
pub mod Chains
pub mod Cycles
use kotlsp.Prelude.{
  ℕ, zero, suc, ◌+◌, Bool, not, ◌&&◌, List, [], ◌∷◌, ◌++◌, Option, none, some, Bytes, same,
  if◌then◌else◌, length, take, drop,
}
use kotlsp.ClassFile.Class.{Class, InnerClass}
use kotlsp.Std.Strings.{last_index_byte, replace_byte}

-- A lookup in the map `relations`: the last of the entries for a name, of those that have an outer
-- class.
unfoldable pub relation : List InnerClass → Bytes → Option InnerClass
relation [] current = none
relation (entry ∷ entries) current = elim (relation entries current) [
  | some later ↦ some later
  | none ↦
      if same entry.internal_name current && not (same entry.outer_name [])
      then some entry
      else none
]

-- The results of `classNesting`, the outermost class first.
pub record Nesting : Type 0 where
  pub package_name : Bytes
  pub names : List Bytes
  pub access : List ℕ

-- A class that no other holds: the package and the name.
unfoldable pub outermost : Bytes → List Bytes → List ℕ → Nesting
outermost current names access = elim (last_index_byte current b'/') [
  | none ↦ record { package_name = []; names = current ∷ names; access = 0 ∷ access }
  | some slash ↦ record {
    package_name = replace_byte (take slash current) b'/' b'.';
    names = drop (suc slash) current ∷ names;
    access = 0 ∷ access;
  }
]

-- The loop of `classNesting`; the fuel counts its rounds, and `none` is the fuel gone.
unfoldable pub nesting_loop : ℕ → List InnerClass → Bytes → List Bytes → List ℕ → Option Nesting
nesting_loop zero entries current names access = none
nesting_loop (suc fuel) entries current names access = elim (relation entries current) [
  | none ↦ some (outermost current names access)
  | some entry ↦
      nesting_loop fuel entries entry.outer_name (entry.simple_name ∷ names) (entry.access ∷ access)
]

-- `classNesting`
unfoldable pub class_nesting : ℕ → Class → Option Nesting
class_nesting fuel class = nesting_loop fuel class.inner_classes class.internal_name [] []
