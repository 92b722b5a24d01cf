-- ===== src/ClassFile/Descriptor/Grammar.antt =====
-- The grammar of field descriptors (JVM specification, 4.3), as a type, with its two spellings.
use kotlsp.Prelude.{ℕ, ◌+◌, ◌≡◌, refl, false, List, [], ◌∷◌, ◌++◌, Bytes, codes, ◌==◌}
use kotlsp.ClassFile.Identifier.{java_class_name}
use kotlsp.Std.Find.{Lacks}
use kotlsp.Std.Unicode.{Unicode}

pub data JvmType : Type 0 where
  byte : JvmType
  char : JvmType
  double : JvmType
  float : JvmType
  int : JvmType
  long : JvmType
  short : JvmType
  boolean : JvmType
  void : JvmType
  object : Bytes → JvmType
  array : JvmType → JvmType

-- The descriptor of a type.
abbrev pub descriptor : JvmType → Bytes
descriptor byte = codes "B"
descriptor char = codes "C"
descriptor double = codes "D"
descriptor float = codes "F"
descriptor int = codes "I"
descriptor long = codes "J"
descriptor short = codes "S"
descriptor boolean = codes "Z"
descriptor void = codes "V"
descriptor (object name) = b'L' ∷ (name ++ codes ";")
descriptor (array t) = b'[' ∷ descriptor t

-- Its name in Java.
abbrev pub java : Unicode → JvmType → Bytes
java u byte = codes "byte"
java u char = codes "char"
java u double = codes "double"
java u float = codes "float"
java u int = codes "int"
java u long = codes "long"
java u short = codes "short"
java u boolean = codes "boolean"
java u void = codes "void"
java u (object name) = java_class_name u name
java u (array t) = java u t ++ codes "[]"

-- A class name ends at the first semicolon.
abbrev pub IsType : JvmType → Type 0
IsType (object name) = Lacks name b';'
IsType (array t) = IsType t
IsType _ = Unit

-- The local variable slots that a parameter takes.
abbrev pub slots : JvmType → ℕ
slots double = 2
slots long = 2
slots _ = 1

-- The descriptors of the parameters, one behind another.
abbrev pub descriptors : List JvmType → Bytes
descriptors [] = []
descriptors (t ∷ ts) = descriptor t ++ descriptors ts

abbrev pub AllTypes : List JvmType → Type 0
AllTypes [] = Unit
AllTypes (t ∷ ts) = IsType t × AllTypes ts

-- The slots of the parameters, the first one given.
abbrev pub offsets : ℕ → List JvmType → List ℕ
offsets slot [] = []
offsets slot (t ∷ ts) = slot ∷ offsets (slot + slots t) ts

-- A descriptor opens with a byte that is no closing bracket.
pub record Opening (t : JvmType) : Type 0 where
  pub byte_of : ℕ
  pub others : Bytes
  pub spelled : descriptor t ≡ byte_of ∷ others
  pub no_close : (byte_of == b')') ≡ false

pub opening : (t : JvmType) → Opening t
opening byte = record { byte_of = _; others = _; spelled = refl; no_close = refl }
opening char = record { byte_of = _; others = _; spelled = refl; no_close = refl }
opening double = record { byte_of = _; others = _; spelled = refl; no_close = refl }
opening float = record { byte_of = _; others = _; spelled = refl; no_close = refl }
opening int = record { byte_of = _; others = _; spelled = refl; no_close = refl }
opening long = record { byte_of = _; others = _; spelled = refl; no_close = refl }
opening short = record { byte_of = _; others = _; spelled = refl; no_close = refl }
opening boolean = record { byte_of = _; others = _; spelled = refl; no_close = refl }
opening void = record { byte_of = _; others = _; spelled = refl; no_close = refl }
opening (object name) = record { byte_of = _; others = _; spelled = refl; no_close = refl }
opening (array t) = record { byte_of = _; others = _; spelled = refl; no_close = refl }
