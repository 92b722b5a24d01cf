-- ===== src/ClassFile/Signature/Grammar.antt =====
-- The grammar of generic field signatures (JVM specification, 4.7.9.1), as types, with the text of
-- a signature and the Java that it stands for. A text is written in front of what follows it.
use kotlsp.Prelude.{
  ℕ, ◌||◌, false, ◌≡◌, List, [], ◌∷◌, ◌++◌, some, Bytes, codes, same, ◌==◌, if◌then◌else◌,
}
use kotlsp.ClassFile.Descriptor.{primitive}
use kotlsp.Std.Find.{Lacks}
use kotlsp.Std.Strings.{join}

pub data Variance : Type 0 where
  exact extends super : Variance

-- The name of a class goes on with a byte, with type arguments, or ends.
mutual
  pub data GenericType : Type 0 where
    basic : ℕ → Bytes → GenericType
    variable : Bytes → GenericType
    array_of : GenericType → GenericType
    class_type : Name → GenericType

  pub data Name : Type 0 where
    end : Name
    letter : ℕ → Name → Name
    arguments : Arguments → Name → Name

  pub data Arguments : Type 0 where
    done : Arguments
    any : Arguments → Arguments
    argument : Variance → GenericType → Arguments → Arguments

abbrev pub mark : Variance → Bytes → Bytes
mark exact rest = rest
mark extends rest = b'+' ∷ rest
mark super rest = b'-' ∷ rest

abbrev mutual
  pub signature : GenericType → Bytes → Bytes
  signature (basic b name) rest = b ∷ rest
  signature (variable name) rest = b'T' ∷ (name ++ (b';' ∷ rest))
  signature (array_of t) rest = b'[' ∷ signature t rest
  signature (class_type n) rest = b'L' ∷ name_text n rest

  pub name_text : Name → Bytes → Bytes
  name_text end rest = b';' ∷ rest
  name_text (letter b n) rest = b ∷ name_text n rest
  name_text (arguments a n) rest = b'<' ∷ arguments_text a (name_text n rest)

  pub arguments_text : Arguments → Bytes → Bytes
  arguments_text done rest = b'>' ∷ rest
  arguments_text (any a) rest = b'*' ∷ arguments_text a rest
  arguments_text (argument v t a) rest = mark v (signature t (arguments_text a rest))

-- A separator of the parts of a class name is a dot in Java.
abbrev pub java_letter : ℕ → ℕ
java_letter b = if b == b'/' || b == b'$' || b == b'.' then b'.' else b

abbrev pub wildcard : Variance → Bytes
wildcard exact = []
wildcard extends = codes "? extends "
wildcard super = codes "? super "

abbrev mutual
  pub java : GenericType → Bytes
  java (basic b name) = name
  java (variable name) = name
  java (array_of t) = java t ++ codes "[]"
  java (class_type n) = java_name n

  pub java_name : Name → Bytes
  java_name end = []
  java_name (letter b n) = java_letter b ∷ java_name n
  java_name (arguments a n) =
      (codes "<" ++ (join (java_arguments a) (codes ", ") ++ codes ">")) ++ java_name n

  pub java_arguments : Arguments → List Bytes
  java_arguments done = []
  java_arguments (any a) = codes "?" ∷ java_arguments a
  java_arguments (argument v t a) = (wildcard v ++ java t) ∷ java_arguments a

-- The names of primitive types are the descriptors' own, a type variable has a name, and the bytes of
-- a class name are neither a semicolon nor an opening bracket.
abbrev mutual
  pub IsGeneric : GenericType → Type 0
  IsGeneric (basic b name) = primitive b ≡ some name
  IsGeneric (variable name) = (same name [] ≡ false) × Lacks name b';'
  IsGeneric (array_of t) = IsGeneric t
  IsGeneric (class_type n) = IsName n

  pub IsName : Name → Type 0
  IsName end = Unit
  IsName (letter b n) = ((b == b';') ≡ false) × (((b == b'<') ≡ false) × IsName n)
  IsName (arguments a n) = AreArguments a × IsName n

  pub AreArguments : Arguments → Type 0
  AreArguments done = Unit
  AreArguments (any a) = AreArguments a
  AreArguments (argument v t a) = IsGeneric t × AreArguments a
