-- ===== src/ClassFile/Signature/Shapes.antt =====
-- internal/classfile/classfile.go: the bytes that generic signatures open with, and how they grow.
use kotlsp.Prelude.{
  ℕ, ◌≤◌, ◌<◌, ◌≡◌, refl, false, ◌∷◌, ◌++◌, some, Bytes, ◌==◌, length, length-append, arith,
}
use kotlsp.ClassFile.Descriptor.{primitive}
use kotlsp.ClassFile.Signature.Grammar.{
  Variance, exact, extends, super, GenericType, basic, variable, array_of, class_type, Name, end,
  letter, arguments, Arguments, done, any, argument, mark, signature, name_text, arguments_text,
  IsGeneric,
}

-- What a signature opens with, and what is told from that byte.
abbrev pub first : GenericType → ℕ
first (basic b name) = b
first (variable name) = b'T'
first (array_of t) = b'['
first (class_type n) = b'L'

abbrev pub others : GenericType → Bytes → Bytes
others (basic b name) rest = rest
others (variable name) rest = name ++ (b';' ∷ rest)
others (array_of t) rest = signature t rest
others (class_type n) rest = name_text n rest

pub signature_first : (t : GenericType) (rest : Bytes) → signature t rest ≡ first t ∷ others t rest
signature_first (basic b name) rest = refl
signature_first (variable name) rest = refl
signature_first (array_of t) rest = refl
signature_first (class_type n) rest = refl

-- The bytes that mean something else where an argument is read.
abbrev pub IsPlain : ℕ → Type 0
IsPlain b =
    ((b == b'>') ≡ false)
    × (((b == b'*') ≡ false) × (((b == b'+') ≡ false) × ((b == b'-') ≡ false)))

pub primitive-IsPlain :
    (b : ℕ) (name : Bytes) → primitive b ≡ some name → IsPlain b × ((b == b'[') ≡ false)
unfolding primitive
primitive-IsPlain b name h =
    ((ground arith, (ground arith, (ground arith, ground arith))), ground arith)

pub first-IsPlain : (t : GenericType) → IsGeneric t → IsPlain (first t)
first-IsPlain (basic b name) h = (primitive-IsPlain b name h).0
first-IsPlain (variable name) h = (refl, (refl, (refl, refl)))
first-IsPlain (array_of t) h = (refl, (refl, (refl, refl)))
first-IsPlain (class_type n) h = (refl, (refl, (refl, refl)))

pub mark-grows : (v : Variance) (rest : Bytes) → length rest ≤ length (mark v rest)
mark-grows exact rest = omega arith
mark-grows extends rest = omega arith
mark-grows super rest = omega arith

-- The text in front of something is longer than it.
mutual
  pub signature-grows : (t : GenericType) (rest : Bytes) → length rest < length (signature t rest)
  signature-grows (basic b name) rest = omega arith
  signature-grows (variable name) rest = omega (arith, length-append name (b';' ∷ rest))
  signature-grows (array_of t) rest = omega (arith, signature-grows t rest)
  signature-grows (class_type n) rest = omega (arith, name_text-grows n rest)

  name_text-grows : (n : Name) (rest : Bytes) → length rest < length (name_text n rest)
  name_text-grows end rest = omega arith
  name_text-grows (letter b n) rest = omega (arith, name_text-grows n rest)
  name_text-grows (arguments a n) rest =
      omega (arith, arguments_text-grows a (name_text n rest), name_text-grows n rest)

  pub arguments_text-grows :
      (a : Arguments) (rest : Bytes) → length rest < length (arguments_text a rest)
  arguments_text-grows done rest = omega arith
  arguments_text-grows (any a) rest = omega (arith, arguments_text-grows a rest)
  arguments_text-grows (argument v t a) rest = omega (
    arith,
    mark-grows v (signature t (arguments_text a rest)),
    signature-grows t (arguments_text a rest),
    arguments_text-grows a rest,
  )
