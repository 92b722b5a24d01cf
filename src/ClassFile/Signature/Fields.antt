-- ===== src/ClassFile/Signature/Fields.antt =====
-- internal/classfile/classfile.go: `parseFieldSignature` reads the generic signatures of fields.
use kotlsp.Prelude.{
  ℕ, zero, suc, ◌≤◌, ◌<◌, ◌≡◌, refl, false, [], ◌∷◌, ◌++◌, some, Bytes, length, arith,
}
use kotlsp.ClassFile.Signature.{arguments_loop, name_loop, typ, parse_field_signature}
use kotlsp.ClassFile.Signature.Grammar.{
  GenericType, basic, variable, array_of, class_type, Name, end, letter, arguments, Arguments, done,
  any, argument, signature, name_text, arguments_text, java, java_name, java_arguments, IsGeneric,
  IsName, AreArguments,
}
use kotlsp.ClassFile.Signature.Shapes.{
  primitive-IsPlain, mark-grows, signature-grows, arguments_text-grows,
}
use kotlsp.ClassFile.Signature.Steps.{
  typ_plain, typ_array, name_letter, name_arguments, any_argument, bracketed_arguments,
  argument_first, base_variable, base_class, base_primitive,
}

mutual
  unfolding name_loop arguments_loop

  typ-signature :
      (t : GenericType) (fuel : ℕ) (rest : Bytes)
      → IsGeneric t
      → length (signature t rest) < fuel
      → typ fuel false (signature t rest) ≡ some (java t, rest)
  typ-signature (basic b name) zero rest h l = absurd (omega arith)
  typ-signature (basic b name) (suc fuel) rest h l =
      typ_plain fuel b rest name rest (primitive-IsPlain b name h).1
        (base_primitive (typ fuel false) b rest name h)
  typ-signature (variable name) zero rest h l = absurd (omega arith)
  typ-signature (variable name) (suc fuel) rest (n, h) l =
      typ_plain fuel b'T' (name ++ (b';' ∷ rest)) name rest refl
        (base_variable (typ fuel false) name rest n h)
  typ-signature (array_of t) zero rest h l = absurd (omega arith)
  typ-signature (array_of t) (suc fuel) rest h l =
      typ_array fuel (signature t rest) (java t) rest
        (typ-signature t (suc fuel) rest h (omega arith))
  typ-signature (class_type n) zero rest h l = absurd (omega arith)
  typ-signature (class_type n) (suc fuel) rest h l =
      let s = name_text n rest in
      typ_plain fuel b'L' s (java_name n) rest refl (
        base_class (typ fuel false) s (java_name n) rest
          (name_loop-name_text n fuel (length s) rest h (omega arith) (omega arith)))

  name_loop-name_text :
      (n : Name) (fuel rounds : ℕ) (rest : Bytes)
      → IsName n
      → length (name_text n rest) < fuel
      → length (name_text n rest) ≤ rounds
      → name_loop (typ fuel false) rounds (name_text n rest) ≡ some (java_name n, rest)
  name_loop-name_text end fuel zero rest h l r = absurd (omega arith)
  name_loop-name_text end fuel (suc rounds) rest h l r = refl
  name_loop-name_text (letter b n) fuel zero rest h l r = absurd (omega arith)
  name_loop-name_text (letter b n) fuel (suc rounds) rest (p, (q, h)) l r =
      name_letter (typ fuel false) rounds b (name_text n rest) (java_name n) rest p q
        (name_loop-name_text n fuel rounds rest h (omega arith) (omega arith))
  name_loop-name_text (arguments a n) fuel zero rest h l r = absurd (omega arith)
  name_loop-name_text (arguments a n) fuel (suc rounds) rest (g, h) l r =
      let more = name_text n rest in
      let s = arguments_text a more in
      let shorter = arguments_text-grows a more in
      name_arguments (typ fuel false) rounds s _ more (java_name n) rest
        (bracketed_arguments (typ fuel false) s (java_arguments a) more (
          arguments_loop-arguments_text a fuel (suc (length (b'<' ∷ s))) more g (omega arith)
            (omega arith)))
        (name_loop-name_text n fuel rounds rest h (omega arith) (omega arith))

  arguments_loop-arguments_text :
      (a : Arguments) (fuel rounds : ℕ) (rest : Bytes)
      → AreArguments a
      → length (arguments_text a rest) < fuel
      → length (arguments_text a rest) ≤ rounds
      → arguments_loop (typ fuel false) rounds (arguments_text a rest)
        ≡ some (java_arguments a, rest)
  arguments_loop-arguments_text done fuel zero rest h l r = absurd (omega arith)
  arguments_loop-arguments_text done fuel (suc rounds) rest h l r = refl
  arguments_loop-arguments_text (any a) fuel zero rest h l r = absurd (omega arith)
  arguments_loop-arguments_text (any a) fuel (suc rounds) rest h l r =
      any_argument (typ fuel false) rounds (arguments_text a rest) (java_arguments a) rest
        (arguments_loop-arguments_text a fuel rounds rest h (omega arith) (omega arith))
  arguments_loop-arguments_text (argument v t a) fuel zero rest h l r = absurd (
      omega (
        arith,
        mark-grows v (signature t (arguments_text a rest)),
        signature-grows t (arguments_text a rest),
      ))
  arguments_loop-arguments_text (argument v t a) fuel (suc rounds) rest (g, h) l r =
      let more = arguments_text a rest in
      let wide = mark-grows v (signature t more) in
      let shorter = signature-grows t more in
      argument_first (typ fuel false) v rounds t more (java_arguments a) rest g
        (typ-signature t fuel more g (omega arith))
        (arguments_loop-arguments_text a fuel rounds rest h (omega arith) (omega arith))

-- parseFieldSignature reads the generic signature of a type as the Java of that type: type variables,
-- arrays, nested classes and type arguments with their wildcards, nested to any depth.
pub parse_field_signature-signature :
    (t : GenericType) → IsGeneric t → parse_field_signature (signature t []) ≡ some (java t)
unfolding parse_field_signature
parse_field_signature-signature t h =
    let e = typ-signature t (suc (length (signature t []))) [] h (omega arith) in
    rw (parse_field_signature, e) refl
