-- ===== src/ClassFile/Descriptor/Methods.antt =====
-- internal/classfile/classfile.go: `parseMethodDescriptor` reads the descriptors of methods.
use kotlsp.Prelude.{
  ℕ, zero, suc, ◌≤◌, ◌<◌, ◌≡◌, refl, sym, ap, subst, ◌∙◌, true, false, List, [], ◌∷◌, ◌++◌, map,
  append_assoc, some, Bytes, ◌==◌, length, length-append, arith,
}
use kotlsp.ClassFile.Descriptor.{parse_type, parse_parameters, parse_method_descriptor}
use kotlsp.ClassFile.Descriptor.Grammar.{
  JvmType, descriptor, descriptors, java, IsType, AllTypes, opening,
}
use kotlsp.ClassFile.Descriptor.Types.{parse_type-descriptor}
use kotlsp.Std.Unicode.{Unicode}

parameter_step :
    (u : Unicode) (fuel b : ℕ) (s name r : Bytes) (names : List Bytes) (more : Bytes)
    → (b == b')') ≡ false
    → parse_type u (b ∷ s) ≡ some (name, r)
    → parse_parameters u fuel r ≡ some (names, more)
    → parse_parameters u (suc fuel) (b ∷ s) ≡ some (name ∷ names, more)
unfolding parse_parameters
parameter_step u fuel b s name r names more n e f = simp (parse_parameters, n, e, f)

-- A parameter in front of parameters that are read.
parameter_append :
    (u : Unicode) (fuel : ℕ) (t : JvmType) (rest : Bytes) (names : List Bytes) (more : Bytes)
    → IsType t
    → parse_parameters u fuel rest ≡ some (names, more)
    → parse_parameters u (suc fuel) (descriptor t ++ rest) ≡ some (java u t ∷ names, more)
parameter_append u fuel t rest names more h f =
    let o = opening t in
    let e = ap (λ s. s ++ rest) o.spelled in
    subst (λ s. parse_parameters u (suc fuel) s ≡ some (java u t ∷ names, more)) (sym e)
      (parameter_step u fuel o.byte_of (o.others ++ rest) (java u t) rest names more o.no_close
        (ap (parse_type u) (sym e) ∙ parse_type-descriptor u t rest h) f)

parse_parameters-descriptors :
    (u : Unicode) (ts : List JvmType) (fuel : ℕ) (rest : Bytes)
    → AllTypes ts
    → length ts < fuel
    → parse_parameters u fuel (descriptors ts ++ (b')' ∷ rest)) ≡ some (map (java u) ts, rest)
unfolding parse_parameters
parse_parameters-descriptors u [] zero rest h l = absurd (omega arith)
parse_parameters-descriptors u [] (suc fuel) rest h l = refl
parse_parameters-descriptors u (t ∷ ts) zero rest h l = absurd (omega arith)
parse_parameters-descriptors u (t ∷ ts) (suc fuel) rest (h, hs) l =
    subst (λ s. parse_parameters u (suc fuel) s ≡ some (map (java u) (t ∷ ts), rest))
      (sym (append_assoc (descriptor t) (descriptors ts) (b')' ∷ rest)))
      (parameter_append u fuel t _ _ rest h
        (parse_parameters-descriptors u ts fuel rest hs (omega arith)))

-- A round for each parameter is enough for a text that is as long.
pub length-descriptors : (ts : List JvmType) → length ts ≤ length (descriptors ts)
length-descriptors [] = omega arith
length-descriptors (t ∷ ts) =
    let o = opening t in
    let e : length (descriptor t) ≡ suc (length o.others) = ap length o.spelled in
    omega (arith, e, length-append (descriptor t) (descriptors ts), length-descriptors ts)

-- parseMethodDescriptor reads the descriptor of a method, its parameters in brackets and its result
-- behind them, as the Java names of these types, however many parameters there are and whatever
-- follows the result.
pub parse_method_descriptor-descriptors :
    (u : Unicode) (ts : List JvmType) (t : JvmType) (rest : Bytes)
    → AllTypes ts
    → IsType t
    → parse_method_descriptor u (b'(' ∷ (descriptors ts ++ (b')' ∷ (descriptor t ++ rest))))
      ≡ record { parameters = map (java u) ts; result = java u t; ok = true }
unfolding parse_method_descriptor
parse_method_descriptor-descriptors u ts t rest hs h =
    let s = descriptors ts ++ (b')' ∷ (descriptor t ++ rest)) in
    let n : length ts < suc (length s) = omega (
      arith,
      length-append (descriptors ts) (b')' ∷ (descriptor t ++ rest)),
      length-descriptors ts,
    ) in
    let e = parse_parameters-descriptors u ts (suc (length s)) (descriptor t ++ rest) hs n in
    simp (e, parse_type-descriptor u t rest h)
