-- ===== src/ClassFile/Methods/Names.antt =====
-- internal/classfile/classfile.go: the names that `recoverParameterNames` gives.
use kotlsp.Prelude.{
  ℕ, zero, suc, ◌-◌, ◌<◌, ◌≡◌, refl, ap, ◌∙◌, false, List, [], ◌∷◌, ◌++◌, Bytes, same, length,
  length-append, length-take, length-replicate, take, replicate, get_or, arith,
}
use kotlsp.ClassFile.Class.{Method, LocalVariableName, acc_static, has}
use kotlsp.ClassFile.Descriptor.{method_parameter_slots}
use kotlsp.ClassFile.Methods.{name_slots, fit_names, recover_parameter_names}

-- A parameter without a name.
abbrev no_name : Bytes
no_name = []

length-fit_names : (count : ℕ) (names : List Bytes) → length (fit_names count names) ≡ count
unfolding fit_names
length-fit_names count names =
    length-append (take count names) (replicate (count - length names) [])
    ∙ omega (arith, length-take count names, length-replicate (count - length names) no_name)

length-name_slots :
    (locals : List LocalVariableName) (names : List Bytes) (slots : List ℕ)
    → length (name_slots locals names slots) ≡ length names
unfolding name_slots
length-name_slots locals [] slots = refl
length-name_slots locals (n ∷ ns) [] = refl
length-name_slots locals (n ∷ ns) (slot ∷ slots) = ap suc (length-name_slots locals ns slots)

-- recoverParameterNames returns one name for each type of the method's parameters, however many
-- names the class file has.
length-recover_parameter_names :
    (method : Method) (locals : List LocalVariableName)
    → length (recover_parameter_names method locals) ≡ length method.parameter_types
unfolding recover_parameter_names
length-recover_parameter_names method [] =
    length-fit_names (length method.parameter_types) method.parameter_names
length-recover_parameter_names method (v ∷ vs) =
    length-name_slots (v ∷ vs) _
      (method_parameter_slots method.descriptor (has method.access acc_static))
    ∙ length-fit_names (length method.parameter_types) method.parameter_names

get_or-replicate : (n i : ℕ) → get_or (replicate n no_name) i [] ≡ []
get_or-replicate zero i = refl
get_or-replicate (suc n) zero = refl
get_or-replicate (suc n) (suc i) = get_or-replicate n i

get_or-fit_names :
    (count : ℕ) (names : List Bytes) (i : ℕ)
    → i < count
    → get_or (fit_names count names) i [] ≡ get_or names i []
unfolding fit_names
get_or-fit_names zero names i l = absurd (omega arith)
get_or-fit_names (suc count) [] i l = get_or-replicate (suc count - 0) i
get_or-fit_names (suc count) (n ∷ ns) zero l = refl
get_or-fit_names (suc count) (n ∷ ns) (suc i) l =
    let e : suc count - suc (length ns) ≡ count - length ns = omega arith in
    ap (λ k. get_or (take count ns ++ replicate k []) i []) e
    ∙ get_or-fit_names count ns i (omega arith)

-- What a name becomes: itself, unless it is empty.
get_or-name_slots :
    (locals : List LocalVariableName) (names : List Bytes) (slots : List ℕ) (i : ℕ)
    → same (get_or names i []) [] ≡ false
    → get_or (name_slots locals names slots) i [] ≡ get_or names i []
unfolding name_slots
get_or-name_slots locals [] slots i h = refl
get_or-name_slots locals (n ∷ ns) [] i h = refl
get_or-name_slots locals (n ∷ ns) (slot ∷ slots) zero h = rw (h) refl
get_or-name_slots locals (n ∷ ns) (slot ∷ slots) (suc i) h = get_or-name_slots locals ns slots i h

-- recoverParameterNames keeps every name of a parameter that the class file gives in its
-- MethodParameters table: only a name that is empty is looked up among the local variables.
pub get_or-recover_parameter_names :
    (method : Method) (locals : List LocalVariableName) (i : ℕ)
    → i < length method.parameter_types
    → same (get_or method.parameter_names i []) [] ≡ false
    → get_or (recover_parameter_names method locals) i [] ≡ get_or method.parameter_names i []
unfolding recover_parameter_names
get_or-recover_parameter_names method [] i l h =
    get_or-fit_names (length method.parameter_types) method.parameter_names i l
get_or-recover_parameter_names method (v ∷ vs) i l h =
    let e = get_or-fit_names (length method.parameter_types) method.parameter_names i l in
    let k = ap (λ n. same n []) e ∙ h in
    get_or-name_slots (v ∷ vs) _
      (method_parameter_slots method.descriptor (has method.access acc_static)) i k
    ∙ e
