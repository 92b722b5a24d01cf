-- ===== src/ClassFile/Descriptor.antt =====
-- internal/classfile/classfile.go: type and method descriptors. A position in a descriptor is the
-- text from there on.
pub mod Grammar
pub mod Types
pub mod Methods
pub mod Slots
use kotlsp.Prelude.{
  ℕ, zero, suc, ◌+◌, ◌*◌, Bool, true, false, not, ◌&&◌, ◌||◌, List, [], ◌∷◌, ◌++◌, Option, none,
  some, Bytes, codes, same, ◌==◌, if◌then◌else◌, length, take, drop,
}
use kotlsp.ClassFile.Identifier.{java_class_name}
use kotlsp.Std.Strings.{index_byte, repeat, replace_byte, trim}
use kotlsp.Std.Unicode.{Unicode}

-- The primitive types of the switch of `parseType`, `void` apart.
unfoldable pub primitive : ℕ → Option Bytes
primitive b =
    if b == b'B'
    then some (codes "byte")
    else if b == b'C'
    then some (codes "char")
    else if b == b'D'
    then some (codes "double")
    else if b == b'F'
    then some (codes "float")
    else if b == b'I'
    then some (codes "int")
    else if b == b'J'
    then some (codes "long")
    else if b == b'S'
    then some (codes "short")
    else if b == b'Z'
    then some (codes "boolean")
    else none

-- `for offset < len(descriptor) && descriptor[offset] == '['`
unfoldable pub array_run : Bytes → ℕ
array_run [] = 0
array_run (b ∷ s) = let rest = array_run s in if b == b'[' then suc rest else 0

-- The switch of `parseType`: the type behind its brackets, and what follows it.
unfoldable pub parse_base : Unicode → Bytes → Option (Bytes × Bytes)
parse_base u [] = none
parse_base u (b ∷ s) = elim (primitive b) [
  | some name ↦ some (name, s)
  | none ↦
      if b == b'V'
      then some (codes "void", s)
      else if b == b'L'
      then elim (index_byte s b';') [
        | none ↦ none
        | some end ↦ some (java_class_name u (take end s), drop (suc end) s)
      ]
      else none
]

-- `parseType`
unfoldable pub parse_type : Unicode → Bytes → Option (Bytes × Bytes)
parse_type u descriptor =
    let arrays = array_run descriptor in
    elim (parse_base u (drop arrays descriptor)) [
      | none ↦ none
      | some r ↦ some (r.0 ++ repeat (codes "[]") arrays, r.1)
    ]

-- The parameters of `parseMethodDescriptor`, up to and with the closing bracket. On fuel; a
-- round reads at least one byte.
unfoldable pub parse_parameters : Unicode → ℕ → Bytes → Option (List Bytes × Bytes)
parse_parameters u zero descriptor = none
parse_parameters u (suc fuel) [] = none
parse_parameters u (suc fuel) (b ∷ s) = elim (b == b')') [
  | true ↦ some ([], s)
  | false ↦ elim (parse_type u (b ∷ s)) [
    | none ↦ none
    | some r ↦ elim (parse_parameters u fuel r.1) [
      | none ↦ none
      | some ps ↦ some (r.0 ∷ ps.0, ps.1)
    ]
  ]
]

-- What `parseMethodDescriptor` returns.
pub record MethodDescriptor : Type 0 where
  pub parameters : List Bytes
  pub result : Bytes
  pub ok : Bool

abbrev pub no_descriptor : MethodDescriptor
no_descriptor = record { parameters = []; result = []; ok = false }

-- `parseMethodDescriptor`; what follows the result type is not looked at.
unfoldable pub parse_method_descriptor : Unicode → Bytes → MethodDescriptor
parse_method_descriptor u [] = no_descriptor
parse_method_descriptor u (b ∷ s) =
    if b == b'('
    then elim (parse_parameters u (suc (length s)) s) [
      | none ↦ no_descriptor
      | some ps ↦ elim (parse_type u ps.1) [
        | none ↦ record { parameters = ps.0; result = []; ok = false }
        | some r ↦ record { parameters = ps.0; result = r.0; ok = true }
      ]
    ]
    else no_descriptor

-- `descriptorClassName`
unfoldable pub descriptor_class_name : Unicode → Bytes → Bytes
descriptor_class_name u descriptor =
    let otherwise = replace_byte (trim descriptor (codes "L;")) b'/' b'.' in
    elim (parse_type u descriptor) [
      | none ↦ otherwise
      | some r ↦ if same r.1 [] then r.0 else otherwise
    ]

-- The width of what stands behind so many brackets, and what follows it.
unfoldable pub width_behind : ℕ → Bytes → Option (ℕ × Bytes)
width_behind arrays [] = none
width_behind arrays (b ∷ s) =
    if b == b'J' || b == b'D'
    then some (if arrays == 0 then 2 else 1, s)
    else if b == b'L'
    then elim (index_byte (b ∷ s) b';') [
      | none ↦ none
      | some semicolon ↦ some (1, drop (semicolon + 1) (b ∷ s))
    ]
    else some (1, s)

-- A round of `methodParameterSlots`: the width of a parameter, and what follows it.
unfoldable pub slot_width : Bytes → Option (ℕ × Bytes)
slot_width descriptor = width_behind (array_run descriptor) (drop (array_run descriptor) descriptor)

-- The loop of `methodParameterSlots`, whose nil for a malformed descriptor is `none`. On fuel; a
-- round reads at least one byte.
unfoldable pub slots_loop : ℕ → ℕ → Bytes → Option (List ℕ)
slots_loop zero slot descriptor = some []
slots_loop (suc fuel) slot [] = some []
slots_loop (suc fuel) slot (b ∷ s) = elim (b == b')') [
  | true ↦ some []
  | false ↦ elim (slot_width (b ∷ s)) [
    | none ↦ none
    | some r ↦ elim (slots_loop fuel (slot + r.0) r.1) [
      | none ↦ none
      | some slots ↦ some (slot ∷ slots)
    ]
  ]
]

-- `methodParameterSlots`; a nil is the empty list.
unfoldable pub method_parameter_slots : Bytes → Bool → List ℕ
method_parameter_slots [] static = []
method_parameter_slots (b ∷ s) static =
    if b == b'('
    then elim (slots_loop (length s) (if static then 0 else 1) s) [ none ↦ [] | some slots ↦ slots ]
    else []
