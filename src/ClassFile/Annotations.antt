-- ===== src/ClassFile/Annotations.antt =====
-- internal/classfile/classfile.go: annotations, spelled as Java. The values of an annotation nest,
-- so they are read on fuel that counts the nesting; each value reads its tag at least.
pub mod Attached
pub mod Fuel
pub mod Metadata
use kotlsp.Prelude.{
  ℕ, zero, suc, ◌+◌, Bool, true, false, not, ◌&&◌, ◌||◌, List, [], ◌∷◌, ◌++◌, map, Option, none,
  some, Bytes, codes, same, ◌==◌, if◌then◌else◌, length, take, drop,
}
use kotlsp.ClassFile.Constants.{Constant, utf8}
use kotlsp.ClassFile.Constants.Literal.{class_constant_literal}
use kotlsp.ClassFile.Descriptor.{descriptor_class_name}
use kotlsp.ClassFile.Reader.{Reader, reader, Read, ◌>>=◌, ◌>>◌, pure, u1, u2, times}
use kotlsp.Std.Strconv.{Strconv}
use kotlsp.Std.Strings.{has_prefix, join, trim_prefix}
use kotlsp.Std.Unicode.{Unicode}

-- Elements that stand one behind another; the ones that are empty are left out.
abbrev pub append_unless_empty : List Bytes → Bytes → List Bytes
append_unless_empty out [] = out
append_unless_empty out (b ∷ s) = out ++ ((b ∷ s) ∷ [])

-- `Prefix` and `TrimPrefix` of a lone value.
abbrev lone_value : List Bytes → List Bytes
lone_value (v ∷ []) = trim_prefix v (codes "value = ") ∷ []
lone_value values = values

-- What `parseAnnotation` returns for the type and the values.
unfoldable pub spell_annotation : Bytes → List Bytes → Bytes
spell_annotation typ values = if same typ [] then [] else elim values [
  | [] ↦ codes "@" ++ typ
  | v ∷ vs ↦
      codes "@" ++ (typ ++ (codes "(" ++ (join (lone_value (v ∷ vs)) (codes ", ") ++ codes ")")))
]

module _ (u : Unicode) (f : Strconv) (pool : List Constant) where
  -- A name and its value; neither may be empty.
  abbrev named_value : Bytes → Bytes → List Bytes → List Bytes
  named_value name value values =
      if same name [] || same value []
      then values
      else values ++ ((name ++ (codes " = " ++ value)) ∷ [])

  -- `parseAnnotation`, with the reader of a value.
  unfoldable pub annotation_with : Read Bytes → Read Bytes
  annotation_with value = do
    index ← u2
    pairs ← u2
    values ←
        times pairs
          (λ values. do name ← u2; v ← value; pure (named_value (utf8 pool name) v values)) []
    pure (spell_annotation (descriptor_class_name u (utf8 pool index)) values)

  abbrev enum_value : Bytes → Bytes → Bytes
  enum_value typ name = if same typ [] then name else typ ++ (codes "." ++ name)

  abbrev class_value : Bytes → Bytes
  class_value typ = if same typ [] then codes "java.lang.Object.class" else typ ++ codes ".class"

  -- The tags of the constants.
  abbrev is_constant_tag : ℕ → Bool
  is_constant_tag tag =
      tag == b'B'
      || tag == b'C'
      || tag == b'D'
      || tag == b'F'
      || tag == b'I'
      || tag == b'J'
      || tag == b'S'
      || tag == b'Z'

  -- The cases of the switch of `parseAnnotationValue`, with the reader of a value.
  abbrev constant_case : ℕ → Read Bytes
  constant_case tag = do index ← u2; pure (class_constant_literal f pool index (tag ∷ []))

  abbrev string_case : Read Bytes
  string_case = do index ← u2; pure (f.quote (utf8 pool index))

  abbrev enum_case : Read Bytes
  enum_case = do
    typ ← u2
    name ← u2
    pure (enum_value (descriptor_class_name u (utf8 pool typ)) (utf8 pool name))

  abbrev class_case : Read Bytes
  class_case = do typ ← u2; pure (class_value (descriptor_class_name u (utf8 pool typ)))

  unfoldable pub array_with : Read Bytes → Read Bytes
  array_with value = do
    count ← u2
    values ← times count (λ values. do v ← value; pure (values ++ (v ∷ []))) []
    pure (codes "{" ++ (join values (codes ", ") ++ codes "}"))

  -- The switch.
  unfoldable pub value_of_tag : Read Bytes → ℕ → Read Bytes
  value_of_tag value tag r =
      if is_constant_tag tag
      then constant_case tag r
      else if tag == b's'
      then string_case r
      else if tag == b'e'
      then enum_case r
      else if tag == b'c'
      then class_case r
      else if tag == b'@'
      then annotation_with value r
      else if tag == b'['
      then array_with value r
      else ([], r)

  -- `parseAnnotationValue`, on fuel.
  unfoldable pub annotation_value : ℕ → Read Bytes
  annotation_value zero = pure []
  annotation_value (suc fuel) = do tag ← u1; value_of_tag (annotation_value fuel) tag

  -- `parseAnnotationValue` and `parseAnnotation`: the bytes that are left bound the nesting.
  unfoldable pub parse_annotation_value : Read Bytes
  parse_annotation_value r = annotation_value (suc (length r.rest)) r

  unfoldable pub parse_annotation : Read Bytes
  parse_annotation r = annotation_with (annotation_value (suc (length r.rest))) r

  -- `parseAnnotations`
  unfoldable pub parse_annotations : Bytes → List Bytes
  parse_annotations payload =
      let (count, r) = u2 (reader payload) in
      let (out, r') =
        times count (λ out. do a ← parse_annotation; pure (append_unless_empty out a)) [] r in
      out
