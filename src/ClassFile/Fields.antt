-- ===== src/ClassFile/Fields.antt =====
-- internal/classfile/classfile.go: the fields that `Parse` reads.
use kotlsp.Prelude.{
  ℕ, Bool, true, false, ◌||◌, List, [], ◌∷◌, ◌++◌, Option, none, some, Bytes, codes, same,
  if◌then◌else◌,
}
use kotlsp.ClassFile.Annotations.{parse_annotations}
use kotlsp.ClassFile.Annotations.Attached.{parse_type_annotations}
use kotlsp.ClassFile.Class.{Field}
use kotlsp.ClassFile.Constants.{Constant, utf8}
use kotlsp.ClassFile.Constants.Literal.{class_constant_literal}
use kotlsp.ClassFile.Descriptor.{parse_type}
use kotlsp.ClassFile.Reader.{Read, ◌>>=◌, pure, u2, times, read_attributes}
use kotlsp.ClassFile.Rows.{first_index}
use kotlsp.ClassFile.Signature.{parse_field_signature}
use kotlsp.Std.Strconv.{Strconv}
use kotlsp.Std.Unicode.{Unicode}

-- The two names of an attribute that keeps annotations.
abbrev pub is_annotations : Bytes → Bool
is_annotations name =
    same name (codes "RuntimeVisibleAnnotations") || same name (codes "RuntimeInvisibleAnnotations")

abbrev pub is_type_annotations : Bytes → Bool
is_type_annotations name =
    same name (codes "RuntimeVisibleTypeAnnotations")
    || same name (codes "RuntimeInvisibleTypeAnnotations")

-- The name or the type of an element, if the text of its descriptor is one; empty otherwise.
abbrev pub type_or_nothing : Option (Bytes × Bytes) → Bytes
type_or_nothing none = []
type_or_nothing (some r) = r.0

-- A generic type, if there is one, goes before another.
abbrev pub prefer : Option Bytes → Bytes → Bytes
prefer none other = other
prefer (some generic) other = generic

module _ (u : Unicode) (f : Strconv) (pool : List Constant) where
  -- The visitor of a field's attributes.
  unfoldable pub field_attribute : Bytes → Bytes → Field → Field
  field_attribute name payload field =
      if same name (codes "Signature")
      then elim (first_index payload) [
        | none ↦ field
        | some i ↦ record field { signature = utf8 pool i }
      ]
      else if same name (codes "Deprecated")
      then record field { deprecated = true }
      else if same name (codes "ConstantValue")
      then elim (first_index payload) [
        | none ↦ field
        | some i ↦ record field {
          constant_value = class_constant_literal f pool i field.descriptor;
        }
      ]
      else if is_annotations name
      then record field { annotations = field.annotations ++ parse_annotations u f pool payload }
      else if is_type_annotations name
      then record field {
        type_annotations = field.type_annotations ++ parse_type_annotations u f pool payload;
      }
      else field

  -- The type of a field, once its attributes are read.
  unfoldable pub with_type : Field → Field
  with_type field = record field {
    typ =
        prefer (parse_field_signature field.signature)
          (type_or_nothing (parse_type u field.descriptor));
  }

  -- A field before its attributes are read.
  abbrev pub new_field : ℕ → ℕ → ℕ → Field
  new_field access name descriptor = record {
    name = utf8 pool name;
    descriptor = utf8 pool descriptor;
    signature = [];
    typ = [];
    access = access;
    deprecated = false;
    constant_value = [];
    annotations = [];
    type_annotations = [];
  }

  -- A round of the loop over the fields.
  unfoldable pub read_field : Read Field
  read_field = do
    access ← u2
    name ← u2
    descriptor ← u2
    field ←
        read_attributes (utf8 pool)
          (λ name payload field. pure (field_attribute name payload field))
          (new_field access name descriptor)
    pure (with_type field)

  unfoldable pub read_fields : Read (List Field)
  read_fields = do
    count ← u2
    times count (λ fields. do field ← read_field; pure (fields ++ (field ∷ []))) []
