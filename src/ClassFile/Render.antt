-- ===== src/ClassFile/Render.antt =====
-- internal/classfile/classfile.go: `RenderJava`, the Java source that a class file is shown as.
-- What the source writes piece by piece is here the pieces joined.
pub mod Methods
use Prim.Native.Nat.{bit_or}
use kotlsp.Prelude.{
  ℕ, zero, suc, ◌-◌, Bool, true, false, not, ◌&&◌, ◌||◌, List, [], ◌∷◌, ◌++◌, map, Option, none,
  some, Bytes, codes, same, if◌then◌else◌, length, take, get_or,
}
use kotlsp.ClassFile.Class.{
  Class, RecordComponent, Field, Method, has, acc_static, acc_final, acc_interface, acc_abstract,
  acc_synthetic, acc_native, acc_annotation, acc_enum,
}
use kotlsp.ClassFile.Identifier.{
  java_class_name, source_java_identifier, source_java_qualified_name,
}
use kotlsp.ClassFile.Members.{
  is_constructor, is_hidden, is_implied, is_variadic, MethodTypes, member_type, method_types,
  parameter_name, record_component, with_dots,
}
use kotlsp.ClassFile.Modifiers.{default_value, modifiers}
use kotlsp.ClassFile.Nesting.{Nesting, class_nesting}
use kotlsp.ClassFile.Signature.Members.{parse_class_signature}
use kotlsp.Std.Strings.{join, repeat}
use kotlsp.Std.Unicode.{Unicode}

abbrev pub concat_all : List Bytes → Bytes
concat_all parts = join parts []

abbrev pub unit_indent : Bytes
unit_indent = codes "    "

abbrev pub newline : Bytes
newline = 0x0a ∷ []

-- A part, if it is written.
abbrev pub when : Bool → Bytes → Bytes
when written s = if written then s else []

-- `writeAnnotations`
unfoldable pub write_annotations : List Bytes → Bytes → Bytes
write_annotations [] indent = []
write_annotations (a ∷ annotations) indent =
    let rest = write_annotations annotations indent in
    if same a [] || same a (codes "@java.lang.Deprecated")
    then rest
    else indent ++ (a ++ (newline ++ rest))

-- The headers of the classes around the class.
unfoldable pub render_outers : ℕ → List Bytes → List ℕ → Bytes
render_outers depth [] access = []
render_outers depth (outer ∷ outers) access = concat_all (
    repeat unit_indent depth
    ∷ modifiers (get_or access depth 0) true
    ∷ codes "class "
    ∷ outer
    ∷ codes " {"
    ∷ newline
    ∷ render_outers (suc depth) outers access
    ∷ [])

-- Their ends, the innermost first.
unfoldable pub render_ends : ℕ → Bytes
render_ends zero = []
render_ends (suc depth) =
    concat_all (repeat unit_indent depth ∷ codes "}" ∷ newline ∷ render_ends depth ∷ [])

-- The keyword of the declaration.
unfoldable pub class_keyword : Class → Bytes
class_keyword class =
    if has class.access acc_annotation
    then codes "@interface "
    else if has class.access acc_enum
    then codes "enum "
    else if has class.access acc_interface
    then codes "interface "
    else if class.is_record
    then codes "record "
    else codes "class "

-- `access &^= accFinal`
abbrev clear_final : ℕ → ℕ
clear_final access = if has access acc_final then access - acc_final else access

-- The access word of the class, with the one of its entry in the table of inner classes.
unfoldable pub class_access : Class → ℕ → ℕ
class_access class inner =
    let access = bit_or class.access inner in if class.is_record then clear_final access else access

abbrev pub prefixed : List Bytes → Bytes
prefixed [] = []
prefixed (a ∷ annotations) = join (a ∷ annotations) (codes " ") ++ codes " "

-- What a class extends and implements, as its declaration has it.
pub record Supertypes : Type 0 where
  pub type_parameters : Bytes
  pub supertype : Bytes
  pub interfaces : List Bytes

-- Without the interface that every annotation has.
unfoldable pub without_annotation : List Bytes → List Bytes
without_annotation [] = []
without_annotation (i ∷ interfaces) =
    let rest = without_annotation interfaces in
    if same i (codes "java.lang.annotation.Annotation") then rest else i ∷ rest

module _ (u : Unicode) where
  -- The generic supertypes, if the class has a signature, and the plain ones otherwise.
  unfoldable pub supertypes_of : Class → Supertypes
  supertypes_of class = elim (parse_class_signature class.signature) [
    | some generic ↦ record {
      type_parameters = generic.type_parameters;
      supertype = generic.supertype;
      interfaces = generic.interfaces;
    }
    | none ↦ record {
      type_parameters = [];
      supertype = java_class_name u class.super_name;
      interfaces = map (java_class_name u) class.interfaces;
    }
  ]

  -- Whether the declaration has an `extends` clause.
  unfoldable pub extends_class : Class → Bytes → Bool
  extends_class class supertype = not (
      same supertype []
      || same supertype (codes "java.lang.Object")
      || has class.access acc_interface
      || has class.access acc_annotation
      || has class.access acc_enum
      || class.is_record)

  -- The components of a record.
  render_component : RecordComponent → Bytes
  render_component c =
      prefixed c.annotations
      ++ (member_type u c.descriptor c.signature ++ (codes " " ++ source_java_identifier u c.name))

  interfaces_clause : Class → List Bytes → Bytes
  interfaces_clause class [] = []
  interfaces_clause class (i ∷ interfaces) =
      (if has class.access acc_interface then codes " extends " else codes " implements ")
      ++ join (i ∷ interfaces) (codes ", ")

  -- The declaration of the class up to its opening brace.
  unfoldable pub render_header : Class → Bytes → ℕ → Bytes → Bytes
  unfolding render_component interfaces_clause
  render_header class simple_name inner indent =
      let types = supertypes_of class in
      let interfaces =
        if has class.access acc_annotation
        then without_annotation types.interfaces
        else types.interfaces in
      concat_all (
        write_annotations class.annotations indent
        ∷ when class.deprecated (indent ++ (codes "@Deprecated" ++ newline))
        ∷ indent
        ∷ modifiers (class_access class inner) true
        ∷ class_keyword class
        ∷ simple_name
        ∷ types.type_parameters
        ∷ when class.is_record
            (codes "(" ++ (join (map render_component class.components) (codes ", ") ++ codes ")"))
        ∷ when (extends_class class types.supertype) (codes " extends " ++ types.supertype)
        ∷ interfaces_clause class interfaces
        ∷ codes " {"
        ∷ newline
        ∷ when (has class.access acc_enum) (indent ++ (codes "    ;" ++ newline))
        ∷ [])

  -- A field; a synthetic one and the field of a record render_component are not shown.
  unfoldable pub render_field : Class → Bytes → Field → Bytes
  render_field class indent field =
      if has field.access acc_synthetic
        || (class.is_record && record_component class.components field.name field.descriptor)
      then []
      else concat_all (
          when field.deprecated (indent ++ (codes "    @Deprecated" ++ newline))
          ∷ write_annotations field.annotations (indent ++ unit_indent)
          ∷ indent
          ∷ unit_indent
          ∷ modifiers field.access false
          ∷ member_type u field.descriptor field.signature
          ∷ codes " "
          ∷ source_java_identifier u field.name
          ∷ when (not (same field.constant_value [])) (codes " = " ++ field.constant_value)
          ∷ codes ";"
          ∷ newline
          ∷ [])
