-- ===== src/Tests/Rendering.antt =====
-- internal/classfile/classfile.go: a class as Java source, and its declarations.
use kotlsp.Prelude.{ℕ, ◌≡◌, refl, List, [], ◌∷◌, none, some, Bytes, codes, Option, map}
use kotlsp.ClassFile.Declarations.{
  declare_classes, declare_class, describe_class, declare_field, record_component_offset,
}
use kotlsp.ClassFile.Declarations.Methods.{
  java_declarations, declare_nested, declare_member, declare_method, declare_parameters,
}
use kotlsp.ClassFile.Generics.{
  split_java_type_parameters, split_generic_list, split_from, add_parameter, add_bounds,
}
use kotlsp.ClassFile.Occurrence.{
  find_rendered_identifier, find_loop, stands_alone, is_java_identifier_byte,
}
use kotlsp.Std.Maps.{at_key, append_at}
use kotlsp.ClassFile.Descriptor.{
  parse_type, parse_base, primitive, parse_method_descriptor, parse_parameters,
}
use kotlsp.ClassFile.Identifier.{source_java_qualified_name, java_class_name, java_runes}
use kotlsp.ClassFile.Members.{
  member_type, method_types, is_hidden, is_implied, is_variadic, parameter_name, record_component,
  record_accessor, kotlin_declared_synthetic_method,
}
use kotlsp.ClassFile.Modifiers.{
  java_declaration_class_kind, java_modifier_words, modifiers, modifier_table, say_all,
  default_value,
}
use kotlsp.ClassFile.Render.{
  render_outers, render_header, render_field, write_annotations, render_ends, class_keyword,
  class_access, supertypes_of, extends_class, without_annotation,
}
use kotlsp.ClassFile.Render.Methods.{
  render_java, render_nested, render_member, render_method, render_parameters, render_body,
}
use kotlsp.ClassFile.Signature.{parse_field_signature, typ, typ_base}
use kotlsp.ClassFile.Signature.Members.{
  parse_method_signature, type_parameters, parse_class_signature,
}
use kotlsp.Std.Strconv.{format_int}
use kotlsp.Std.Space.{trim_space}
use kotlsp.Std.Strings.{
  fields, fields_from, cut, split_at_all, index, index_byte, last_index_byte, split, join,
  replace_byte, repeat,
}
use kotlsp.Std.Utf8.{decode_rune}
use kotlsp.ClassFile.Class.{Class, Method, has}
use kotlsp.ClassFile.Descriptor.{array_run}
use kotlsp.ClassFile.Identifier.{valid_java_identifier, source_java_identifier, member}
use kotlsp.ClassFile.Nesting.{nesting_loop, outermost, class_nesting, relation}
use kotlsp.Tests.ClassFile.{ascii}
use kotlsp.ClassFile.Declarations.Types.{JavaDeclaration, java_declaration_signature}
use kotlsp.Tests.JavaSource.{some_method, nested_class}

abbrev varargs_method : Method
varargs_method = record some_method {
  descriptor = codes "([I)V";
  access = 0x89;
  parameter_names = [];
}

-- The method takes any number of arguments, and is said to be transient.
abbrev shown_class : Class
shown_class = record nested_class { methods = varargs_method ∷ [] }

shown :
    render_java ascii 6 shown_class
    ≡ some (
        join
          (codes "package p;"
            ∷ []
            ∷ codes "class A {"
            ∷ codes "    public class B {"
            ∷ codes "        int A;"
            ∷ codes "        public static transient void m(int... arg0) { }"
            ∷ codes "    }"
            ∷ codes "}"
            ∷ []
            ∷ [])
          (0x0a ∷ []))
unfolding render_java render_nested render_outers render_header render_field render_member
    render_method render_parameters render_body write_annotations render_ends class_keyword
    class_access supertypes_of extends_class without_annotation class_nesting nesting_loop relation
    outermost last_index_byte source_java_qualified_name source_java_identifier
    valid_java_identifier member java_runes decode_rune split join replace_byte repeat
    java_class_name has modifiers modifier_table say_all default_value member_type method_types
    parse_field_signature typ typ_base primitive array_run parse_type parse_base
    parse_method_descriptor parse_parameters parse_method_signature type_parameters
    parse_class_signature is_hidden is_implied is_variadic parameter_name record_component
    record_accessor format_int kotlin_declared_synthetic_method
shown = refl

abbrev jvm_names : Option (List JavaDeclaration) → List (Bytes × (Bytes × (ℕ × ℕ)))
jvm_names none = []
jvm_names (some ds) = map (λ d. (d.fqn, (d.signature, (d.name_start, d.name_end)))) ds

-- The rendering that the places are in.
abbrev shown_text : Bytes
shown_text =
    join
      (codes "package p;"
        ∷ []
        ∷ codes "class A {"
        ∷ codes "    public class B {"
        ∷ codes "        int A;"
        ∷ codes "        public static transient void m(int... arg0) { }"
        ∷ codes "    }"
        ∷ codes "}"
        ∷ []
        ∷ [])
      (0x0a ∷ [])

declared :
    jvm_names (java_declarations 6 ascii shown_class shown_text)
    ≡ (codes "p.A", (codes "class A", (18, 19)))
      ∷ (codes "p.A.B", (codes "class B", (39, 40)))
      ∷ (codes "p.A.B.A", (codes "int A", (55, 56)))
      ∷ (codes "p.A.B.m", (codes "void m(int... arg0)", (95, 96)))
      ∷ []
unfolding java_declarations declare_nested declare_classes declare_class describe_class
    declare_field declare_member declare_method declare_parameters record_component_offset
    java_declaration_class_kind java_modifier_words fields fields_from split_java_type_parameters
    split_generic_list split_from add_parameter add_bounds trim_space cut split_at_all
    find_rendered_identifier find_loop stands_alone is_java_identifier_byte index index_byte
    java_declaration_signature at_key append_at supertypes_of extends_class without_annotation
    class_nesting nesting_loop relation outermost last_index_byte source_java_qualified_name
    source_java_identifier valid_java_identifier member java_runes decode_rune split join
    replace_byte repeat java_class_name has modifiers modifier_table say_all member_type
    method_types parse_field_signature typ typ_base primitive array_run parse_type parse_base
    parse_method_descriptor parse_parameters parse_method_signature type_parameters
    parse_class_signature is_hidden is_implied is_variadic parameter_name record_component
    record_accessor format_int kotlin_declared_synthetic_method
declared = refl
