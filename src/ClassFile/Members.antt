-- ===== src/ClassFile/Members.antt =====
-- internal/classfile/classfile.go: which members of a class the renderings show, and their types.
use kotlsp.Prelude.{
  ℕ, suc, Bool, false, not, ◌&&◌, ◌||◌, List, [], ◌∷◌, ◌++◌, map, Option, none, some, Bytes, codes,
  same, ◌==◌, if◌then◌else◌, length, pos, get_or,
}
use kotlsp.ClassFile.Class.{
  Class, RecordComponent, Method, has, acc_bridge, acc_synthetic, acc_transient,
}
use kotlsp.ClassFile.Descriptor.{parse_type, parse_method_descriptor}
use kotlsp.ClassFile.Identifier.{member, java_class_name, source_java_identifier}
use kotlsp.ClassFile.Signature.{parse_field_signature}
use kotlsp.ClassFile.Signature.Members.{parse_method_signature}
use kotlsp.Std.Strconv.{format_int}
use kotlsp.Std.Strings.{contains_rune, has_suffix, trim_suffix}
use kotlsp.Std.Unicode.{Unicode}

-- `recordComponent`
unfoldable pub record_component : List RecordComponent → Bytes → Bytes → Bool
record_component [] name descriptor = false
record_component (c ∷ cs) name descriptor =
    same c.name name && same c.descriptor descriptor || record_component cs name descriptor

-- `recordAccessor`
unfoldable pub record_accessor : List RecordComponent → Bytes → Bytes → Bool
record_accessor [] name descriptor = false
record_accessor (c ∷ cs) name descriptor =
    same c.name name && same descriptor (codes "()" ++ c.descriptor)
    || record_accessor cs name descriptor

component_descriptors : List RecordComponent → Bytes
component_descriptors [] = []
component_descriptors (c ∷ cs) = c.descriptor ++ component_descriptors cs

-- `canonicalRecordConstructorDescriptor`
unfoldable pub canonical_record_constructor_descriptor : List RecordComponent → Bytes
unfolding component_descriptors
canonical_record_constructor_descriptor components =
    codes "(" ++ (component_descriptors components ++ codes ")V")

abbrev pub is_constructor : Method → Bool
is_constructor method = same method.name (codes "<init>")

-- `kotlinDeclaredSyntheticMethod`; its test for a nil class is left out, as no caller has one.
unfoldable pub kotlin_declared_synthetic_method : Class → Bytes → Bool
kotlin_declared_synthetic_method class name = elim class.kotlin_metadata [
  | none ↦ false
  | some metadata ↦
      not (same name [] || contains_rune name b'$' || same name (codes "<init>"))
      && member name metadata.data2
]

-- The methods that neither rendering shows.
unfoldable pub is_hidden : Class → Method → Bool
is_hidden class method =
    same method.name (codes "<clinit>")
    || has method.access acc_bridge
    || (has method.access acc_synthetic && not (kotlin_declared_synthetic_method class method.name))

-- The methods that a record has without declaring them.
unfoldable pub is_implied : Class → Method → Bool
is_implied class method =
    class.is_record
    && ((is_constructor method
          && same method.descriptor (canonical_record_constructor_descriptor class.components))
        || record_accessor class.components method.name method.descriptor)

-- The type of a field or a record component: the generic one, the one of the descriptor, or
-- `Object`.
unfoldable pub member_type : Unicode → Bytes → Bytes → Bytes
member_type u descriptor signature = elim (parse_field_signature signature) [
  | some generic ↦ generic
  | none ↦ elim (parse_type u descriptor) [ none ↦ codes "java.lang.Object" | some r ↦ r.0 ]
]

-- The types of a method.
pub record MethodTypes : Type 0 where
  pub type_parameters : Bytes
  pub parameters : List Bytes
  pub result : Bytes
  pub throws : List Bytes

abbrev or_thrown : List Bytes → List Bytes → List Bytes
or_thrown [] throws = throws
or_thrown (t ∷ ts) throws = t ∷ ts

-- The generic types, if there are as many parameters as in the descriptor, and the ones of the
-- descriptor otherwise; `none` is a descriptor that cannot be read.
unfoldable pub method_types : Unicode → Method → Option MethodTypes
method_types u method =
    let types = parse_method_descriptor u method.descriptor in
    let throws = map (java_class_name u) method.exceptions in
    let plain : MethodTypes = record {
      type_parameters = [];
      parameters = types.parameters;
      result = types.result;
      throws = throws;
    } in
    if types.ok
    then elim (parse_method_signature method.signature) [
      | none ↦ some plain
      | some generic ↦
          if length generic.parameters == length types.parameters
          then some (record {
            type_parameters = generic.type_parameters;
            parameters = generic.parameters;
            result = generic.result;
            throws = or_thrown generic.throws throws;
          })
          else some plain
    ]
    else none

-- Whether a parameter takes any number of arguments.
unfoldable pub is_variadic : Method → ℕ → ℕ → Bytes → Bool
is_variadic method count index typ =
    has method.access acc_transient && suc index == count && has_suffix typ (codes "[]")

abbrev pub with_dots : Bool → Bytes → Bytes
with_dots variadic typ = if variadic then trim_suffix typ (codes "[]") ++ codes "..." else typ

-- The name of a parameter: the one of the debug tables, or `arg` and its position.
unfoldable pub parameter_name : Unicode → Method → ℕ → Bytes
parameter_name u method index =
    let name = get_or method.parameter_names index [] in
    source_java_identifier u (if same name [] then codes "arg" ++ format_int (pos index) else name)
