-- ===== src/Tests/ClassFile.antt =====
-- internal/classfile/classfile.go on small class files, descriptors and names.
use kotlsp.Prelude.{
  ◌≤◌, ◌+◌, ◌≡◌, refl, true, false, ◌||◌, List, [], ◌∷◌, ◌++◌, none, some, Bytes, codes, same, ◌==◌,
  length, map, within, ok, pos,
}
use kotlsp.ClassFile.Annotations.{
  spell_annotation, annotation_with, array_with, value_of_tag, annotation_value, parse_annotation,
}
use kotlsp.ClassFile.Constants.{Constant, no_constant}
use kotlsp.ClassFile.Constants.Literal.{class_constant_literal}
use kotlsp.ClassFile.Descriptor.{descriptor_class_name}
use kotlsp.ClassFile.Signature.Fields.{parse_field_signature-signature}
use kotlsp.ClassFile.Signature.Grammar.{
  GenericType, class_type, letter, arguments, argument, extends, exact, variable, array_of, basic,
  any, done, end,
}
use kotlsp.Std.Strconv.{format_int}
use kotlsp.ClassFile.Class.{Class, Field}
use kotlsp.ClassFile.Constants.{read_pool, pool_loop, pool_round, read_constant, utf8, named}
use kotlsp.ClassFile.Descriptor.{
  primitive, parse_base, array_run, parse_type, parse_method_descriptor, method_parameter_slots,
}
use kotlsp.ClassFile.Descriptor.Grammar.{
  JvmType, int, long, array, object, double, descriptor, descriptors, java,
}
use kotlsp.ClassFile.Descriptor.Methods.{parse_method_descriptor-descriptors}
use kotlsp.ClassFile.Descriptor.Slots.{method_parameter_slots-descriptors}
use kotlsp.ClassFile.Descriptor.Types.{parse_type-descriptor}
use kotlsp.ClassFile.Fields.{read_fields, read_field, with_type}
use kotlsp.ClassFile.Identifier.{
  valid_java_identifier, source_java_identifier, source_java_qualified_name, java_class_name,
  member, java_runes,
}
use kotlsp.ClassFile.Methods.{read_methods}
use kotlsp.ClassFile.ModifiedUtf8.{decode_modified_utf8, decode_runes, rune_at}
use kotlsp.ClassFile.Parse.{parse, with_pool, read_head, read_class, read_interfaces, finish_class}
use kotlsp.ClassFile.Parse.Sizes.{member_bytes, parse_ok}
use kotlsp.ClassFile.Reader.{
  reader, u1, u4, bytes, big_endian, number, times, read_attributes, read_attribute,
}
use kotlsp.ClassFile.Signature.{parse_field_signature, typ, typ_base}
use kotlsp.Std.Runes.{string_of, encode_rune}
use kotlsp.Std.Strconv.{Strconv, signed}
use kotlsp.Std.Strings.{index, index_byte, join, repeat, replace_byte, split}
use kotlsp.Std.Utf8.{decode_rune}
use kotlsp.Std.Unicode.{Unicode}

abbrev pub ascii : Unicode
ascii = record {
  is_letter = λ r. within 0x41 0x5a r || within 0x61 0x7a r;
  is_digit = within 0x30 0x39;
  is_mark = λ r. false;
  is_upper = within 0x41 0x5a;
}

abbrev plain : Strconv
plain = record { widen = λ n. n; format_float = λ n size. []; quote = λ s. s; quote_rune = λ n. [] }

-- A class `A` with an `int` field `A`.
abbrev sample : Bytes
sample =
    0xca ∷ 0xfe ∷ 0xba ∷ 0xbe ∷ 0 ∷ 0 ∷ 0 ∷ 52 ∷ 0 ∷ 4 ∷ 1 ∷ 0 ∷ 1 ∷ b'A' ∷ 7 ∷ 0 ∷ 1 ∷ 1 ∷ 0 ∷ 1
    ∷ b'I' ∷ 0 ∷ 0x21 ∷ 0 ∷ 2 ∷ 0 ∷ 0 ∷ 0 ∷ 0 ∷ 0 ∷ 1 ∷ 0 ∷ 0 ∷ 0 ∷ 1 ∷ 0 ∷ 3 ∷ 0 ∷ 0 ∷ 0 ∷ 0 ∷ 0
    ∷ 0 ∷ []

abbrev sample_field : Field
sample_field = record {
  name = codes "A";
  descriptor = codes "I";
  signature = [];
  typ = codes "int";
  access = 0;
  deprecated = false;
  constant_value = [];
  annotations = [];
  type_annotations = [];
}

abbrev pub sample_class : Class
sample_class = record {
  internal_name = codes "A";
  source_file = [];
  super_name = [];
  interfaces = [];
  signature = [];
  access = 0x21;
  deprecated = false;
  is_record = false;
  annotations = [];
  type_annotations = [];
  enclosing_class = [];
  nest_host = [];
  nest_members = [];
  kotlin_metadata = none;
  components = [];
  inner_classes = [];
  fields = sample_field ∷ [];
  methods = [];
  module_of = none;
}

sample_accepted : parse ascii plain sample ≡ ok sample_class
unfolding parse with_pool read_head read_class read_interfaces finish_class read_fields read_field
    with_type read_methods read_pool pool_loop pool_round read_constant utf8 named u1 bytes
    big_endian number times read_attributes read_attribute parse_type parse_base primitive array_run
    repeat parse_field_signature typ typ_base decode_modified_utf8 decode_runes rune_at string_of
    encode_rune signed
sample_accepted = refl

parse_ok_example :
    (((u4 (reader sample)).0 == 0xcafebabe) ≡ true)
    × ((same (codes "A") [] ≡ false) × (24 + member_bytes sample_class ≤ length sample))
parse_ok_example = parse_ok ascii plain sample sample_class sample_accepted

abbrev some_types : List JvmType
some_types = int ∷ long ∷ array (object (codes "a/B$C")) ∷ double ∷ []

parse_type-descriptor_example :
    parse_type ascii (descriptor (array (object (codes "a/B$C"))) ++ codes "I")
    ≡ some (codes "a.B.C[]", codes "I")
unfolding java_class_name source_java_qualified_name replace_byte join split source_java_identifier
    valid_java_identifier member java_runes decode_rune
parse_type-descriptor_example =
    parse_type-descriptor ascii (array (object (codes "a/B$C"))) (codes "I")
      ((refl, (refl, (refl, (refl, (refl, tt))))))

parse_method_descriptor-descriptors_example :
    parse_method_descriptor ascii
      (b'(' ∷ (descriptors some_types ++ (b')' ∷ (descriptor (object (codes "X")) ++ []))))
    ≡ record {
      parameters = map (java ascii) some_types;
      result = java ascii (object (codes "X"));
      ok = true;
    }
parse_method_descriptor-descriptors_example =
    parse_method_descriptor-descriptors ascii some_types (object (codes "X")) []
      (tt, (tt, ((refl, (refl, (refl, (refl, (refl, tt))))), (tt, tt)))) (refl, tt)

method_parameter_slots-descriptors_example :
    method_parameter_slots (b'(' ∷ (descriptors some_types ++ (b')' ∷ codes "V"))) false
    ≡ 1 ∷ 2 ∷ 4 ∷ 5 ∷ []
method_parameter_slots-descriptors_example =
    method_parameter_slots-descriptors some_types (codes "V") false
      (tt, (tt, ((refl, (refl, (refl, (refl, (refl, tt))))), (tt, tt))))

-- `LM<+TK;[I*>;`, which is `M<? extends K, int[], ?>`.
abbrev some_generic : GenericType
some_generic = class_type (
    letter b'M' (
      arguments
        (argument extends (variable (codes "K"))
          (argument exact (array_of (basic b'I' (codes "int"))) (any done)))
        end))

parse_field_signature-signature_example :
    parse_field_signature (codes "LM<+TK;[I*>;") ≡ some (codes "M<? extends K, int[], ?>")
unfolding primitive join
parse_field_signature-signature_example =
    parse_field_signature-signature some_generic
      ((refl, (refl, ((((refl, (refl, tt)), (refl, tt))), tt))))

-- `@A(v = {1, 1})`, with its names and its number in the pool.
abbrev annotation_pool : List Constant
annotation_pool =
    no_constant
    ∷ record no_constant { tag = 1; text = codes "LA;" }
    ∷ record no_constant { tag = 1; text = codes "v" }
    ∷ record no_constant { tag = 3; integer = pos 1 }
    ∷ []

abbrev annotation_bytes : Bytes
annotation_bytes = 0 ∷ 1 ∷ 0 ∷ 1 ∷ 0 ∷ 2 ∷ b'[' ∷ 0 ∷ 2 ∷ b'I' ∷ 0 ∷ 3 ∷ b'I' ∷ 0 ∷ 3 ∷ []

annotation_spelled :
    (parse_annotation ascii plain annotation_pool (reader annotation_bytes)).0
    ≡ codes "@A(v = {1, 1})"
unfolding parse_annotation annotation_with annotation_value value_of_tag array_with spell_annotation
    number bytes big_endian u1 times utf8 class_constant_literal format_int descriptor_class_name
    parse_type parse_base primitive array_run repeat java_class_name source_java_qualified_name
    replace_byte join split source_java_identifier valid_java_identifier member java_runes
    decode_rune index_byte index
annotation_spelled = refl
