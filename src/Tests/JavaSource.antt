-- ===== src/Tests/JavaSource.antt =====
-- internal/classfile/classfile.go on names, tables and nested classes.
use kotlsp.Prelude.{
  ℕ, zero, suc, ◌<◌, ◌≡◌, ◌↔◌, refl, false, List, [], ◌∷◌, none, some, Bytes, codes, length, arith,
  get_or, inl,
}
use kotlsp.ClassFile.Class.{Class, Method, InnerClass, LocalVariableName, has}
use kotlsp.ClassFile.Descriptor.{
  array_run, method_parameter_slots, slots_loop, slot_width, width_behind,
}
use kotlsp.ClassFile.Identifier.{
  valid_java_identifier, source_java_identifier, restore_source_java_identifiers, member,
}
use kotlsp.ClassFile.Identifier.Injective.{source_java_identifier-injective}
use kotlsp.ClassFile.Identifier.Restore.{restore-source_java_identifier}
use kotlsp.ClassFile.Methods.{recover_parameter_names, fit_names, name_slots, best_local}
use kotlsp.ClassFile.Methods.Names.{get_or-recover_parameter_names}
use kotlsp.ClassFile.ModifiedUtf8.{decode_modified_utf8}
use kotlsp.ClassFile.ModifiedUtf8.Encode.{modified_all, decode_modified_utf8-modified_all}
use kotlsp.ClassFile.Nesting.{Nesting, class_nesting, relation}
use kotlsp.ClassFile.Nesting.Chains.{class_nesting_ends}
use kotlsp.ClassFile.Nesting.Cycles.{IsCycle, class_nesting_cycle}
use kotlsp.ClassFile.Occurrence.{
  find_rendered_identifier, find_loop, stands_alone, is_java_identifier_byte,
}
use kotlsp.ClassFile.Occurrence.First.{
  IsIdentifierByte, lower, IsFirst, find_rendered_identifier_iff,
}
use kotlsp.Std.Runes.{string_of}
use kotlsp.Std.Strings.{index, index_byte}
use kotlsp.Tests.ClassFile.{ascii, sample_class}

-- NUL, `A`, `é`, `€` and a character beyond the basic plane.
abbrev some_runes : List ℕ
some_runes = 0 ∷ 0x41 ∷ 0xe9 ∷ 0x20ac ∷ 0x1f600 ∷ []

decode_modified_utf8-modified_all_example :
    decode_modified_utf8 (modified_all some_runes) ≡ string_of some_runes
decode_modified_utf8-modified_all_example = decode_modified_utf8-modified_all some_runes (
    (
      (omega arith, refl),
      (
        (omega arith, refl),
        ((omega arith, refl), ((omega arith, refl), ((omega arith, refl), tt))),
      ),
    ))

abbrev rendering : Bytes
rendering = codes "class Fab { int ab; }"

ab_found : find_rendered_identifier rendering (codes "ab") 0 ≡ some (16, 18)
unfolding find_rendered_identifier find_loop index stands_alone is_java_identifier_byte
ab_found = refl

ab_bytes : (k : ℕ) → k < 2 → IsIdentifierByte (get_or (codes "ab") k 0)
ab_bytes zero l = lower (omega arith) (omega arith)
ab_bytes (suc zero) l = lower (omega arith) (omega arith)
ab_bytes (suc (suc k)) l = absurd (omega arith)

find_rendered_identifier_iff_example :
    (find_rendered_identifier rendering (codes "ab") 0 ≡ some (16, 18))
    ↔ IsFirst rendering (codes "ab") 0 (16, 18)
find_rendered_identifier_iff_example =
    find_rendered_identifier_iff rendering (codes "ab") 0 (16, 18)
      (record { some_byte = omega arith; bytes = ab_bytes })

-- Lines 7, 0, 9 and 7 again.
abbrev line_table : Bytes
line_table = 0 ∷ 4 ∷ 0 ∷ 0 ∷ 0 ∷ 7 ∷ 0 ∷ 1 ∷ 0 ∷ 0 ∷ 0 ∷ 2 ∷ 0 ∷ 9 ∷ 0 ∷ 3 ∷ 0 ∷ 7 ∷ []

-- A static method of an int and a String, with a name for the second parameter only.
abbrev pub some_method : Method
some_method = record {
  name = codes "m";
  descriptor = codes "(ILjava/lang/String;)V";
  signature = [];
  parameter_types = codes "int" ∷ codes "java.lang.String" ∷ [];
  result_type = codes "void";
  access = 8;
  deprecated = false;
  parameter_names = [] ∷ codes "text" ∷ codes "extra" ∷ [];
  exceptions = [];
  default_value = [];
  annotations = [];
  parameter_annotations = [];
  type_annotations = [];
  line_numbers = [];
}

abbrev some_locals : List LocalVariableName
some_locals =
    record { start_pc = 3; slot = 0; name = codes "late" }
    ∷ record { start_pc = 0; slot = 0; name = codes "count" }
    ∷ []

recovered : recover_parameter_names some_method some_locals ≡ codes "count" ∷ codes "text" ∷ []
unfolding recover_parameter_names fit_names name_slots best_local method_parameter_slots slots_loop
    slot_width width_behind array_run index_byte index has
recovered = refl

get_or-recover_parameter_names_example :
    get_or (recover_parameter_names some_method some_locals) 1 [] ≡ codes "text"
get_or-recover_parameter_names_example =
    get_or-recover_parameter_names some_method some_locals 1 (omega arith) refl

abbrev inner_entry : Bytes → Bytes → Bytes → InnerClass
inner_entry internal outer simple = record {
  internal_name = internal;
  outer_name = outer;
  simple_name = simple;
  access = 1;
}

abbrev pub nested_class : Class
nested_class = record sample_class {
  internal_name = codes "p/A$B";
  inner_classes = inner_entry (codes "p/A$B") (codes "p/A") (codes "B") ∷ [];
}

class_nesting_ends_example : (n : Nesting) × (class_nesting 6 nested_class ≡ some n)
class_nesting_ends_example =
    class_nesting_ends length nested_class 6 ((λ _. omega arith), tt) (omega arith)

-- Two classes that each claim to be inside the other.
abbrev circular_class : Class
circular_class = record sample_class {
  inner_classes =
      inner_entry (codes "A") (codes "B") (codes "A")
      ∷ inner_entry (codes "B") (codes "A") (codes "B")
      ∷ [];
}

circular_class-IsCycle : IsCycle circular_class.inner_classes (codes "A") (codes "B")
unfolding relation
circular_class-IsCycle = record {
  inner = inner_entry (codes "A") (codes "B") (codes "A");
  outer = inner_entry (codes "B") (codes "A") (codes "B");
  from_inner = refl;
  to_outer = refl;
  from_outer = refl;
  to_inner = refl;
}

class_nesting_cycle_example : class_nesting 1000 circular_class ≡ none
class_nesting_cycle_example =
    class_nesting_cycle circular_class (codes "B") 1000 circular_class-IsCycle

abbrev if_name : Bytes
if_name = codes "if"

source_java_identifier-injective_example : if_name ≡ if_name
source_java_identifier-injective_example =
    source_java_identifier-injective ascii if_name if_name (omega arith, (omega arith, tt))
      (omega arith, (omega arith, tt)) refl

restore-source_java_identifier_example :
    restore_source_java_identifiers (source_java_identifier ascii if_name) ≡ if_name
unfolding valid_java_identifier member
restore-source_java_identifier_example =
    restore-source_java_identifier ascii if_name (omega arith, (omega arith, tt))
      (λ e. absurd (ground arith)) (inl refl)
