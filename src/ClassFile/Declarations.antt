-- ===== src/ClassFile/Declarations.antt =====
-- internal/classfile/classfile.go: `JavaDeclarations`, the declarations of a class file for the
-- index, with the places of their names in the rendering.
pub mod Types
pub mod Methods
use Prim.Native.Nat.{bit_or}
use kotlsp.Prelude.{
  ℕ, zero, suc, ◌+◌, ◌-◌, Bool, true, false, not, ◌&&◌, ◌||◌, List, [], ◌∷◌, ◌++◌, map, Option,
  none, some, Bytes, codes, same, ◌==◌, if◌then◌else◌, length, drop, get_or,
}
use kotlsp.ClassFile.Class.{Class, Field, Method, has, acc_synthetic, acc_annotation, acc_enum}
use kotlsp.ClassFile.Declarations.Types.{JavaDeclaration, JavaParameter, java_declaration_signature}
use kotlsp.ClassFile.Generics.{split_java_type_parameters}
use kotlsp.ClassFile.Identifier.{
  java_class_name, source_java_identifier, source_java_qualified_name,
}
use kotlsp.ClassFile.Members.{
  is_constructor, is_hidden, is_implied, is_variadic, MethodTypes, member_type, method_types,
  parameter_name, record_accessor, record_component, with_dots,
}
use kotlsp.ClassFile.Modifiers.{java_declaration_class_kind, java_modifier_words}
use kotlsp.ClassFile.Nesting.{Nesting, class_nesting}
use kotlsp.ClassFile.Occurrence.{find_rendered_identifier}
use kotlsp.ClassFile.Render.{Supertypes, supertypes_of, extends_class, without_annotation}
use kotlsp.Std.Maps.{SliceMap}
use kotlsp.Std.Strings.{index_byte}
use kotlsp.Std.Unicode.{Unicode}

-- The variables of `JavaDeclarations` that its loops update.
pub record DeclarationWalk : Type 0 where
  pub container : Bytes
  pub cursor : ℕ
  pub owner_offset : ℕ
  pub declarations : List JavaDeclaration

-- A declaration of a kind, without what only some kinds have.
abbrev pub blank : Bytes → JavaDeclaration
blank kind = record {
  name = [];
  jvm_name = [];
  jvm_descriptor = [];
  fqn = [];
  container_fqn = [];
  kind = kind;
  typ = [];
  initializer = [];
  signature = [];
  parameters = [];
  type_parameters = [];
  type_parameter_bounds = [];
  supertypes = [];
  modifiers = [];
  deprecated = false;
  name_start = 0;
  name_end = 0;
}

-- `declaration.Signature = …`, and the declaration behind the others
abbrev pub append_declaration : JavaDeclaration → DeclarationWalk → DeclarationWalk
append_declaration d walk = record walk {
  declarations = walk.declarations ++ (record d { signature = java_declaration_signature d } ∷ []);
}

abbrev pub dot : Bytes → Bytes → Bytes
dot front name = front ++ (codes "." ++ name)

-- The ends of an occurrence, if there is one.
abbrev pub start_of : Option (ℕ × ℕ) → ℕ → ℕ
start_of none other = other
start_of (some at) other = at.0

abbrev pub end_of : Option (ℕ × ℕ) → ℕ → ℕ
end_of none other = other
end_of (some at) other = at.1

module _ (u : Unicode) (class : Class) (rendered : Bytes) where
  -- `recordComponentOffset`, of the class that is spelled `owner`.
  unfoldable pub record_component_offset : Bytes → Bytes → ℕ → ℕ × ℕ
  record_component_offset owner name fallback =
      let otherwise : ℕ × ℕ = (fallback, fallback + length owner) in
      elim (find_rendered_identifier rendered owner 0) [
        | none ↦ otherwise
        | some at ↦
            elim (find_rendered_identifier rendered (source_java_identifier u name)
              (at.0 + length owner)) [ none ↦ otherwise | some component ↦ component ]
      ]

  -- What the declaration of the class itself has, its supertypes and its type parameters.
  unfoldable pub describe_class : JavaDeclaration → JavaDeclaration
  describe_class d =
      let types = supertypes_of u class in
      let generics = split_java_type_parameters types.type_parameters in
      let interfaces =
        if has class.access acc_annotation
        then without_annotation types.interfaces
        else types.interfaces in
      record d {
        kind = java_declaration_class_kind class;
        type_parameters = generics.0;
        type_parameter_bounds = generics.1;
        supertypes =
            (if extends_class u class types.supertype then types.supertype ∷ [] else [])
            ++ interfaces;
        deprecated = class.deprecated;
      }

  -- A round of the loop over the nested classes: a class, its access word, and whether it is the last.
  unfoldable pub declare_class : Bytes → Bytes → ℕ → Bool → DeclarationWalk → DeclarationWalk
  declare_class package_name name inner last walk =
      let fqn =
        if not (same walk.container [])
        then dot walk.container name
        else if not (same package_name [])
        then dot package_name name
        else name in
      let access = if last then bit_or inner class.access else inner in
      let found = find_rendered_identifier rendered name walk.cursor in
      let offset = start_of found walk.owner_offset in
      let stop = end_of found (walk.owner_offset + length name) in
      let plain = blank (codes "class") in
      let described = if last then describe_class plain else plain in
      append_declaration
        (record described {
          name = name;
          jvm_name = name;
          fqn = fqn;
          container_fqn = walk.container;
          modifiers = java_modifier_words access true;
          name_start = offset;
          name_end = stop;
        })
        (record walk { container = fqn; cursor = end_of found walk.cursor; owner_offset = offset })

  unfoldable pub declare_classes : Bytes → List Bytes → List ℕ → DeclarationWalk → DeclarationWalk
  declare_classes package_name [] access walk = walk
  declare_classes package_name (name ∷ names) access walk =
      let last = length names == 0 in
      declare_classes package_name names (drop 1 access)
        (declare_class package_name name (get_or access 0 0) last walk)

  -- A round of the loop over the fields.
  unfoldable pub declare_field : Bytes → Field → DeclarationWalk → DeclarationWalk
  declare_field owner field walk =
      let name = source_java_identifier u field.name in
      let implied =
        class.is_record && record_component class.components field.name field.descriptor in
      let found = if implied then none else find_rendered_identifier rendered name walk.cursor in
      let place : ℕ × ℕ = elim found [
        | none ↦ record_component_offset owner field.name walk.owner_offset
        | some at ↦ at
      ] in
      if has field.access acc_synthetic
      then walk
      else append_declaration
          (record (blank
            (if has field.access acc_enum then codes "enumMember" else codes "field")) {
              name = name;
              jvm_name = field.name;
              jvm_descriptor = field.descriptor;
              fqn = dot walk.container name;
              container_fqn = walk.container;
              typ = member_type u field.descriptor field.signature;
              initializer = field.constant_value;
              modifiers = java_modifier_words field.access false;
              deprecated = field.deprecated;
              name_start = place.0;
              name_end = place.1;
            })
          (record walk { cursor = end_of found walk.cursor })
