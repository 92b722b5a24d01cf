-- ===== src/ClassFile/Declarations/Methods.antt =====
-- internal/classfile/classfile.go: `JavaDeclarations`, its methods and the whole.
use kotlsp.Prelude.{
  ℕ, suc, ◌+◌, ◌-◌, false, List, [], ◌∷◌, map, Option, none, some, Bytes, codes, same,
  if◌then◌else◌, length, get_or,
}
use kotlsp.ClassFile.Class.{Class, Method}
use kotlsp.ClassFile.Declarations.Types.{JavaDeclaration, JavaParameter}
use kotlsp.ClassFile.Generics.{split_java_type_parameters}
use kotlsp.ClassFile.Identifier.{source_java_identifier, source_java_qualified_name}
use kotlsp.ClassFile.Members.{
  is_constructor, is_hidden, is_implied, is_variadic, MethodTypes, method_types, parameter_name,
  record_accessor, with_dots,
}
use kotlsp.ClassFile.Modifiers.{java_modifier_words}
use kotlsp.ClassFile.Nesting.{Nesting, class_nesting}
use kotlsp.ClassFile.Occurrence.{find_rendered_identifier}
use kotlsp.Std.Strings.{index_byte}
use kotlsp.Std.Unicode.{Unicode}
use kotlsp.ClassFile.Declarations.{
  DeclarationWalk, blank, append_declaration, dot, end_of, record_component_offset, declare_classes,
  declare_field,
}

module _ (u : Unicode) (class : Class) (rendered : Bytes) where
  -- The parameters of a method from a position on.
  unfoldable pub declare_parameters : Method → ℕ → ℕ → List Bytes → List JavaParameter
  declare_parameters method count index [] = []
  declare_parameters method count index (typ ∷ types) =
      let variadic = is_variadic method count index typ in
      record {
        name = parameter_name u method index;
        typ = with_dots variadic typ;
        variadic = variadic;
      }
      ∷ declare_parameters method count (suc index) types

  -- A method that is declared.
  unfoldable pub declare_method : Bytes → Method → MethodTypes → DeclarationWalk → DeclarationWalk
  declare_method owner method types walk =
      let constructor = is_constructor method in
      let name = if constructor then owner else source_java_identifier u method.name in
      let generics = split_java_type_parameters types.type_parameters in
      let found =
        if is_implied class method
        then none
        else find_rendered_identifier rendered name walk.cursor in
      let place : ℕ × ℕ = elim found [
        | none ↦
            if record_accessor class.components method.name method.descriptor
            then record_component_offset u class rendered owner method.name walk.owner_offset
            else (walk.owner_offset, walk.owner_offset + length owner)
        | some at ↦ at
      ] in
      append_declaration
        (record (blank (if constructor then codes "constructor" else codes "method")) {
          name = name;
          jvm_name = method.name;
          jvm_descriptor = method.descriptor;
          fqn = dot walk.container name;
          container_fqn = walk.container;
          typ = if constructor then [] else types.result;
          parameters = declare_parameters method (length types.parameters) 0 types.parameters;
          type_parameters = generics.0;
          type_parameter_bounds = generics.1;
          modifiers = java_modifier_words method.access false;
          deprecated = method.deprecated;
          name_start = place.0;
          name_end = place.1;
        })
        (record walk { cursor = end_of found walk.cursor })

  -- A round of the loop over the methods.
  unfoldable pub declare_member : Bytes → Method → DeclarationWalk → DeclarationWalk
  declare_member owner method walk =
      if is_hidden class method then walk else elim (method_types u method) [
        | none ↦ walk
        | some types ↦ declare_method owner method types walk
      ]

  declare_all {ℓ} :
      {A : Type ℓ}
      → (A → DeclarationWalk → DeclarationWalk)
      → List A
      → DeclarationWalk
      → DeclarationWalk
  declare_all declare [] walk = walk
  declare_all declare (m ∷ ms) walk = declare_all declare ms (declare m walk)

  -- `JavaDeclarations` of a class and the classes around it.
  unfoldable pub declare_nested : Nesting → List JavaDeclaration
  unfolding declare_all
  declare_nested nesting =
      let package_name = source_java_qualified_name u nesting.package_name in
      let names = map (source_java_identifier u) nesting.names in
      let owner = get_or names (length names - 1) [] in
      let cursor =
        if same package_name []
        then 0
        else elim (index_byte rendered b';') [ none ↦ 0 | some semicolon ↦ semicolon + 1 ] in
      let opened =
        declare_classes u class rendered package_name names nesting.access
          (record { container = []; cursor = cursor; owner_offset = 0; declarations = [] }) in
      (declare_all (declare_member owner) class.methods
        (declare_all (declare_field u class rendered owner) class.fields opened)).declarations

-- `JavaDeclarations`, on the fuel of `classNesting`.
unfoldable pub java_declarations : ℕ → Unicode → Class → Bytes → Option (List JavaDeclaration)
java_declarations fuel u class rendered = elim (class_nesting fuel class) [
  | none ↦ none
  | some nesting ↦ some (declare_nested u class rendered nesting)
]
