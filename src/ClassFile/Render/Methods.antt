-- ===== src/ClassFile/Render/Methods.antt =====
-- internal/classfile/classfile.go: `RenderJava`, its methods and the whole.
use kotlsp.Prelude.{
  ℕ, suc, ◌-◌, false, not, ◌&&◌, ◌||◌, List, [], ◌∷◌, ◌++◌, map, Option, none, some, Bytes, codes,
  same, if◌then◌else◌, length, take, get_or,
}
use kotlsp.ClassFile.Class.{
  Class, Method, has, acc_static, acc_interface, acc_abstract, acc_native, acc_annotation,
}
use kotlsp.ClassFile.Identifier.{source_java_identifier, source_java_qualified_name}
use kotlsp.ClassFile.Members.{
  is_constructor, is_hidden, is_implied, is_variadic, MethodTypes, method_types, parameter_name,
  with_dots,
}
use kotlsp.ClassFile.Modifiers.{default_value, modifiers}
use kotlsp.ClassFile.Nesting.{Nesting, class_nesting}
use kotlsp.Std.Strings.{join, repeat}
use kotlsp.Std.Unicode.{Unicode}
use kotlsp.ClassFile.Render.{
  concat_all, unit_indent, newline, when, prefixed, write_annotations, render_outers, render_ends,
  render_header, render_field,
}

module _ (u : Unicode) where
  -- The parameters of a method from a position on.
  unfoldable pub render_parameters : Method → ℕ → ℕ → List Bytes → List Bytes
  render_parameters method count index [] = []
  render_parameters method count index (typ ∷ types) =
      concat_all (
        prefixed (get_or method.parameter_annotations index [])
        ∷ with_dots (is_variadic method count index typ) typ
        ∷ codes " "
        ∷ parameter_name u method index
        ∷ [])
      ∷ render_parameters method count (suc index) types

  throws_clause : List Bytes → Bytes
  throws_clause [] = []
  throws_clause (t ∷ throws) = codes " throws " ++ join (t ∷ throws) (codes ", ")

  -- What stands behind the parameters of a method: a default, a semicolon or a body.
  unfoldable pub render_body : Class → Method → Bytes → List Bytes → Bytes
  unfolding throws_clause
  render_body class method result throws =
      let is_abstract =
        has class.access acc_interface
        || has class.access acc_annotation
        || has method.access acc_abstract
        || has method.access acc_native in
      if has class.access acc_annotation && not (same method.default_value [])
      then concat_all (codes " default " ∷ method.default_value ∷ codes ";" ∷ newline ∷ [])
      else throws_clause throws
        ++ (if is_abstract && not (has method.access acc_static)
            then codes ";" ++ newline
            else concat_all (
                codes " {"
                ∷ when (not (is_constructor method) && not (same result (codes "void")))
                    (codes " return " ++ (default_value result ++ codes ";"))
                ∷ codes " }"
                ∷ newline
                ∷ []))

  -- A method that is shown.
  unfoldable pub render_method : Class → Bytes → Bytes → Method → MethodTypes → Bytes
  render_method class simple_name indent method types = concat_all (
      when method.deprecated (indent ++ (codes "    @Deprecated" ++ newline))
      ∷ write_annotations method.annotations (indent ++ unit_indent)
      ∷ indent
      ∷ unit_indent
      ∷ modifiers method.access false
      ∷ when (not (same types.type_parameters [])) (types.type_parameters ++ codes " ")
      ∷ (if is_constructor method
          then simple_name
          else types.result ++ (codes " " ++ source_java_identifier u method.name))
      ∷ codes "("
      ∷ join (render_parameters method (length types.parameters) 0 types.parameters) (codes ", ")
      ∷ codes ")"
      ∷ render_body class method types.result types.throws
      ∷ [])

  -- A round of the loop over the methods.
  unfoldable pub render_member : Class → Bytes → Bytes → Method → Bytes
  render_member class simple_name indent method =
      if is_hidden class method || is_implied class method
      then []
      else elim (method_types u method) [
        | none ↦ []
        | some types ↦ render_method class simple_name indent method types
      ]

  -- `RenderJava` of a class and the classes around it.
  unfoldable pub render_nested : Class → Nesting → Bytes
  render_nested class nesting =
      let package_name = source_java_qualified_name u nesting.package_name in
      let names = map (source_java_identifier u) nesting.names in
      let depth = length names - 1 in
      let simple_name = get_or names depth [] in
      let indent = repeat unit_indent depth in
      concat_all (
        when (not (same package_name []))
          (codes "package " ++ (package_name ++ (codes ";" ++ (newline ++ newline))))
        ∷ render_outers 0 (take depth names) nesting.access
        ∷ render_header u class simple_name (get_or nesting.access depth 0) indent
        ∷ concat_all (map (render_field u class indent) class.fields)
        ∷ concat_all (map (render_member class simple_name indent) class.methods)
        ∷ indent
        ∷ codes "}"
        ∷ newline
        ∷ render_ends depth
        ∷ [])

  -- `RenderJava`, on the fuel of `classNesting`.
  unfoldable pub render_java : ℕ → Class → Option Bytes
  render_java fuel class = elim (class_nesting fuel class) [
    | none ↦ none
    | some nesting ↦ some (render_nested class nesting)
  ]
