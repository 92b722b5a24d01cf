-- ===== src/ClassFile/Modifiers.antt =====
-- internal/classfile/classfile.go: access words spelled as Java modifiers, and default values.
pub mod Words
use kotlsp.Prelude.{
  ℕ, Bool, not, ◌&&◌, ◌||◌, List, [], ◌∷◌, ◌++◌, Bytes, codes, same, ◌==◌, if◌then◌else◌,
}
use kotlsp.ClassFile.Class.{
  Class, has, acc_public, acc_private, acc_protected, acc_static, acc_final, acc_synchronized,
  acc_volatile, acc_transient, acc_native, acc_interface, acc_abstract, acc_strict, acc_annotation,
  acc_enum,
}
use kotlsp.Std.Strings.{fields, join}

-- The words of a table that are said.
unfoldable pub say_all : List (Bool × Bytes) → List Bytes
say_all [] = []
say_all (w ∷ words) = let rest = say_all words in if w.0 then w.1 ∷ rest else rest

-- The words that `modifiers` appends in turn, with their conditions.
unfoldable pub modifier_table : ℕ → Bool → List (Bool × Bytes)
modifier_table access class =
    let public = has access acc_public in
    let protected = has access acc_protected in
    (public, codes "public")
    ∷ (not public && protected, codes "protected")
    ∷ (not public && not protected && has access acc_private, codes "private")
    ∷ (has access acc_static, codes "static")
    ∷ (
      has access acc_abstract && not (has access acc_interface || has access acc_annotation),
      codes "abstract",
    )
    ∷ (has access acc_final && not (has access acc_enum), codes "final")
    ∷ (has access acc_synchronized && not class, codes "synchronized")
    ∷ (has access acc_native, codes "native")
    ∷ (has access acc_strict, codes "strictfp")
    ∷ (has access acc_transient && not class, codes "transient")
    ∷ (has access acc_volatile && not class, codes "volatile")
    ∷ []

-- `words` of `modifiers`
abbrev pub modifier_list : ℕ → Bool → List Bytes
modifier_list access class = say_all (modifier_table access class)

-- `modifiers`
unfoldable pub modifiers : ℕ → Bool → Bytes
modifiers access class = elim (modifier_list access class) [
  | [] ↦ []
  | w ∷ ws ↦ join (w ∷ ws) (codes " ") ++ codes " "
]

-- `javaModifierWords`
unfoldable pub java_modifier_words : ℕ → Bool → List Bytes
java_modifier_words access class = fields (modifiers access class)

-- `defaultValue`
unfoldable pub default_value : Bytes → Bytes
default_value typ =
    if same typ (codes "boolean")
    then codes "false"
    else if same typ (codes "byte")
        || same typ (codes "char")
        || same typ (codes "double")
        || same typ (codes "float")
        || same typ (codes "int")
        || same typ (codes "long")
        || same typ (codes "short")
    then codes "0"
    else codes "null"

-- `javaDeclarationClassKind`
unfoldable pub java_declaration_class_kind : Class → Bytes
java_declaration_class_kind class =
    if has class.access acc_annotation
    then codes "annotation"
    else if has class.access acc_enum
    then codes "enum"
    else if has class.access acc_interface
    then codes "interface"
    else if class.is_record
    then codes "record"
    else codes "class"
