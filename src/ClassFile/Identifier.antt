-- ===== src/ClassFile/Identifier.antt =====
-- internal/classfile/classfile.go: JVM names spelled as Java identifiers, and back.
pub mod Injective
pub mod Restore
use kotlsp.Prelude.{
  ℕ, zero, suc, ◌+◌, ◌*◌, ◌/◌, ◌%◌, Bool, true, false, not, ◌&&◌, ◌||◌, List, [], ◌∷◌, ◌++◌, Option,
  none, some, Bytes, codes, same, ◌==◌, if◌then◌else◌, length, take, drop, map,
}
use kotlsp.Std.Hex.{encode_to_string, decode_string, hex_run}
use kotlsp.Std.Strings.{has_prefix, index, split, join, replace_byte}
use kotlsp.Std.Unicode.{Unicode}
use kotlsp.Std.Utf8.{decode_rune}

-- `javaKeywords`
abbrev pub java_keywords : List Bytes
java_keywords =
    codes "abstract"
    ∷ codes "assert"
    ∷ codes "boolean"
    ∷ codes "break"
    ∷ codes "byte"
    ∷ codes "case"
    ∷ codes "catch"
    ∷ codes "char"
    ∷ codes "class"
    ∷ codes "const"
    ∷ codes "continue"
    ∷ codes "default"
    ∷ codes "do"
    ∷ codes "double"
    ∷ codes "else"
    ∷ codes "enum"
    ∷ codes "extends"
    ∷ codes "final"
    ∷ codes "finally"
    ∷ codes "float"
    ∷ codes "for"
    ∷ codes "goto"
    ∷ codes "if"
    ∷ codes "implements"
    ∷ codes "import"
    ∷ codes "instanceof"
    ∷ codes "int"
    ∷ codes "interface"
    ∷ codes "long"
    ∷ codes "native"
    ∷ codes "new"
    ∷ codes "package"
    ∷ codes "private"
    ∷ codes "protected"
    ∷ codes "public"
    ∷ codes "return"
    ∷ codes "short"
    ∷ codes "static"
    ∷ codes "strictfp"
    ∷ codes "super"
    ∷ codes "switch"
    ∷ codes "synchronized"
    ∷ codes "this"
    ∷ codes "throw"
    ∷ codes "throws"
    ∷ codes "transient"
    ∷ codes "try"
    ∷ codes "void"
    ∷ codes "volatile"
    ∷ codes "while"
    ∷ codes "true"
    ∷ codes "false"
    ∷ codes "null"
    ∷ codes "_"
    ∷ codes "exports"
    ∷ codes "module"
    ∷ codes "non-sealed"
    ∷ codes "open"
    ∷ codes "opens"
    ∷ codes "permits"
    ∷ codes "provides"
    ∷ codes "record"
    ∷ codes "requires"
    ∷ codes "sealed"
    ∷ codes "to"
    ∷ codes "transitive"
    ∷ codes "uses"
    ∷ codes "var"
    ∷ codes "when"
    ∷ codes "with"
    ∷ codes "yield"
    ∷ []

-- A lookup in a map of names to true.
unfoldable pub member : Bytes → List Bytes → Bool
member s [] = false
member s (t ∷ ts) = same s t || member s ts

abbrev pub kotlsp_prefix : Bytes
kotlsp_prefix = codes "$kotlsp$"

-- A rune of an identifier; the first may be no digit.
abbrev pub java_rune : Unicode → Bool → ℕ → Bool
java_rune u first r = r == 0x5f || r == 0x24 || u.is_letter r || (not first && u.is_digit r)

-- `for index, r := range name`, on fuel: a round for each byte is enough.
unfoldable pub java_runes : Unicode → ℕ → Bool → Bytes → Bool
java_runes u zero first name = true
java_runes u (suc fuel) first [] = true
java_runes u (suc fuel) first (b ∷ bs) =
    let (r, n) = decode_rune (b ∷ bs) in
    let later = java_runes u fuel false (drop n (b ∷ bs)) in java_rune u first r && later

-- `validJavaIdentifier`
unfoldable pub valid_java_identifier : Unicode → Bytes → Bool
valid_java_identifier u name =
    if same name [] || member name java_keywords || has_prefix name kotlsp_prefix
    then false
    else java_runes u (length name) true name

-- `SourceJavaIdentifier`
unfoldable pub source_java_identifier : Unicode → Bytes → Bytes
source_java_identifier u name =
    if valid_java_identifier u name then name else kotlsp_prefix ++ encode_to_string name

-- `sourceJavaQualifiedName`
unfoldable pub source_java_qualified_name : Unicode → Bytes → Bytes
source_java_qualified_name u name =
    if same name [] then [] else join (map (source_java_identifier u) (split name 0x2e)) (codes ".")

-- `javaClassName`
unfoldable pub java_class_name : Unicode → Bytes → Bytes
java_class_name u internal =
    source_java_qualified_name u (replace_byte (replace_byte internal 0x2f 0x2e) 0x24 0x2e)

-- The loop of `RestoreSourceJavaIdentifiers` over the text behind what is restored, on fuel: a
-- round passes over a prefix at least.
unfoldable pub restore_loop : ℕ → Bytes → Bytes
restore_loop zero value = value
restore_loop (suc fuel) value = elim (index value kotlsp_prefix) [
  | none ↦ value
  | some at ↦
      let behind = drop (at + 8) value in
      let digits = hex_run behind in
      let kept = digits == 0 || not (digits % 2 == 0) in
      take at value
      ++ ((if kept then kotlsp_prefix else decode_string (take digits behind))
          ++ restore_loop fuel (if kept then behind else drop digits behind))
]

-- `RestoreSourceJavaIdentifiers`
unfoldable pub restore_source_java_identifiers : Bytes → Bytes
restore_source_java_identifiers value = restore_loop (length value) value
