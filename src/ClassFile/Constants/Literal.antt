-- ===== src/ClassFile/Constants/Literal.antt =====
-- internal/classfile/classfile.go: constants as Java literals.
use kotlsp.Prelude.{
  ℕ, ◌||◌, Bool, false, List, ◌++◌, [], Bytes, codes, same, leb, ◌==◌, if◌then◌else◌, length,
  get_or, ℤ, pos, negsuc,
}
use kotlsp.ClassFile.Constants.{Constant, no_constant, utf8}
use kotlsp.Std.Strconv.{Strconv, format_int}

abbrev is_zero : ℤ → Bool
is_zero (pos n) = n == 0
is_zero (negsuc n) = false

-- `classConstantLiteral`
unfoldable pub class_constant_literal : Strconv → List Constant → ℕ → Bytes → Bytes
class_constant_literal f pool index descriptor =
    let entry = get_or pool index no_constant in
    if index == 0 || leb (length pool) index
    then []
    else if entry.tag == 3
    then if same descriptor (codes "Z")
      then if is_zero entry.integer then codes "false" else codes "true"
      else if same descriptor (codes "C")
      then f.quote_rune entry.integer
      else format_int entry.integer
    else if entry.tag == 4
    then f.format_float entry.floating 32 ++ codes "f"
    else if entry.tag == 5
    then format_int entry.integer ++ codes "L"
    else if entry.tag == 6
    then f.format_float entry.floating 64
    else if entry.tag == 8
    then f.quote (utf8 pool entry.name_index)
    else if entry.tag == 1
    then f.quote entry.text
    else []
