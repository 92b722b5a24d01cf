-- ===== src/ClassFile/Rows.antt =====
-- internal/classfile/classfile.go: the tables in the payloads of attributes. Each is a count and
-- rows of a fixed width; a table ends at the count, or where no whole row is left.
pub mod Lines
use kotlsp.Prelude.{
  ℕ, zero, suc, ◌+◌, ◌*◌, Bool, true, false, ◌||◌, List, [], ◌∷◌, Option, none, some, Bytes, ◌==◌,
  if◌then◌else◌,
}
use kotlsp.ClassFile.Class.{LocalVariableName}

-- `binary.BigEndian.Uint16` of two bytes
abbrev pub pair : ℕ → ℕ → ℕ
pair a b = a * 256 + b

-- An index, if the payload has the two bytes.
unfoldable pub first_index : Bytes → Option ℕ
first_index (a ∷ b ∷ s) = some (pair a b)
first_index _ = none

-- Rows of two bytes, as in Exceptions and NestMembers.
unfoldable pub index_rows : ℕ → Bytes → List ℕ
index_rows (suc count) (a ∷ b ∷ s) = pair a b ∷ index_rows count s
index_rows _ _ = []

unfoldable pub indexes : Bytes → List ℕ
indexes (a ∷ b ∷ s) = index_rows (pair a b) s
indexes _ = []

-- Rows of four bytes: the first index of each, as in MethodParameters.
unfoldable pub parameter_rows : ℕ → Bytes → List ℕ
parameter_rows (suc count) (a ∷ b ∷ c ∷ d ∷ s) = pair a b ∷ parameter_rows count s
parameter_rows _ _ = []

unfoldable pub parameters : Bytes → List ℕ
parameters [] = []
parameters (count ∷ s) = parameter_rows count s

-- `seen[line]`
unfoldable pub seen_line : ℕ → List ℕ → Bool
seen_line n [] = false
seen_line n (m ∷ ms) = (n == m) || seen_line n ms

-- The rows of LineNumberTable: each line that is not 0, where it is first seen.
unfoldable pub line_rows : List ℕ → ℕ → Bytes → List ℕ
line_rows seen (suc count) (a ∷ b ∷ c ∷ d ∷ s) =
    let line = pair c d in
    elim (line == 0 || seen_line line seen) [
      | true ↦ line_rows seen count s
      | false ↦ line ∷ line_rows (line ∷ seen) count s
    ]
line_rows seen _ _ = []

unfoldable pub line_numbers : Bytes → List ℕ
line_numbers (a ∷ b ∷ s) = line_rows [] (pair a b) s
line_numbers _ = []

-- The rows of LocalVariableTable.
unfoldable pub local_rows : (ℕ → Bytes) → ℕ → Bytes → List LocalVariableName
local_rows utf8 (suc count) (a ∷ b ∷ _ ∷ _ ∷ c ∷ d ∷ _ ∷ _ ∷ e ∷ f ∷ s) =
    record { start_pc = pair a b; slot = pair e f; name = utf8 (pair c d) }
    ∷ local_rows utf8 count s
local_rows utf8 _ _ = []

unfoldable pub local_names : (ℕ → Bytes) → Bytes → List LocalVariableName
local_names utf8 (a ∷ b ∷ s) = local_rows utf8 (pair a b) s
local_names utf8 _ = []
