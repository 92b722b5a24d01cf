-- ===== src/Text/Edit.antt =====
-- internal/text/document.go: one replacement, as seen by the line index and by Tree-sitter.
use kotlsp.Prelude.{
  ℕ, suc, ◌+◌, ◌-◌, Bool, true, false, ◌||◌, List, [], ◌∷◌, ◌++◌, Bytes, ltb, ◌==◌, if◌then◌else◌,
  length, take, drop, map,
}
use kotlsp.Text.Document.{Document, newline, max_dense_line_starts, strings_count_byte}
use kotlsp.Text.Lookup.{first_after}

-- `TextEdit`
pub record TextEdit : Type 0 where
  pub start_byte : ℕ
  pub old_end_byte : ℕ
  pub new_end_byte : ℕ
  pub start_line : ℕ
  pub start_column : ℕ
  pub old_end_line : ℕ
  pub old_end_column : ℕ
  pub new_end_line : ℕ
  pub new_end_column : ℕ

-- The loop of `replacementEndPoint`: the line reached, and the last line start.
unfoldable pub end_point_loop : Bytes → ℕ → ℕ → ℕ → ℕ × ℕ
end_point_loop [] index line last = (line, last)
end_point_loop (b ∷ bs) index line last =
    let found = b == newline in
    end_point_loop bs (index + 1) (if found then suc line else line)
      (if found then index + 1 else last)

-- `replacementEndPoint`
unfoldable pub replacement_end_point : ℕ → ℕ → Bytes → ℕ × ℕ
replacement_end_point start_line start_column replacement =
    let (line, last_line_start) = end_point_loop replacement 0 start_line 0 in
    if line == start_line
    then (line, start_column + length replacement)
    else (line, length replacement - last_line_start)

-- `for index ... if replacement[index] == '\n' { lines = append(lines, start+index+1) }`
unfoldable pub added_starts : ℕ → Bytes → List ℕ
added_starts start [] = []
added_starts start (b ∷ bs) =
    let rest = added_starts (start + 1) bs in if b == newline then (start + 1) ∷ rest else rest

-- `removeTo`, the first line start behind `end`.
abbrev pub remove_to : List ℕ → ℕ → ℕ → ℕ
remove_to lines start end = if ltb start end then first_after lines end else first_after lines start

-- The new table. A later line start lies behind `end`, so `line + delta` is the sum first and
-- the difference last.
abbrev pub relined : List ℕ → ℕ → ℕ → Bytes → List ℕ
relined lines start end replacement =
    take (first_after lines start) lines
    ++ (added_starts start replacement
        ++ map (λ line. line + length replacement - (end - start))
            (drop (remove_to lines start end) lines))

-- The number of lines behind the replacement.
abbrev pub kept_count : Document → ℕ → ℕ → Bytes → ℕ
kept_count d start end replacement =
    d.line_count
    - (remove_to d.lines start end - first_after d.lines start)
    + strings_count_byte replacement newline

-- `replaceLines`: the document with its new table, and whether the table has to be built anew.
unfoldable pub replace_lines : Document → ℕ → ℕ → Bytes → Document × Bool
replace_lines d start end replacement =
    let lines = relined d.lines start end replacement in
    if d.sparse || ltb max_dense_line_starts (kept_count d start end replacement)
    then (d, true)
    else (record d { lines = lines; line_count = length lines }, false)
