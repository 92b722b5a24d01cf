-- ===== src/Text/Lookup.antt =====
-- internal/text/document.go: from an offset to its line, and from a line to its bounds.
use kotlsp.Prelude.{
  ℕ, zero, suc, ◌+◌, ◌-◌, ◌*◌, ◌/◌, Bool, true, false, ◌||◌, List, [], ◌∷◌, Option, none, some,
  Bytes, ℤ, pos, ltb, leb, ◌==◌, if◌then◌else◌, length, get_or, drop,
}
use kotlsp.Prelude.Int.{ltb_ℤ, leb_ℤ, pos_part}
use kotlsp.Std.Search.{search}
use kotlsp.Text.Document.{Document, newline, sparse_line_stride}

-- `for index := start; index < offset; index++`, over the bytes from `index` on.
unfoldable pub scan_lines : Bytes → ℕ → ℕ → ℕ → ℕ → ℕ × ℕ
scan_lines [] index offset line start = (line, start)
scan_lines (b ∷ bs) index offset line start =
    let found = b == newline in
    let rest =
      scan_lines bs (index + 1) offset (if found then suc line else line)
        (if found then index + 1 else start) in
    if ltb index offset then rest else (line, start)

-- `sort.Search(len(d.lines), func(index int) bool { return d.lines[index] > offset })`
unfoldable pub first_after : List ℕ → ℕ → ℕ
first_after lines offset = search (length lines) (λ index. ltb offset (get_or lines index 0))

-- `byteLineAtBytes`. The subtraction stops at 0, which is the source's clamp of -1 to 0.
unfoldable pub byte_line_at_bytes : Document → Bytes → ℕ → ℕ × ℕ
byte_line_at_bytes d content offset =
    let checkpoint = first_after d.lines offset - 1 in
    let start = get_or d.lines checkpoint 0 in
    if d.sparse
    then scan_lines (drop start content) start offset (checkpoint * sparse_line_stride) start
    else (checkpoint, start)

-- `byteLineAtString`: the same body over the document's own text.
unfoldable pub byte_line_at_string : Document → ℕ → ℕ × ℕ
byte_line_at_string d offset = byte_line_at_bytes d d.text offset

-- `bytesIndexByte`, with `none` for its -1.
unfoldable pub bytes_index_byte : Bytes → ℕ → Option ℕ
bytes_index_byte [] target = none
bytes_index_byte (b ∷ bs) target =
    let rest = bytes_index_byte bs target in
    if b == target then some 0 else elim rest [ none ↦ none | some i ↦ some (suc i) ]

-- `stringsIndexByte`: the same loop over a string.
unfoldable pub strings_index_byte : Bytes → ℕ → Option ℕ
strings_index_byte value target = bytes_index_byte value target

-- The loop of `lineBoundsBytes` from a checkpoint, over the number of lines still to pass.
unfoldable pub skip_lines : ℕ → Bytes → ℕ → Option ℕ
skip_lines zero content start = some start
skip_lines (suc n) content start = elim (bytes_index_byte (drop start content) newline) [
  | none ↦ none
  | some relative ↦ skip_lines n content (start + relative + 1)
]

-- What the two line lookups return: `start, end, ok`.
pub record Bounds : Type 0 where
  pub start : ℕ
  pub end : ℕ
  pub ok : Bool

abbrev pub no_bounds : Bounds
no_bounds = record { start = 0; end = 0; ok = false }

unfoldable pub dense_bounds : Document → Bytes → ℕ → Bounds
dense_bounds d content line = record {
  start = get_or d.lines line 0;
  end = if ltb (line + 1) (length d.lines) then get_or d.lines (line + 1) 0 else length content;
  ok = true;
}

unfoldable pub end_of_line : Bytes → ℕ → ℕ
end_of_line content start = elim (bytes_index_byte (drop start content) newline) [
  | none ↦ length content
  | some relative ↦ start + relative + 1
]

unfoldable pub sparse_bounds : Document → Bytes → ℕ → Bounds
sparse_bounds d content line =
    let checkpoint = line / sparse_line_stride in
    if leb (length d.lines) checkpoint
    then no_bounds
    else elim (skip_lines (line - checkpoint * sparse_line_stride) content
        (get_or d.lines checkpoint 0)) [
          | none ↦ no_bounds
          | some start ↦ record { start = start; end = end_of_line content start; ok = true }
        ]

-- `lineBoundsBytes`
unfoldable pub line_bounds_bytes : Document → ℤ → Bytes → Bounds
line_bounds_bytes d line content =
    if ltb_ℤ line (pos 0) || leb_ℤ (pos d.line_count) line
    then no_bounds
    else if d.sparse
    then sparse_bounds d content (pos_part line)
    else dense_bounds d content (pos_part line)

-- `lineBoundsString`: the same body over the document's own text.
unfoldable pub line_bounds_string : Document → ℤ → Bounds
line_bounds_string d line = line_bounds_bytes d line d.text
