-- ===== src/Tests/Text.antt =====
-- internal/text/document.go on a document of two lines.
use kotlsp.Prelude.{
  ℕ, ◌≡◌, ◌↔◌, refl, true, false, List, [], ◌∷◌, none, some, ok, Bytes, codes, pos, negsuc, arith,
  if◌then◌else◌,
}
use kotlsp.Std.Search.{search}
use kotlsp.Std.Slice.{Slice, copy}
use kotlsp.Std.Utf8.{decode_rune}
use kotlsp.Text.Apply.Batch.{
  new_document-IsDocument, apply_with_edits_sound, apply_with_edits_complete,
}
use kotlsp.Text.Apply.Spec.{AppliesAll, IsDocument}
use kotlsp.Text.Apply.{
  Change, apply_with_edits, apply_changes, apply_change, replace_between, after_between, edit_of,
  splice, grow, begin, commit, total_text,
}
use kotlsp.Text.Document.{
  Document, new_document, clone, line_starts, strings_count_byte, is_plain_text, reindex_line_bytes,
}
use kotlsp.Text.Edit.{TextEdit, replace_lines, added_starts, replacement_end_point, end_point_loop}
use kotlsp.Text.Lookup.{
  byte_line_at_bytes, first_after, scan_lines, line_bounds_bytes, dense_bounds, line_bounds_string,
}
use kotlsp.Text.Offsets.{offset_general}
use kotlsp.Text.Position.{
  Position, offset, slice_range, strict_offset_bytes, strict_loop, trim_line, byte_point,
}
use kotlsp.Text.Points.{replacement_end_point-byte_point}
use kotlsp.Text.Splice.{Spliced, splice-Spliced}
use kotlsp.Text.Strict.Exact.{strict_offset_bytes_iff}
use kotlsp.Text.Strict.Spec.{IsOffset}
use kotlsp.Text.Table.Bounds.{line_bounds_bytes-LineAt}
use kotlsp.Text.Table.Count.{AtLine, LineAt}
use kotlsp.Text.Table.Lookup.{HasTable, byte_line_at_bytes-AtLine}
use kotlsp.Text.Table.Cut.{IsIndexed}
use kotlsp.Text.Table.Replace.{replaced, replace_lines-IsIndexed}

abbrev text : Bytes
text = codes "ab\ncd"

abbrev at : ℕ → ℕ → Position
at line column = record { line = pos line; character = pos column }

sample : Document
unfolding new_document
sample = new_document (codes "a.kt") (codes "kotlin") (pos 1) text

abbrev middle : Change
middle = record { range = some (record { start = at 0 1; end = at 1 1 }); text = codes "X\nY" }

patched : Document
unfolding new_document
patched = new_document (codes "a.kt") (codes "kotlin") (pos 2) (codes "aX\nYd")

abbrev edits : List TextEdit
edits =
    record {
      start_byte = 1;
      old_end_byte = 4;
      new_end_byte = 4;
      start_line = 0;
      start_column = 1;
      old_end_line = 1;
      old_end_column = 1;
      new_end_line = 1;
      new_end_column = 1;
    }
    ∷ []

run_middle : apply_with_edits sample (pos 2) (middle ∷ []) ≡ ok (patched, edits)
unfolding sample patched apply_with_edits apply_changes apply_change replace_between after_between
    edit_of splice grow copy begin commit total_text clone line_starts strings_count_byte
    is_plain_text replace_lines added_starts replacement_end_point end_point_loop byte_line_at_bytes
    first_after search line_bounds_bytes dense_bounds strict_offset_bytes strict_loop trim_line
    byte_point decode_rune
run_middle = refl

sample-IsDocument : IsDocument sample
unfolding sample
sample-IsDocument = new_document-IsDocument (codes "a.kt") (codes "kotlin") (pos 1) text

apply_with_edits_sound_example :
    AppliesAll sample.text (middle ∷ []) patched.text
    × (patched ≡ new_document sample.uri sample.language_id (pos 2) patched.text)
apply_with_edits_sound_example =
    apply_with_edits_sound sample patched (pos 2) (middle ∷ []) edits sample-IsDocument run_middle

apply_with_edits_complete_example :
    (es : List TextEdit) × (apply_with_edits sample (pos 2) (middle ∷ [])
      ≡ ok (new_document sample.uri sample.language_id (pos 2) (codes "aX\nYd"), es))
unfolding patched
apply_with_edits_complete_example =
    apply_with_edits_complete sample (pos 2) (middle ∷ []) (codes "aX\nYd") sample-IsDocument
      (unfold sample in refl) (unfold sample in omega arith) (omega arith) (omega arith)
      apply_with_edits_sound_example.0

replace_lines-IsIndexed_example :
    let out = replace_lines sample 1 4 (codes "X\nY") in
    let new = replaced sample.text 1 4 (codes "X\nY") in
    IsIndexed new (if out.1 then reindex_line_bytes out.0 new else out.0)
replace_lines-IsIndexed_example =
    replace_lines-IsIndexed sample sample.text 1 4 (codes "X\nY") sample-IsDocument.indexed
      (omega arith) (unfold sample in omega arith)

-- A face takes two UTF-16 units and four bytes.
abbrev face : Bytes
face = b'a' ∷ 0xf0 ∷ 0x9f ∷ 0x98 ∷ 0x80 ∷ codes "b\r\n"

faces : Document
unfolding new_document
faces = new_document (codes "a.kt") (codes "kotlin") (pos 1) face

behind_face : strict_offset_bytes faces face (at 0 3) ≡ some 5
unfolding faces strict_offset_bytes strict_loop trim_line line_bounds_bytes dense_bounds decode_rune
    line_starts strings_count_byte
behind_face = refl

inside_face : strict_offset_bytes faces face (at 0 2) ≡ none
unfolding faces strict_offset_bytes strict_loop trim_line line_bounds_bytes dense_bounds decode_rune
    line_starts strings_count_byte
inside_face = refl

strict_offset_bytes_iff_example :
    (strict_offset_bytes faces face (at 0 3) ≡ some 5) ↔ IsOffset face (at 0 3) 5
unfolding faces
strict_offset_bytes_iff_example =
    strict_offset_bytes_iff faces face (at 0 3) 5
      (new_document-IsDocument (codes "a.kt") (codes "kotlin") (pos 1) face).indexed.table

abbrev buffer : Slice
buffer = record { cells = codes "ab\ncd??"; len = 5 }

splice-Spliced_example : Spliced buffer (splice buffer 1 4 (codes "wxyz")) 1 4 (codes "wxyz")
splice-Spliced_example =
    splice-Spliced buffer 1 4 (codes "wxyz") (omega arith) (omega arith) (omega arith)

replacement_end_point-byte_point_example :
    let (line, column) = byte_point sample sample.text 1 in
    replacement_end_point line column (codes "X\nY")
    ≡ byte_point patched (replaced sample.text 1 4 (codes "X\nY")) 4
unfolding sample patched
replacement_end_point-byte_point_example =
    replacement_end_point-byte_point sample patched sample.text 1 4 (codes "X\nY")
      sample-IsDocument.indexed.table
      (new_document-IsDocument (codes "a.kt") (codes "kotlin") (pos 2)
        (codes "aX\nYd")).indexed.table
      (omega arith) (omega arith)

-- A sparse table of a short text: only its first line is kept.
abbrev thin : Document
thin = record {
  uri = [];
  language_id = [];
  version = pos 1;
  text = codes "a\nb\nc";
  lines = 0 ∷ [];
  sparse = true;
  line_count = 3;
  plain = true;
}

thin-HasTable : HasTable (codes "a\nb\nc") thin
unfolding line_starts strings_count_byte
thin-HasTable = record { tabulated = refl; counted = refl }

byte_line_at_bytes-AtLine_example : AtLine (codes "a\nb\nc") 3 1 2
unfolding byte_line_at_bytes first_after search scan_lines
byte_line_at_bytes-AtLine_example =
    byte_line_at_bytes-AtLine thin (codes "a\nb\nc") 3 thin-HasTable (omega arith)

line_bounds_bytes-LineAt_example :
    let b = line_bounds_bytes thin (pos 1) (codes "a\nb\nc") in
    (b.ok ≡ true) × LineAt (codes "a\nb\nc") 1 b.start b.end
line_bounds_bytes-LineAt_example =
    line_bounds_bytes-LineAt thin (codes "a\nb\nc") 1 thin-HasTable (omega arith)

abbrev ascii_document : Document
ascii_document = record {
  uri = [];
  language_id = [];
  version = pos 1;
  text = codes "ab\ncd";
  lines = 0 ∷ 3 ∷ [];
  sparse = false;
  line_count = 2;
  plain = true;
}

offset_general_example : offset sample (at 1 7) ≡ offset (record sample { plain = false }) (at 1 7)
offset_general_example =
    offset_general sample (at 1 7) sample-IsDocument (unfold sample in omega arith)

-- A column near 2 ^ 63 wraps around: the offset is negative, and `Slice` panics.
wrapped : offset ascii_document (at 1 9_223_372_036_854_775_807) ≡ negsuc 9_223_372_036_854_775_805
unfolding offset line_bounds_string line_bounds_bytes dense_bounds
wrapped = refl

out_of_bounds :
    slice_range ascii_document (record { start = at 1 0; end = at 1 9_223_372_036_854_775_807 })
    ≡ none
unfolding slice_range offset line_bounds_string line_bounds_bytes dense_bounds
out_of_bounds = refl
