-- ===== src/Text/Apply.antt =====
-- internal/text/document.go: `ApplyWithEdits`, a batch of changes on one byte buffer.
pub mod Spec
pub mod Step
pub mod Batch
use kotlsp.Prelude.{
  ℕ, suc, ◌+◌, ◌-◌, ◌*◌, ◌^◌, Bool, true, false, not, ◌||◌, List, [], ◌∷◌, ◌++◌, Option, none, some,
  Bytes, ℤ, Outcome, ok, fail_if, or_fail, ◌>>=◌, ◌>>◌, ltb, leb, ◌==◌, if◌then◌else◌, length, take,
  drop,
}
use kotlsp.Prelude.Int.{leb_ℤ}
use kotlsp.Std.Slice.{Slice, cap, shown, make, reslice, copy}
use kotlsp.Text.Document.{Document, clone, reindex_line_bytes, is_plain_text}
use kotlsp.Text.Edit.{TextEdit, replacement_end_point, replace_lines}
use kotlsp.Text.Position.{Range, strict_offset_bytes, byte_point}

abbrev pub max_document_bytes : ℕ
max_document_bytes = 67_108_864

abbrev pub max_changes : ℕ
max_changes = 100_000

-- `TextDocumentContentChangeEvent`; its range length is never read.
pub record Change : Type 0 where
  pub range : Option Range
  pub text : Bytes

pub data Error : Type 0 where
  version_did_not_increase : Error
  over_limit : Error
  replacements_over_limit : Error
  replacement_over_limit : Error
  invalid_range : Error
  edited_over_limit : Error

-- The total of the replacements. `max_document_bytes - extra` is never negative in the source,
-- so its comparison is this one.
unfoldable pub total_text : List Change → ℕ → Outcome Error ℕ
total_text [] extra = ok extra
total_text (c ∷ cs) extra = do
  fail_if (ltb max_document_bytes (extra + length c.text)) replacements_over_limit
  total_text cs (extra + length c.text)

-- What the loop over the changes carries.
pub record Session : Type 0 where
  pub updated : Document
  pub content : Slice
  pub edits : List TextEdit

-- `grown := make([]byte, oldLength, newLength); copy(grown, content)`
unfoldable pub grow : Slice → ℕ → Slice
grow content new_length =
    if ltb (cap content) new_length
    then copy (make content.len new_length) 0 content.len (shown content)
    else content

-- The bytes behind `end` are moved first; the slice is cut after the move when it shrinks.
unfoldable pub splice : Slice → ℕ → ℕ → Bytes → Slice
splice content start end text =
    let old_length = content.len in
    let new_length = old_length - (end - start) + length text in
    let room = grow content new_length in
    let tail = drop end (take old_length room.cells) in
    let moved =
      if leb old_length new_length
      then copy (reslice room new_length) (start + length text) new_length tail
      else reslice (copy room (start + length text) old_length tail) new_length in
    copy moved start (start + length text) text

-- `content = append(content[:0], text...)`. Where the array is too small a new one is made, at
-- least as long as the text; the cells behind the text are never shown.
unfoldable pub overwrite : Slice → Bytes → Slice
overwrite content text =
    if ltb (cap content) (length text)
    then record { cells = text; len = length text }
    else copy (reslice content (length text)) 0 (length text) text

-- The branch `change.Range == nil`, behind its guard.
unfoldable pub after_whole : Session → Bytes → Session
after_whole s text =
    let (old_line, old_column) = byte_point s.updated (shown s.content) s.content.len in
    let (new_line, new_column) = replacement_end_point 0 0 text in
    let content = overwrite s.content text in
    record {
      updated = reindex_line_bytes s.updated (shown content);
      content = content;
      edits =
          s.edits
          ++ (record {
            start_byte = 0;
            old_end_byte = s.content.len;
            new_end_byte = length text;
            start_line = 0;
            start_column = 0;
            old_end_line = old_line;
            old_end_column = old_column;
            new_end_line = new_line;
            new_end_column = new_column;
          }
              ∷ []);
    }

unfoldable pub replace_all : Session → Bytes → Outcome Error Session
replace_all s text = do
  fail_if (ltb max_document_bytes (length text)) replacement_over_limit
  ok (after_whole s text)

-- The `TextEdit` of a replacement between two offsets.
unfoldable pub edit_of : Document → Bytes → ℕ → ℕ → Bytes → TextEdit
edit_of d content start end text =
    let (start_line, start_column) = byte_point d content start in
    let (old_line, old_column) = byte_point d content end in
    let (new_line, new_column) = replacement_end_point start_line start_column text in
    record {
      start_byte = start;
      old_end_byte = end;
      new_end_byte = start + length text;
      start_line = start_line;
      start_column = start_column;
      old_end_line = old_line;
      old_end_column = old_column;
      new_end_line = new_line;
      new_end_column = new_column;
    }

-- The rest of the loop's body, behind its guards.
unfoldable pub after_between : Session → ℕ → ℕ → Bytes → Session
after_between s start end text =
    let out = replace_lines s.updated start end text in
    let content = splice s.content start end text in
    record {
      updated = if out.1 then reindex_line_bytes out.0 (shown content) else out.0;
      content = content;
      edits = s.edits ++ (edit_of s.updated (shown s.content) start end text ∷ []);
    }

unfoldable pub replace_between : Session → ℕ → ℕ → Bytes → Outcome Error Session
replace_between s start end text = do
  fail_if (ltb end start) invalid_range
  fail_if (ltb max_document_bytes (s.content.len - (end - start) + length text)) edited_over_limit
  ok (after_between s start end text)

-- One round of the loop.
unfoldable pub apply_change : Session → Change → Outcome Error Session
apply_change s c = elim c.range [
  | none ↦ replace_all s c.text
  | some r ↦
      or_fail invalid_range (strict_offset_bytes s.updated (shown s.content) r.start) >>= λ start.
      or_fail invalid_range (strict_offset_bytes s.updated (shown s.content) r.end) >>= λ end.
      replace_between s start end c.text
]

unfoldable pub apply_changes : Session → List Change → Outcome Error Session
apply_changes s [] = ok s
apply_changes s (c ∷ cs) = do t ← apply_change s c; apply_changes t cs

-- Lines 160 to 178: the clone and its buffer, with room for all replacements up to the limit.
unfoldable pub begin : Document → ℕ → Session
begin d extra =
    let updated = clone d in
    let wanted = length updated.text + extra in
    let capacity = if ltb max_document_bytes wanted then max_document_bytes else wanted in
    record {
      updated = updated;
      content = copy (make (length updated.text) capacity) 0 (length updated.text) updated.text;
      edits = [];
    }

-- Lines 227 to 231. The result replaces `*d`.
unfoldable pub commit : ℤ → Session → Document × List TextEdit
commit version s =
    let text = shown s.content in
    (record s.updated { text = text; plain = is_plain_text text; version = version }, s.edits)

-- `ApplyWithEdits`: the document that takes the place of `d`, and the edits.
unfoldable pub apply_with_edits :
    Document → ℤ → List Change → Outcome Error (Document × List TextEdit)
apply_with_edits d version changes = do
  fail_if (leb_ℤ version d.version) version_did_not_increase
  fail_if (ltb max_document_bytes (length d.text) || ltb max_changes (length changes)) over_limit
  extra ← total_text changes 0
  s ← apply_changes (begin d extra) changes
  ok (commit version s)

-- `Apply`
unfoldable pub apply : Document → ℤ → List Change → Outcome Error Document
apply d version changes = do r ← apply_with_edits d version changes; ok r.0
