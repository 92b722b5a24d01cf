-- ===== src/Text/Document.antt =====
-- internal/text/document.go: the document, and how its line index is built from its bytes.
use kotlsp.Prelude.{
  ℕ, suc, ◌+◌, ◌%◌, Bool, true, false, not, ◌&&◌, ◌||◌, List, [], ◌∷◌, Bytes, ℤ, ltb, leb, ◌==◌,
  if◌then◌else◌,
}

-- A rune or byte at which a line ends.
abbrev pub newline : ℕ
newline = b'\n'

abbrev pub carriage_return : ℕ
carriage_return = b'\r'

-- Above this many lines only every 256th line start is kept.
abbrev pub max_dense_line_starts : ℕ
max_dense_line_starts = 1_000_000

abbrev pub sparse_line_stride : ℕ
sparse_line_stride = 256

-- `Document`. A URI and a language id are opaque byte strings.
pub record Document : Type 0 where
  pub uri : Bytes
  pub language_id : Bytes
  pub version : ℤ
  pub text : Bytes
  pub lines : List ℕ
  pub sparse : Bool
  pub line_count : ℕ
  pub plain : Bool

-- `isPlainText`
unfoldable pub is_plain_text : Bytes → Bool
is_plain_text [] = true
is_plain_text (b ∷ bs) =
    let rest = is_plain_text bs in if leb 0x80 b || b == carriage_return then false else rest

-- `stringsCountByte`
unfoldable pub strings_count_byte : Bytes → ℕ → ℕ
strings_count_byte [] target = 0
strings_count_byte (b ∷ bs) target = (if b == target then 1 else 0) + strings_count_byte bs target

-- The loop of `reindexLineBytes` that fills the table: `line` newlines stand before `index`.
unfoldable pub line_starts : Bool → ℕ → ℕ → Bytes → List ℕ
line_starts sparse index line [] = []
line_starts sparse index line (b ∷ bs) =
    let line' = if b == newline then suc line else line in
    let rest = line_starts sparse (index + 1) line' bs in
    if b == newline && (not sparse || line' % sparse_line_stride == 0)
    then (index + 1) ∷ rest
    else rest

-- `reindexLineBytes`
unfoldable pub reindex_line_bytes : Document → Bytes → Document
reindex_line_bytes d content =
    let line_count = 1 + strings_count_byte content newline in
    let sparse = ltb max_dense_line_starts line_count in
    record d {
      lines = 0 ∷ line_starts sparse 0 0 content;
      sparse = sparse;
      line_count = line_count;
    }

-- `reindexLines`
unfoldable pub reindex_lines : Document → Document
unfolding reindex_line_bytes
reindex_lines d = reindex_line_bytes d d.text

-- `NewDocument`
unfoldable pub new_document : Bytes → Bytes → ℤ → Bytes → Document
unfolding reindex_lines
new_document uri language_id version content =
    let d = reindex_lines (record {
      uri = uri;
      language_id = language_id;
      version = version;
      text = content;
      lines = [];
      sparse = false;
      line_count = 0;
      plain = false;
    }) in
    record d { plain = is_plain_text content }

-- `Clone`: the table is copied, so the clone shares no storage with `d`. Values share none here.
unfoldable pub clone : Document → Document
clone d = record {
  uri = d.uri;
  language_id = d.language_id;
  version = d.version;
  text = d.text;
  lines = d.lines;
  sparse = d.sparse;
  line_count = d.line_count;
  plain = d.plain;
}
