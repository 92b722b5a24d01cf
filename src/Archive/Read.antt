-- ===== src/Archive/Read.antt =====
-- internal/archiveio/read.go: `ReadContext` and the functions that call it. What is outside of the
-- code is an argument: the raw stream, the decompressor, the context and the checksum.
use kotlsp.Prelude.{
  ℕ, ◌+◌, Bool, true, false, not, ◌&&◌, ◌||◌, List, [], ◌∷◌, Option, none, some, ltb, leb, ◌==◌,
  if◌then◌else◌, Bytes, length, take, ℤ, pos, Outcome, ok, failed, guards, ◌>>◌,
}
use kotlsp.Prelude.Int.{ltb_ℤ, pos_part}
use kotlsp.Archive.{
  add64, sub64, ZipFile, store, is_supported, compression_ratio_exceeds, max_entry_bytes,
  max_entry_compressed_bytes, max_archive_expanded_bytes, max_archive_compressed_bytes,
  max_compression_ratio, Budget, DirectoryError, new_budget,
}
use kotlsp.Archive.Reader.{ReadFailure, eof, CountingByteReader, RawRead, counting_read, drain}

pub data ReadError : Type 0 where
  nil_budget : ReadError
  gate_closed : ReadError
  nil_entry : ReadError
  negative_limit : ReadError
  limit_above_maximum : ReadError
  entry_declares_more : ReadError
  entry_declares_ratio : ReadError
  expansion_spent : ReadError
  input_spent : ReadError
  open_failed : ReadError
  unsupported_method : ReadError
  expansion_passed : ReadError
  cancelled_later : ReadError
  entry_passed : ReadError
  trailing_data : ReadError
  input_differs : ReadError
  actual_ratio : ReadError
  read_failed : ReadError
  close_failed : ReadError
  output_differs : ReadError
  checksum_differs : ReadError
  directory : DirectoryError → ReadError

-- A call, with what comes from outside during it: whether the context is done before the gate is
-- free, whether the entry can be opened, the raw reads of the decompressor and what it makes of
-- them, whether `ReadAll` and `Close` fail, whether the context is done behind them, and the raw
-- read behind the data.
pub record Call : Type 0 where
  pub file : Option ZipFile
  pub limit : ℤ
  pub gate_lost : Bool
  pub opens : Bool
  pub reads : List RawRead
  pub inflated : Bytes
  pub read_fails : Bool
  pub close_fails : Bool
  pub done_after : Bool
  pub trailing : RawRead

-- The refusals before the entry is opened.
abbrev pub refusals : Budget → ZipFile → ℤ → List (Bool × ReadError)
refusals budget file limit =
    (ltb_ℤ limit (pos 0), negative_limit)
    ∷ (ltb_ℤ (pos max_entry_bytes) limit, limit_above_maximum)
    ∷ (ltb (pos_part limit) file.uncompressed, entry_declares_more)
    ∷ (
      compression_ratio_exceeds file.uncompressed file.compressed max_compression_ratio,
      entry_declares_ratio,
    )
    ∷ (leb max_archive_expanded_bytes budget.expanded, expansion_spent)
    ∷ (
      ltb max_entry_compressed_bytes file.compressed
          || leb max_archive_compressed_bytes budget.compressed,
      input_spent,
    )
    ∷ []

-- The function that is deferred, with the count of the compressed bytes.
unfoldable pub settle : Budget → ℕ → Budget
settle budget read =
    if ltb (sub64 max_archive_compressed_bytes budget.compressed) read
    then record budget { compressed = max_archive_compressed_bytes }
    else record budget { compressed = add64 budget.compressed read }

-- The checks behind the trailing read; the last argument is the count of the compressed bytes.
abbrev pub entry_differs : (Bytes → ℕ) → ZipFile → Call → Bytes → ℕ → List (Bool × ReadError)
entry_differs crc32 file call contents read =
    (not (read == file.compressed), input_differs)
    ∷ (compression_ratio_exceeds (length contents) read max_compression_ratio, actual_ratio)
    ∷ (call.read_fails, read_failed)
    ∷ (call.close_fails, close_failed)
    ∷ (not (length contents == file.uncompressed), output_differs)
    ∷ (not (crc32 contents == file.crc), checksum_differs)
    ∷ []

unfoldable pub compare_entry :
    (Bytes → ℕ) → ZipFile → Call → Bytes → CountingByteReader → Outcome ReadError Bytes
compare_entry crc32 file call contents compressed =
    guards (entry_differs crc32 file call contents compressed.read) >> ok contents

abbrev pub is_eof : Option ReadFailure → Bool
is_eof (some eof) = true
is_eof _ = false

-- The trailing read and what follows it, or what follows without it.
unfoldable pub finish_entry :
    (Bytes → ℕ)
    → ZipFile
    → Call
    → ℕ
    → Bytes
    → CountingByteReader
    → CountingByteReader × Outcome ReadError Bytes
finish_entry crc32 file call stream_limit contents compressed =
    let sent = counting_read compressed (record call.trailing { buffer = 1 }) in
    let is_short = leb (length contents) stream_limit && ltb compressed.read file.compressed in
    let is_at_end = (length sent.bytes == 0) && is_eof sent.failure in
    if is_short && is_at_end
    then (sent.reader, compare_entry crc32 file call contents sent.reader)
    else if is_short
    then (sent.reader, failed trailing_data)
    else (compressed, compare_entry crc32 file call contents compressed)

-- What is left of the expansion limit, and the limits of one entry.
abbrev pub remaining_of : Budget → ℕ
remaining_of budget = sub64 max_archive_expanded_bytes budget.expanded

abbrev pub stream_limit_of : Budget → ℕ → ℕ
stream_limit_of budget limit =
    if ltb (remaining_of budget) limit then remaining_of budget else limit

abbrev pub compressed_limit_of : Budget → ℕ
compressed_limit_of budget =
    let left = sub64 max_archive_compressed_bytes budget.compressed in
    if ltb left max_entry_compressed_bytes then left else max_entry_compressed_bytes

-- From `ReadAll` on.
unfoldable pub take_data :
    (Bytes → ℕ)
    → Budget
    → ZipFile
    → Call
    → Bytes
    → CountingByteReader
    → Budget × Outcome ReadError Bytes
take_data crc32 budget file call contents compressed =
    let paid = record budget { expanded = add64 budget.expanded (length contents) } in
    let limit = pos_part call.limit in
    let (after, outcome) =
      finish_entry crc32 file call (stream_limit_of budget limit) contents compressed in
    if ltb (remaining_of budget) (length contents)
    then (
      settle (record budget { expanded = max_archive_expanded_bytes }) compressed.read,
      failed expansion_passed,
    )
    else if call.done_after
    then (settle paid compressed.read, failed cancelled_later)
    else if ltb limit (length contents)
    then (settle paid compressed.read, failed entry_passed)
    else (settle paid after.read, outcome)

-- From `OpenRaw` on: a stored entry is what is read, a deflated one what is made of that.
unfoldable pub read_entry : (Bytes → ℕ) → Budget → ZipFile → Call → Budget × Outcome ReadError Bytes
read_entry crc32 budget file call =
    let (compressed, sent) =
      drain (record { remaining = compressed_limit_of budget; read = 0 }) call.reads in
    let produced = if file.method == store then sent else call.inflated in
    let contents = take (stream_limit_of budget (pos_part call.limit) + 1) produced in
    if not call.opens
    then (budget, failed open_failed)
    else if not (is_supported file.method)
    then (settle budget 0, failed unsupported_method)
    else take_data crc32 budget file call contents compressed

-- `ReadContext` of a budget, behind the gate.
unfoldable pub read_file : (Bytes → ℕ) → Budget → Call → Budget × Outcome ReadError Bytes
read_file crc32 budget call = elim call.file [
  | none ↦ (budget, failed nil_entry)
  | some file ↦ elim (guards (refusals budget file call.limit)) [
    | failed why ↦ (budget, failed why)
    | ok _ ↦ read_entry crc32 budget file call
  ]
]

-- `ReadContext`; a nil budget is `none`.
unfoldable pub read_context :
    (Bytes → ℕ) → Option Budget → Call → Option Budget × Outcome ReadError Bytes
read_context crc32 none call = (none, failed nil_budget)
read_context crc32 (some budget) call =
    let (after, outcome) = read_file crc32 budget call in
    if call.gate_lost then (some budget, failed gate_closed) else (some after, outcome)

-- `ReadZipFileContext`
unfoldable pub read_zip_file : (Bytes → ℕ) → Call → Outcome ReadError Bytes
read_zip_file crc32 call = elim (new_budget (call.file ∷ [])) [
  | failed why ↦ failed (directory why)
  | ok budget ↦ (read_context crc32 (some budget) call).1
]

-- The calls of one archive; the gate lets one at a time through.
unfoldable pub read_all :
    (Bytes → ℕ) → Option Budget → List Call → Option Budget × List (Outcome ReadError Bytes)
read_all crc32 budget [] = (budget, [])
read_all crc32 budget (call ∷ calls) =
    let (after, outcome) = read_context crc32 budget call in
    let (last, outcomes) = read_all crc32 after calls in (last, outcome ∷ outcomes)
