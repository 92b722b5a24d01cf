-- ===== src/Archive/Accepted.antt =====
-- internal/archiveio/read.go: what a read charges to the budget of its archive, and what it returns.
use kotlsp.Prelude.{
  ℕ, ◌+◌, ◌*◌, ◌≤◌, ◌≡◌, refl, ap, subst, false, ◌&&◌, some, ltb, leb, ◌==◌, Bytes, length, arith,
  Outcome, ok, failed, guards, guards_iff, then-eq-ok, ok-injective, Bool-cases, inl, inr,
}
use kotlsp.Prelude.Int.{pos_part}
use kotlsp.Archive.{
  add64, sub64, Budget, ZipFile, is_supported, max_archive_expanded_bytes,
  max_archive_compressed_bytes, max_compression_ratio,
}
use kotlsp.Archive.Ratio.{compression_ratio_exceeds_iff}
use kotlsp.Archive.Reader.{CountingByteReader, counting_read, drain}
use kotlsp.Archive.Accounts.{counting_read-Pays, drain-Pays}
use kotlsp.Archive.Read.{
  ReadError, open_failed, unsupported_method, expansion_passed, cancelled_later, entry_passed,
  trailing_data, Call, refusals, settle, compare_entry, entry_differs, is_eof, finish_entry,
  remaining_of, stream_limit_of, compressed_limit_of, take_data, read_entry, read_file,
}

-- The counters are within the limits of an archive.
pub record IsBounded (b : Budget) : Type 0 where
  pub expansion : b.expanded ≤ max_archive_expanded_bytes
  pub input : b.compressed ≤ max_archive_compressed_bytes

-- What holds of the bytes that a read returns: they are what the entry declares, in length, in
-- checksum and in compressed length, they are within the limits, and they are paid for.
pub record Accepted (crc32 : Bytes → ℕ) (b after : Budget) (file : ZipFile) (limit : ℕ)
    (contents : Bytes) : Type 0 where
  pub declared : length contents ≡ file.uncompressed
  pub checksum : crc32 contents ≡ file.crc
  pub limited : length contents ≤ limit
  pub ratio : length contents ≤ max_compression_ratio * file.compressed
  pub expansion : after.expanded ≡ b.expanded + length contents
  pub input : after.compressed ≡ b.compressed + file.compressed

-- What holds of every read, also of one that fails.
pub record Charges (crc32 : Bytes → ℕ) (b : Budget) (file : ZipFile) (limit : ℕ)
    (r : Budget × Outcome ReadError Bytes) : Type 0 where
  pub bounded : IsBounded r.0
  pub expands : b.expanded ≤ r.0.expanded
  pub feeds : b.compressed ≤ r.0.compressed
  pub accepts : (contents : Bytes) → r.1 ≡ ok contents → Accepted crc32 b r.0 file limit contents

settle_lem :
    (b : Budget) (read : ℕ)
    → b.compressed + read ≤ max_archive_compressed_bytes
    → settle b read ≡ record b { compressed = b.compressed + read }
unfolding settle
settle_lem b read h =
    let n : ltb (sub64 max_archive_compressed_bytes b.compressed) read ≡ false = ground arith in
    let e : add64 b.compressed read ≡ b.compressed + read = omega arith in rw (settle, n, e) refl

module _ (crc32 : Bytes → ℕ) (b : Budget) (bounded : IsBounded b) (file : ZipFile)
    (call : Call) where
  abbrev limit : ℕ
  limit = pos_part call.limit

  -- A read that fails, with some of the budget gone.
  fails :
      (spent read : ℕ) (why : ReadError)
      → b.expanded ≤ spent
      → spent ≤ max_archive_expanded_bytes
      → b.compressed + read ≤ max_archive_compressed_bytes
      → Charges crc32 b file limit (settle (record b { expanded = spent }) read, failed why)
  fails spent read why more fits room =
      let e = settle_lem (record b { expanded = spent }) read room in
      rw e (record {
        bounded = record { expansion = fits; input = room };
        expands = more;
        feeds = omega arith;
        accepts = λ contents h. cc;
      })

  -- An entry that is compared with its declaration.
  compares :
      (contents : Bytes) (reader : CountingByteReader)
      → b.expanded + length contents ≤ max_archive_expanded_bytes
      → length contents ≤ limit
      → b.compressed + reader.read ≤ max_archive_compressed_bytes
      → Charges crc32 b file limit (
        settle (record b { expanded = add64 b.expanded (length contents) }) reader.read,
        compare_entry crc32 file call contents reader,
      )
  unfolding compare_entry
  compares contents reader fits short room =
      let s : add64 b.expanded (length contents) ≡ b.expanded + length contents = omega arith in
      let e = settle_lem (record b { expanded = b.expanded + length contents }) reader.read room in
      rw (s, e)
        (record {
          bounded = record { expansion = fits; input = room };
          expands = omega arith;
          feeds = omega arith;
          accepts = λ other h.
              let checks = entry_differs crc32 file call contents reader.read in
              let (g, r) = then-eq-ok (guards checks) (ok contents) other h in
              let (p, (q, (_, (_, (x, (y, _)))))) = (guards_iff checks).0 g in
              let i =
                compression_ratio_exceeds_iff (length contents) reader.read max_compression_ratio in
              let read : reader.read ≡ file.compressed = ground arith in
              let below : length contents ≤ max_compression_ratio * reader.read =
                ground (arith, i.1) in
              subst
                (λ c.
                  Accepted crc32 b
                    (record b {
                      expanded = b.expanded + length contents;
                      compressed = b.compressed + reader.read;
                    })
                    file limit c)
                (ok-injective r)
                (record {
                  declared = ground arith;
                  checksum = ground arith;
                  limited = short;
                  ratio = subst (λ n. length contents ≤ max_compression_ratio * n) read below;
                  expansion = refl;
                  input = ap (λ n. b.compressed + n) read;
                });
        })

  abbrev paid : Bytes → Budget
  paid contents = record b { expanded = add64 b.expanded (length contents) }

  -- With the trailing read, or without it.
  finishes :
      (stream_limit : ℕ) (contents : Bytes) (reader : CountingByteReader)
      → b.expanded + length contents ≤ max_archive_expanded_bytes
      → length contents ≤ limit
      → b.compressed + reader.remaining + reader.read ≤ max_archive_compressed_bytes
      → Charges crc32 b file limit (
        settle (paid contents) (finish_entry crc32 file call stream_limit contents reader).0.read,
        (finish_entry crc32 file call stream_limit contents reader).1,
      )
  unfolding finish_entry
  finishes stream_limit contents reader fits short room =
      let last = record call.trailing { buffer = 1 } in
      let sent = counting_read reader last in
      let p = counting_read-Pays reader last (omega arith) in
      let k = p.kept in
      let is_short = leb (length contents) stream_limit && ltb reader.read file.compressed in
      let at_end = (length sent.bytes == 0) && is_eof sent.failure in
      let s : add64 b.expanded (length contents) ≡ b.expanded + length contents = omega arith in
      elim (Bool-cases is_short) [
        | inr q ↦ rw (finish_entry, q) (compares contents reader fits short (omega arith))
        | inl q ↦ elim (Bool-cases at_end) [
          | inl z ↦ rw (finish_entry, q, z) (compares contents sent.reader fits short (omega arith))
          | inr z ↦
              rw (finish_entry, q, z, s)
                (fails (b.expanded + length contents) sent.reader.read trailing_data (omega arith)
                  fits (omega arith))
        ]
      ]

  takes :
      (contents : Bytes) (reader : CountingByteReader)
      → b.compressed + reader.remaining + reader.read ≤ max_archive_compressed_bytes
      → Charges crc32 b file limit (take_data crc32 b file call contents reader)
  unfolding take_data finish_entry compare_entry
  takes contents reader room =
      let e = bounded.expansion in
      elim (Bool-cases (ltb (remaining_of b) (length contents))) [
        | inl q ↦
            rw (take_data, q)
              (fails max_archive_expanded_bytes reader.read expansion_passed e (omega arith)
                (omega arith))
        | inr q ↦
            let fits : b.expanded + length contents ≤ max_archive_expanded_bytes = ground arith in
            let s : add64 b.expanded (length contents) ≡ b.expanded + length contents =
              omega arith in
            let failing = λ (why : ReadError).
              fails (b.expanded + length contents) reader.read why (omega arith) fits
                (omega arith) in
            elim (Bool-cases call.done_after) [
              | inl d ↦ rw (take_data, q, d, s) (failing cancelled_later)
              | inr d ↦ elim (Bool-cases (ltb limit (length contents))) [
                | inl l ↦ rw (take_data, q, d, l, s) (failing entry_passed)
                | inr l ↦
                    rw (take_data, q, d, l)
                      (finishes (stream_limit_of b limit) contents reader fits (ground arith) room)
              ]
            ]
      ]

  -- A read that leaves the budget alone.
  leaves : (why : ReadError) → Charges crc32 b file limit (b, failed why)
  leaves why = record {
    bounded = bounded;
    expands = omega arith;
    feeds = omega arith;
    accepts = λ contents h. cc;
  }

  enters : Charges crc32 b file limit (read_entry crc32 b file call)
  unfolding read_entry take_data finish_entry compare_entry
  enters =
      let c = bounded.input in
      let fresh : CountingByteReader = record { remaining = compressed_limit_of b; read = 0 } in
      let start : b.compressed + compressed_limit_of b ≤ max_archive_compressed_bytes =
        ground arith in
      let p = drain-Pays fresh call.reads (omega arith) in
      let k = p.kept in
      elim (Bool-cases call.opens) [
        | inr o ↦ rw (read_entry, o) (leaves open_failed)
        | inl o ↦ elim (Bool-cases (is_supported file.method)) [
          | inr m ↦
              rw (read_entry, o, m)
                (fails b.expanded 0 unsupported_method (omega arith) bounded.expansion
                  (omega arith))
          | inl m ↦ rw (read_entry, o, m) (takes _ (drain fresh call.reads).0 (omega arith))
        ]
      ]

  decides :
      (refusal : Outcome ReadError (Unit {0}))
      → Charges crc32 b file limit
          (elim refusal [ failed why ↦ (b, failed why) | ok _ ↦ read_entry crc32 b file call ])
  decides (failed why) = leaves why
  decides (ok _) = enters

-- A read through a budget within its limits keeps it within them, whatever the archive and the
-- decompressor do, and gives nothing back. Bytes are returned only if they are what the entry declares,
-- in length, checksum and compressed length, and are within the limit of the call and the greatest
-- ratio; then the budget has paid for both lengths.
pub read_file-Charges :
    (crc32 : Bytes → ℕ) (b : Budget) (file : ZipFile) (call : Call)
    → IsBounded b
    → call.file ≡ some file
    → Charges crc32 b file (pos_part call.limit) (read_file crc32 b call)
unfolding read_file
read_file-Charges crc32 b file call bounded e =
    rw (read_file, e) (decides crc32 b bounded file call (guards (refusals b file call.limit)))
