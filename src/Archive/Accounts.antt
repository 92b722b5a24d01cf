-- ===== src/Archive/Accounts.antt =====
-- internal/archiveio/read.go: what `countingByteReader` counts.
use kotlsp.Prelude.{
  ◌+◌, ◌≤◌, ◌≡◌, refl, List, [], ◌∷◌, min, ◌==◌, Bytes, length, length-take, length-append, arith,
  Bool-cases, inl, inr,
}
use kotlsp.Archive.{max_archive_compressed_bytes}
use kotlsp.Archive.Reader.{CountingByteReader, RawRead, counting_read, drain}

-- The counts of a reader, behind calls that have given bytes.
pub record Pays (c last : CountingByteReader) (bytes : Bytes) : Type 0 where
  pub kept : last.remaining + last.read ≡ c.remaining + c.read
  pub paid : last.read ≡ c.read + length bytes

abbrev pub IsAffordable : CountingByteReader → Type 0
IsAffordable c = c.remaining + c.read ≤ max_archive_compressed_bytes

pub counting_read-Pays :
    (c : CountingByteReader) (r : RawRead)
    → IsAffordable c
    → Pays c (counting_read c r).reader (counting_read c r).bytes
unfolding counting_read
counting_read-Pays c r h =
    let l = length-take (min r.buffer c.remaining) r.given in
    elim (Bool-cases r.cancelled) [
      | inl q ↦ rw (counting_read, q) (record { kept = refl; paid = omega arith })
      | inr q ↦ elim (Bool-cases (c.remaining == 0)) [
        | inl z ↦ rw (counting_read, q, z) (record { kept = refl; paid = omega arith })
        | inr z ↦ rw (counting_read, q, z) (record { kept = omega arith; paid = omega arith })
      ]
    ]

pub drain-Pays :
    (c : CountingByteReader) (rs : List RawRead)
    → IsAffordable c
    → Pays c (drain c rs).0 (drain c rs).1
unfolding drain
drain-Pays c [] h = record { kept = refl; paid = omega arith }
drain-Pays c (r ∷ rs) h =
    let sent = counting_read c r in
    let p = counting_read-Pays c r h in
    let k = p.kept in
    let d = p.paid in
    let ih = drain-Pays sent.reader rs (omega arith) in
    let ik = ih.kept in
    let id = ih.paid in
    let l = length-append sent.bytes (drain sent.reader rs).1 in
    record { kept = omega arith; paid = omega arith }
