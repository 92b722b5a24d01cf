-- ===== src/Archive/Total.antt =====
-- internal/archiveio/read.go: what all the reads of one archive return together.
use kotlsp.Prelude.{
  ℕ, ◌+◌, ◌≤◌, ◌≡◌, refl, subst, List, [], ◌∷◌, Option, some, Bytes, length, arith, Outcome, ok,
  failed, ok-injective, Bool-cases, Option-cases, inl, inr,
}
use kotlsp.Prelude.Int.{pos_part}
use kotlsp.Archive.{
  Budget, ZipFile, DirectoryError, max_archive_expanded_bytes, new_budget, validate_zip_files,
}
use kotlsp.Archive.Accepted.{IsBounded, Charges, read_file-Charges}
use kotlsp.Archive.Read.{ReadError, Call, read_file, read_context, read_all}

-- The bytes that a read returns.
abbrev pub size : Outcome ReadError Bytes → ℕ
size (failed why) = 0
size (ok contents) = length contents

abbrev pub total_size : List (Outcome ReadError Bytes) → ℕ
total_size [] = 0
total_size (o ∷ os) = size o + total_size os

record Pays (b : Budget) (r : Budget × Outcome ReadError Bytes) : Type 0 where
  bounded : IsBounded r.0
  pays : b.expanded + size r.1 ≤ r.0.expanded

size-Pays :
    (crc32 : Bytes → ℕ) (b after : Budget) (file : ZipFile) (limit : ℕ)
    (o : Outcome ReadError Bytes)
    → Charges crc32 b file limit (after, o)
    → Pays b (after, o)
size-Pays crc32 b after file limit (failed why) c =
    let e = c.expands in record { bounded = c.bounded; pays = omega arith }
size-Pays crc32 b after file limit (ok contents) c =
    let e = (c.accepts contents refl).expansion in
    record { bounded = c.bounded; pays = omega arith }

read_file-Pays :
    (crc32 : Bytes → ℕ) (b : Budget) (call : Call) → IsBounded b → Pays b (read_file crc32 b call)
unfolding read_file
read_file-Pays crc32 b call bounded = elim (Option-cases call.file) [
  | inl e ↦ rw (read_file, e) (record { bounded = bounded; pays = omega arith })
  | inr (file, e) ↦
      size-Pays crc32 b _ file (pos_part call.limit) _
        (read_file-Charges crc32 b file call bounded e)
]

read_all-Pays :
    (crc32 : Bytes → ℕ) (b : Budget) (calls : List Call)
    → IsBounded b
    → (last : Budget) × ((read_all crc32 (some b) calls).0 ≡ some last)
      × IsBounded last
      × (b.expanded + total_size (read_all crc32 (some b) calls).1 ≤ last.expanded)
unfolding read_all read_context
read_all-Pays crc32 b [] bounded = (b, refl, bounded, omega arith)
read_all-Pays crc32 b (call ∷ calls) bounded = elim (Bool-cases call.gate_lost) [
  | inl g ↦
      let (last, e, h, l) = read_all-Pays crc32 b calls bounded in
      simp (read_all, read_context, g) (last, e, h, omega arith)
  | inr g ↦
      let p = read_file-Pays crc32 b call bounded in
      let q = p.pays in
      let (last, e, h, l) = read_all-Pays crc32 (read_file crc32 b call).0 calls p.bounded in
      simp (read_all, read_context, g) (last, e, h, omega arith)
]

new_budget-IsEmpty :
    (files : List (Option ZipFile)) (b : Budget)
    → new_budget files ≡ ok b
    → (b.expanded ≡ 0) × (b.compressed ≡ 0)
unfolding new_budget
new_budget-IsEmpty files b h = decided (validate_zip_files files) h
  where
    decided :
        (o : Outcome DirectoryError (Unit {0}))
        → (elim o as (λ _. Outcome DirectoryError Budget) [
          | failed why ↦ failed why
          | ok _ ↦ ok (record { expanded = 0; compressed = 0 })
        ])
          ≡ ok b
        → (b.expanded ≡ 0) × (b.compressed ≡ 0)
    decided (failed why) k = cc
    decided (ok _) k =
        subst (λ b. (b.expanded ≡ 0) × (b.compressed ≡ 0)) (ok-injective k) (refl, refl)

-- However many entries of one archive are read, in whatever order and with whatever failures, the bytes
-- that are returned are no more than 2 GiB together, and the counters of the budget stay within their
-- limits.
pub read_all-total :
    (crc32 : Bytes → ℕ) (files : List (Option ZipFile)) (b : Budget) (calls : List Call)
    → new_budget files ≡ ok b
    → (total_size (read_all crc32 (some b) calls).1 ≤ max_archive_expanded_bytes)
      × ((last : Budget) × ((read_all crc32 (some b) calls).0 ≡ some last) × IsBounded last)
read_all-total crc32 files b calls h =
    let (e, c) = new_budget-IsEmpty files b h in
    let (last, f, bounded, l) =
      read_all-Pays crc32 b calls (record { expansion = omega arith; input = omega arith }) in
    let m = bounded.expansion in (omega arith, (last, f, bounded))
