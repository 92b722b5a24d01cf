-- ===== src/Archive/Directory.antt =====
-- internal/archiveio/read.go: what `ValidateZipFiles` accepts.
use kotlsp.Prelude.{
  ℕ, ◌+◌, ◌*◌, ◌≤◌, ◌<◌, ◌≡◌, ◌↔◌, refl, ap, ◌∙◌, Bool, true, false, ◌&&◌, List, [], ◌∷◌, Option,
  none, some, arith, ltb, length, ok, guards, ◌>>◌, guards_iff, then-eq-ok, Bool-cases, inl, inr,
}
use kotlsp.Archive.{
  ZipFile, DirectoryError, entries, entry_checks, add64, is_supported, validate_loop,
  validate_zip_files, compression_ratio_exceeds, max_metadata_bytes, max_entry_compressed_bytes,
  max_archive_entries, max_archive_expanded_bytes, max_archive_compressed_bytes,
  max_compression_ratio,
}
use kotlsp.Archive.Ratio.{compression_ratio_exceeds_iff}

-- What an entry may declare.
pub record IsAdmissible (file : ZipFile) : Type 0 where
  pub supported : is_supported file.method ≡ true
  pub entry : file.compressed ≤ max_entry_compressed_bytes
  pub ratio :
      max_metadata_bytes < file.uncompressed
      → file.uncompressed ≤ max_compression_ratio * file.compressed

abbrev pub AreAdmissible : List (Option ZipFile) → Type 0
AreAdmissible [] = Unit
AreAdmissible (none ∷ files) = AreAdmissible files
AreAdmissible (some file ∷ files) = IsAdmissible file × AreAdmissible files

-- The sum of a field over the entries.
abbrev pub total : (ZipFile → ℕ) → List (Option ZipFile) → ℕ
total field [] = 0
total field (none ∷ files) = total field files
total field (some file ∷ files) = field file + total field files

pub record IsWithin (files : List (Option ZipFile)) : Type 0 where
  pub few : length files ≤ max_archive_entries
  pub each : AreAdmissible files
  pub expansion : total (λ f. f.uncompressed) files ≤ max_archive_expanded_bytes
  pub input : total (λ f. f.compressed) files ≤ max_archive_compressed_bytes

record Loop (e c : ℕ) (files : List (Option ZipFile)) : Type 0 where
  each : AreAdmissible files
  expansion : e + total (λ f. f.uncompressed) files ≤ max_archive_expanded_bytes
  input : c + total (λ f. f.compressed) files ≤ max_archive_compressed_bytes

-- The test of the declared ratio.
declared_ratio_iff :
    (file : ZipFile)
    → (max_metadata_bytes < file.uncompressed
        → file.uncompressed ≤ max_compression_ratio * file.compressed)
      ↔ ((ltb max_metadata_bytes file.uncompressed
            && compression_ratio_exceeds file.uncompressed file.compressed max_compression_ratio)
          ≡ false)
declared_ratio_iff file =
    let i = compression_ratio_exceeds_iff file.uncompressed file.compressed max_compression_ratio in
    elim (Bool-cases
      (compression_ratio_exceeds file.uncompressed file.compressed max_compression_ratio)) [
        | inl q ↦ let l = i.0 q in ground arith
        | inr q ↦ ground (arith, i.1)
      ]

validate_loop-Loop :
    (e c : ℕ) (files : List (Option ZipFile))
    → e ≤ max_archive_expanded_bytes
    → c ≤ max_archive_compressed_bytes
    → validate_loop e c files ≡ ok tt
    → Loop e c files
unfolding validate_loop
validate_loop-Loop e c [] he hc h = record {
  each = tt;
  expansion = omega arith;
  input = omega arith;
}
validate_loop-Loop e c (none ∷ files) he hc h =
    let l = validate_loop-Loop e c files he hc h in
    record { each = l.each; expansion = l.expansion; input = l.input }
validate_loop-Loop e c (some file ∷ files) he hc h =
    let (g, rest) = then-eq-ok (guards (entry_checks e c file)) _ tt h in
    let (p, (q, (r, (s, (t, u))))) = (guards_iff (entry_checks e c file)).0 g in
    let fe : e + file.uncompressed ≤ max_archive_expanded_bytes = ground arith in
    let fc : c + file.compressed ≤ max_archive_compressed_bytes = ground arith in
    let ae : add64 e file.uncompressed ≡ e + file.uncompressed = omega arith in
    let ac : add64 c file.compressed ≡ c + file.compressed = omega arith in
    let l =
      validate_loop-Loop (add64 e file.uncompressed) (add64 c file.compressed) files (omega arith)
        (omega arith) rest in
    let le = l.expansion in
    let li = l.input in
    record {
      each = (
        record {
          supported = ground arith;
          entry = ground arith;
          ratio = (declared_ratio_iff file).1 t;
        },
        l.each,
      );
      expansion = omega arith;
      input = omega arith;
    }

Loop-validate_loop :
    (e c : ℕ) (files : List (Option ZipFile)) → Loop e c files → validate_loop e c files ≡ ok tt
unfolding validate_loop
Loop-validate_loop e c [] h = refl
Loop-validate_loop e c (none ∷ files) h =
    Loop-validate_loop e c files
      (record { each = h.each; expansion = h.expansion; input = h.input })
Loop-validate_loop e c (some file ∷ files) h =
    let (a, later) = h.each in
    let p = a.supported in
    let r = a.entry in
    let fe = h.expansion in
    let fc = h.input in
    let g : guards (entry_checks e c file) ≡ ok tt = (guards_iff (entry_checks e c file)).1 (
      ground arith,
      (ground arith, (ground arith, (ground arith, ((declared_ratio_iff file).0 a.ratio, tt)))),
    ) in
    ap (λ m. m >> validate_loop (add64 e file.uncompressed) (add64 c file.compressed) files) g
    ∙ Loop-validate_loop (add64 e file.uncompressed) (add64 c file.compressed) files
        (record { each = later; expansion = omega arith; input = omega arith })

-- ValidateZipFiles accepts a central directory exactly where it has no more entries than the limit,
-- each entry is of a known method and within the limits of one entry, and the sums of the declared
-- sizes, without wrapping, are within the limits of an archive.
pub validate_zip_files_iff :
    (files : List (Option ZipFile)) → (validate_zip_files files ≡ ok tt) ↔ IsWithin files
unfolding validate_zip_files
validate_zip_files_iff files =
    let count : List (Bool × DirectoryError) =
      (ltb max_archive_entries (length files), entries) ∷ [] in
    (
      λ h.
          let (g, rest) = then-eq-ok (guards count) _ tt h in
          let p = (guards_iff count).0 g in
          let l = validate_loop-Loop 0 0 files (omega arith) (omega arith) rest in
          let le = l.expansion in
          let li = l.input in
          record {
            few = ground arith;
            each = l.each;
            expansion = omega arith;
            input = omega arith;
          },
      λ w.
          let f = w.few in
          let we = w.expansion in
          let wi = w.input in
          ap (λ m. m >> validate_loop 0 0 files) ((guards_iff count).1 (ground arith, tt))
          ∙ Loop-validate_loop 0 0 files
              (record { each = w.each; expansion = omega arith; input = omega arith }),
    )
