-- ===== src/Archive.antt =====
-- internal/archiveio/read.go: limits on what is read from ZIP files. A uint64 is a number below 2 ^ 64,
-- and its arithmetic wraps.
pub mod Reader
pub mod Read
pub mod Ratio
pub mod Accounts
pub mod Accepted
pub mod Total
pub mod Directory
use kotlsp.Prelude.{
  ℕ, zero, suc, ◌+◌, ◌-◌, ◌/◌, ◌%◌, ◌^◌, Bool, not, ◌&&◌, ◌||◌, List, [], ◌∷◌, Option, none, some,
  ltb, leb, ◌==◌, if◌then◌else◌, length, Outcome, ok, failed, guards, ◌>>◌,
}

-- `64 << 20`
abbrev pub max_entry_bytes : ℕ
max_entry_bytes = 67_108_864

-- `1 << 20`
abbrev pub max_metadata_bytes : ℕ
max_metadata_bytes = 1_048_576

-- `64 << 20`
abbrev pub max_entry_compressed_bytes : ℕ
max_entry_compressed_bytes = 67_108_864

abbrev pub max_archive_entries : ℕ
max_archive_entries = 250_000

-- `2 << 30`
abbrev pub max_archive_expanded_bytes : ℕ
max_archive_expanded_bytes = 2_147_483_648

-- `2 << 30`
abbrev pub max_archive_compressed_bytes : ℕ
max_archive_compressed_bytes = 2_147_483_648

abbrev pub max_compression_ratio : ℕ
max_compression_ratio = 1000

abbrev pub add64 : ℕ → ℕ → ℕ
add64 a b = (a + b) % 2 ^ 64

abbrev pub sub64 : ℕ → ℕ → ℕ
sub64 a b = (a + 2 ^ 64 - b) % 2 ^ 64

-- What the code reads of a `zip.File`, but its name, which only messages have.
pub record ZipFile : Type 0 where
  pub method : ℕ
  pub uncompressed : ℕ
  pub compressed : ℕ
  pub crc : ℕ

-- `zip.Store` and `zip.Deflate`
abbrev pub store : ℕ
store = 0

abbrev pub deflate : ℕ
deflate = 8

-- The errors of `ValidateZipFiles`, all of them `ErrArchiveBudget`.
pub data DirectoryError : Type 0 where
  entries : DirectoryError
  compression_method : DirectoryError
  declared_expansion : DirectoryError
  declared_entry : DirectoryError
  declared_input : DirectoryError
  declared_ratio : DirectoryError

-- `compressionRatioExceeds`
unfoldable pub compression_ratio_exceeds : ℕ → ℕ → ℕ → Bool
compression_ratio_exceeds expanded zero limit = ltb 0 expanded
compression_ratio_exceeds expanded (suc c) limit =
    let quotient = expanded / suc c in
    ltb limit quotient || (quotient == limit) && not (expanded % suc c == 0)

abbrev pub is_supported : ℕ → Bool
is_supported method = method == store || method == deflate

-- The body of the loop of `ValidateZipFiles`, up to the sums.
abbrev pub entry_checks : ℕ → ℕ → ZipFile → List (Bool × DirectoryError)
entry_checks expanded compressed file =
    (not (is_supported file.method), compression_method)
    ∷ (ltb (sub64 max_archive_expanded_bytes expanded) file.uncompressed, declared_expansion)
    ∷ (ltb max_entry_compressed_bytes file.compressed, declared_entry)
    ∷ (ltb (sub64 max_archive_compressed_bytes compressed) file.compressed, declared_input)
    ∷ (
      ltb max_metadata_bytes file.uncompressed
          && compression_ratio_exceeds file.uncompressed file.compressed max_compression_ratio,
      declared_ratio,
    )
    ∷ []

-- The loop of `ValidateZipFiles` with its sums; a nil file is `none`.
unfoldable pub validate_loop : ℕ → ℕ → List (Option ZipFile) → Outcome DirectoryError (Unit {0})
validate_loop expanded compressed [] = ok tt
validate_loop expanded compressed (none ∷ files) = validate_loop expanded compressed files
validate_loop expanded compressed (some file ∷ files) =
    let rest =
      validate_loop (add64 expanded file.uncompressed) (add64 compressed file.compressed) files in
    guards (entry_checks expanded compressed file) >> rest

-- `ValidateZipFiles`
unfoldable pub validate_zip_files : List (Option ZipFile) → Outcome DirectoryError (Unit {0})
validate_zip_files files =
    guards ((ltb max_archive_entries (length files), entries) ∷ []) >> validate_loop 0 0 files

-- `Budget`, without its gate: what one holder of the gate leaves the next one finds.
pub record Budget : Type 0 where
  pub expanded : ℕ
  pub compressed : ℕ

-- `NewBudget`
unfoldable pub new_budget : List (Option ZipFile) → Outcome DirectoryError Budget
new_budget files = elim (validate_zip_files files) [
  | failed why ↦ failed why
  | ok _ ↦ ok (record { expanded = 0; compressed = 0 })
]
