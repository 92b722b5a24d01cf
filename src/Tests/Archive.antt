-- ===== src/Tests/Archive.antt =====
-- internal/archiveio/read.go on an archive of a stored entry and of one that lies about its length.
use kotlsp.Prelude.{
  ℕ, ◌≡◌, refl, ◌↔◌, false, List, [], ◌∷◌, Option, none, some, Bytes, codes, pos, arith, ◌≤◌, ◌+◌,
  true, ok, failed,
}
use kotlsp.Archive.{
  ZipFile, Budget, validate_zip_files, validate_loop, new_budget, compression_ratio_exceeds,
}
use kotlsp.Archive.Accepted.{IsBounded, Charges, read_file-Charges}
use kotlsp.Archive.Directory.{IsWithin, validate_zip_files_iff}
use kotlsp.Archive.Reader.{eof, RawRead, counting_read, drain}
use kotlsp.Archive.Read.{
  Call, output_differs, settle, compare_entry, finish_entry, take_data, read_entry, read_file,
  read_context, read_all,
}
use kotlsp.Archive.Total.{total_size, read_all-total}

-- A checksum: the sum of the bytes.
abbrev sum : Bytes → ℕ
sum [] = 0
sum (b ∷ s) = b + sum s

abbrev hello : Bytes
hello = codes "hello"

abbrev entry : ZipFile
entry = record { method = 0; uncompressed = 5; compressed = 5; crc = 532 }

abbrev liar : ZipFile
liar = record { method = 8; uncompressed = 4; compressed = 5; crc = 532 }

abbrev raw : List RawRead
raw =
    record { cancelled = false; buffer = 512; given = hello; failure = none }
    ∷ record { cancelled = false; buffer = 512; given = []; failure = some eof }
    ∷ []

abbrev call : ZipFile → Call
call file = record {
  file = some file;
  limit = pos 100;
  gate_lost = false;
  opens = true;
  reads = raw;
  inflated = hello;
  read_fails = false;
  close_fails = false;
  done_after = false;
  trailing = record { cancelled = false; buffer = 1; given = []; failure = some eof };
}

abbrev files : List (Option ZipFile)
files = some entry ∷ none ∷ some liar ∷ []

abbrev fresh : Budget
fresh = record { expanded = 0; compressed = 0 }

abbrev calls : List Call
calls = call entry ∷ call liar ∷ []

opened : new_budget files ≡ ok fresh
unfolding new_budget validate_zip_files validate_loop compression_ratio_exceeds
opened = refl

results : (read_all sum (some fresh) calls).1 ≡ ok hello ∷ failed output_differs ∷ []
unfolding read_all read_context read_file read_entry take_data finish_entry compare_entry settle
    counting_read drain compression_ratio_exceeds
results = refl

validate_zip_files_iff_example : (validate_zip_files files ≡ ok tt) ↔ IsWithin files
validate_zip_files_iff_example = validate_zip_files_iff files

read_file-Charges_example : Charges sum fresh entry 100 (read_file sum fresh (call entry))
read_file-Charges_example =
    read_file-Charges sum fresh entry (call entry)
      (record { expansion = omega arith; input = omega arith }) refl

read_all-total_example :
    (total_size (read_all sum (some fresh) calls).1 ≤ 2_147_483_648)
    × ((last : Budget) × ((read_all sum (some fresh) calls).0 ≡ some last) × IsBounded last)
read_all-total_example = read_all-total sum files fresh calls opened
