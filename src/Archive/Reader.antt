-- ===== src/Archive/Reader.antt =====
-- internal/archiveio/read.go: `countingByteReader`, which counts the compressed input.
use kotlsp.Prelude.{
  ℕ, Bool, List, [], ◌∷◌, ◌++◌, Option, some, min, ◌==◌, if◌then◌else◌, Bytes, length, take,
}
use kotlsp.Archive.{add64, sub64}

pub data ReadFailure : Type 0 where
  eof : ReadFailure
  context_done : ReadFailure
  over_budget : ReadFailure
  broken : ReadFailure

-- `countingByteReader`, without the reader and the context that it has from outside.
pub record CountingByteReader : Type 0 where
  pub remaining : ℕ
  pub read : ℕ

-- A call of its `Read`: whether the context is done, the length of the buffer, and what the raw
-- stream would give for a buffer that is long enough. It gives no more than the buffer holds, as an
-- `io.Reader` does.
pub record RawRead : Type 0 where
  pub cancelled : Bool
  pub buffer : ℕ
  pub given : Bytes
  pub failure : Option ReadFailure

-- What a call returns.
pub record Sent : Type 0 where
  pub reader : CountingByteReader
  pub bytes : Bytes
  pub failure : Option ReadFailure

-- `countingByteReader.Read`
unfoldable pub counting_read : CountingByteReader → RawRead → Sent
counting_read c r =
    let bytes = take (min r.buffer c.remaining) r.given in
    if r.cancelled
    then record { reader = c; bytes = []; failure = some context_done }
    else if c.remaining == 0
    then record { reader = c; bytes = []; failure = some over_budget }
    else record {
      reader = record {
        remaining = sub64 c.remaining (length bytes);
        read = add64 c.read (length bytes);
      };
      bytes = bytes;
      failure = r.failure;
    }

-- The calls that a decompressor makes, and the bytes that it has got from them.
unfoldable pub drain : CountingByteReader → List RawRead → CountingByteReader × Bytes
drain c [] = (c, [])
drain c (r ∷ rs) =
    let sent = counting_read c r in
    let (last, bytes) = drain sent.reader rs in (last, sent.bytes ++ bytes)
