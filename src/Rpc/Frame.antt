-- ===== src/Rpc/Frame.antt =====
-- internal/jsonrpc/conn.go: the frames of messages, as `read` takes them from the stream and `write`
-- puts them there. The stream is the bytes up to its end; an error of the stream other than its end,
-- and of the writer, is left out.

pub mod RoundTrip
use kotlsp.Prelude.{
  ℕ, zero, suc, ◌+◌, Bool, true, false, not, ◌&&◌, ◌||◌, [], ◌∷◌, ◌++◌, Option, none, some, Bytes,
  codes, same, ltb, ◌==◌, within, map, if◌then◌else◌, length, take, drop, ℤ, pos, negsuc, Outcome,
  ok, failed, ◌>>=◌,
}
use kotlsp.Std.Space.{trim_space}
use kotlsp.Std.Strconv.{atoi, format_int}
use kotlsp.Std.Strings.{index_byte, cut, trim_right}
use kotlsp.Rpc.{Message, Json, Recoverable, decode_message}

-- `16 << 20`
abbrev pub max_message_bytes : ℕ
max_message_bytes = 16_777_216

-- `8 << 10`
abbrev pub max_header_line_bytes : ℕ
max_header_line_bytes = 8192

-- `64 << 20`
abbrev pub max_outgoing_message_bytes : ℕ
max_outgoing_message_bytes = 67_108_864

-- The errors of `read`: `io.EOF` is `input_ended`, `io.ErrUnexpectedEOF` is `input_cut`.
pub data FrameError : Type 0 where
  header_line_too_long : FrameError
  headers_too_long : FrameError
  duplicate_content_length : FrameError
  invalid_content_length : FrameError
  missing_content_length : FrameError
  input_ended : FrameError
  input_cut : FrameError
  recoverable : Recoverable → FrameError

-- `ReadSlice('\n')` on the buffer of a byte more than the longest line, and the checks behind it: a
-- line with its end, and the stream behind it.
unfoldable pub read_line : Bytes → Outcome FrameError (Bytes × Bytes)
read_line stream = elim (index_byte stream 0x0a) [
  | none ↦
      if ltb max_header_line_bytes (length stream)
      then failed header_line_too_long
      else failed input_ended
  | some i ↦
      if ltb max_header_line_bytes (suc i)
      then failed header_line_too_long
      else ok (take (suc i) stream, drop (suc i) stream)
]

-- `strings.EqualFold`, for a second string that is ASCII without k and s: no other rune folds to its
-- letters.
abbrev lower : ℕ → ℕ
lower b = if within 65 90 b then b + 32 else b

unfoldable pub equal_fold : Bytes → Bytes → Bool
equal_fold s t = same (map lower s) (map lower t)

-- What a header line says of the length, beside what has been read before; -1 is `none`.
unfoldable pub header_field : Bytes → Option ℕ → Outcome FrameError (Option ℕ)
header_field line content_length =
    let (name, value) = cut line (codes ":") in
    elim value [
      | none ↦ ok content_length
      | some v ↦
          if not (equal_fold (trim_space name) (codes "Content-Length"))
          then ok content_length
          else elim content_length [
            | some n ↦ failed duplicate_content_length
            | none ↦ elim (atoi (trim_space v)) [
              | some (pos n) ↦
                  if ltb max_message_bytes n then failed invalid_content_length else ok (some n)
              | _ ↦ failed invalid_content_length
            ]
          ]
    ]

-- The loop over the header lines, on fuel: a line takes a byte at least.
unfoldable pub read_headers : ℕ → Option ℕ → ℕ → Bytes → Outcome FrameError (Option ℕ × Bytes)
read_headers zero content_length header_bytes stream = failed input_ended
read_headers (suc fuel) content_length header_bytes stream = elim (read_line stream) [
  | failed why ↦ failed why
  | ok (line_bytes, rest) ↦ elim (ltb 32_768 (header_bytes + length line_bytes)) [
    | true ↦ failed headers_too_long
    | false ↦ elim (trim_right line_bytes (codes "\r\n")) [
      | [] ↦ ok (content_length, rest)
      | b ∷ line ↦ elim (header_field (b ∷ line) content_length) [
        | failed why ↦ failed why
        | ok next ↦ read_headers fuel next (header_bytes + length line_bytes) rest
      ]
    ]
  ]
]

-- `io.ReadFull`
unfoldable pub read_full : ℕ → Bytes → Outcome FrameError (Bytes × Bytes)
read_full n stream =
    if n == 0
    then ok ([], stream)
    else if length stream == 0
    then failed input_ended
    else if ltb (length stream) n
    then failed input_cut
    else ok (take n stream, drop n stream)

-- `read` up to the body of the frame, with the stream behind it.
unfoldable pub read_body : Bytes → Outcome FrameError (Bytes × Bytes)
read_body stream = elim (read_headers (suc (length stream)) none 0 stream) [
  | failed why ↦ failed why
  | ok (none, rest) ↦ failed missing_content_length
  | ok (some n, rest) ↦ read_full n rest
]

-- `read`, with the stream behind the frame.
unfoldable pub read : Json → Bytes → Outcome FrameError Message × Bytes
read json stream = elim (read_body stream) [
  | failed why ↦ (failed why, [])
  | ok (body, rest) ↦ elim (decode_message json body) [
    | failed why ↦ (failed (recoverable why), rest)
    | ok m ↦ (ok m, rest)
  ]
]

-- `write` of a body that is marshalled, with `none` for its refusal.
unfoldable pub write : Bytes → Option Bytes
write body =
    if ltb max_outgoing_message_bytes (length body)
    then none
    else some
        (codes "Content-Length: " ++ (format_int (pos (length body)) ++ (codes "\r\n\r\n" ++ body)))
