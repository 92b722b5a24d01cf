-- ===== src/Rpc.antt =====
-- internal/jsonrpc/conn.go: messages, and what makes one valid. JSON itself is a parameter, of which
-- nothing is assumed.
pub mod Frame
pub mod Queue
pub mod Inbound
pub mod Outbound
use kotlsp.Prelude.{
  ℕ, zero, suc, ◌+◌, Bool, true, false, not, ◌&&◌, ◌||◌, List, [], ◌∷◌, ◌++◌, Option, none, some,
  Bytes, codes, same, ◌*◌, ◌-◌, within, ltb, ◌==◌, if◌then◌else◌, length, ℤ, pos, negsuc, Outcome,
  ok, failed,
}
use kotlsp.Std.Space.{trim_space}
use kotlsp.Std.Strings.{contains_rune}
use kotlsp.Std.Strconv.{digits}

-- `ResponseError`
pub record ResponseError : Type 0 where
  pub code : ℤ
  pub message : Bytes
  pub details : Bytes

-- `Message`; a raw value that is absent is empty, and a nil error is `none`.
pub record Message : Type 0 where
  pub jsonrpc : Bytes
  pub id : Bytes
  pub method : Bytes
  pub params : Bytes
  pub result : Bytes
  pub error : Option ResponseError

-- `-32700` and `-32600`
abbrev pub parse_error : ℤ
parse_error = negsuc 32_699

abbrev pub invalid_request : ℤ
invalid_request = negsuc 32_599

abbrev pub internal_error : ℤ
internal_error = negsuc 32_602

abbrev pub request_canceled : ℤ
request_canceled = negsuc 32_799

-- What a JSON decoder makes of the text of an id.
pub data IdValue : Type 0 where
  text : Bytes → IdValue
  number : Bytes → IdValue
  other : IdValue

-- `json.Valid`, `json.Unmarshal` into a message, and the two calls of `Decode` of `requestIDKey`, with
-- `none` where the first fails or the second finds more.
pub record Json : Type 0 where
  pub valid : Bytes → Bool
  pub unmarshal : Bytes → Option Message
  pub decode_id : Bytes → Option IdValue

-- `recoverableReadError`, with its code and its id.
pub record Recoverable : Type 0 where
  pub code : ℤ
  pub id : Bytes

-- `validParamsShape`
unfoldable pub valid_params_shape : Bytes → Bool
valid_params_shape params = elim (trim_space params) [
  | [] ↦ true
  | b ∷ s ↦ same (b ∷ s) (codes "null") || b == b'{' || b == b'['
]

abbrev pub is_empty : Bytes → Bool
is_empty s = length s == 0

abbrev pub has_error : Option ResponseError → Bool
has_error none = false
has_error (some e) = true

-- The checks of `read` on a message that has been decoded.
unfoldable pub check_message : Message → Outcome Recoverable Message
check_message m =
    let refused = failed (record { code = invalid_request; id = m.id }) in
    let anonymous = failed (record { code = invalid_request; id = [] }) in
    let named = if same (trim_space m.params) (codes "null") then record m { params = [] } else m in
    if not (same m.jsonrpc (codes "2.0"))
    then refused
    else if not (is_empty m.method)
    then (if ltb 4096 (length m.method) || contains_rune m.method 0
        then refused
        else if not (is_empty m.result) || has_error m.error
        then refused
        else if not (valid_params_shape m.params)
        then refused
        else ok named)
    else if not (is_empty m.id)
    then (if is_empty m.result && not (has_error m.error)
          || not (is_empty m.result) && has_error m.error
        then anonymous
        else ok m)
    else anonymous

-- The body of a frame.
unfoldable pub decode_message : Json → Bytes → Outcome Recoverable Message
decode_message json body =
    if not (json.valid body)
    then failed (record { code = parse_error; id = [] })
    else elim (json.unmarshal body) [
      | none ↦ failed (record { code = invalid_request; id = [] })
      | some m ↦ check_message m
    ]

-- The value of digits, of any number of them, behind what has been read.
unfoldable pub big_value : ℕ → Bytes → Option ℕ
big_value n [] = some n
big_value n (b ∷ s) =
    let later = big_value (n * 10 + (b - 48)) s in if within 48 57 b then later else none

-- `big.Int.SetString` to base 10 and `big.Int.String`.
abbrev pub canonical : Bytes → ℕ → Bytes
canonical sign n = if n == 0 then codes "0" else sign ++ digits 256 n

unfoldable pub integer_text : Bytes → Option Bytes
integer_text [] = none
integer_text (b ∷ s) =
    let signed = b == b'-' || b == b'+' in
    let figures = if signed then s else b ∷ s in
    if is_empty figures then none else elim (big_value 0 figures) [
      | none ↦ none
      | some n ↦ some (canonical (if b == b'-' then codes "-" else []) n)
    ]

-- `requestIDKey`
unfoldable pub request_id_key : Json → Bytes → Option Bytes
request_id_key json id =
    if is_empty id || ltb 256 (length id) then none else elim (json.decode_id id) [
      | none ↦ none
      | some (text typed) ↦
          if ltb 256 (length typed) || contains_rune typed 0
          then none
          else some (codes "s:" ++ typed)
      | some (number typed) ↦ elim (integer_text typed) [
        | none ↦ none
        | some integer ↦ some (codes "n:" ++ integer)
      ]
      | some other ↦ none
    ]

-- `messageMemoryBytes`
unfoldable pub message_memory_bytes : Message → ℕ
message_memory_bytes m =
    length m.jsonrpc + length m.id + length m.method + length m.params + length m.result + 128
