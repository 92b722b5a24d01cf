-- ===== src/Rpc/Outbound.antt =====
-- internal/jsonrpc/conn.go: `Request`, which asks the client and waits for its answer.
pub mod Entries
pub mod Routed
use kotlsp.Prelude.{
  ℕ, zero, suc, ◌≤◌, Bool, true, false, not, ◌&&◌, ◌||◌, List, [], ◌∷◌, ◌++◌, Option, none, some,
  Bytes, codes, same, leb, ◌==◌, if◌then◌else◌, length, pos,
}
use kotlsp.Std.Strconv.{format_int}
use kotlsp.Rpc.{Message, ResponseError, Json, request_id_key}

abbrev pub max_pending : ℕ
max_pending = 128

-- An entry of `pending`: a channel that holds one message.
pub record Pending : Type 0 where
  pub key : Bytes
  pub answer : Option Message

-- What a call returns. `decode` stands for the result that it decodes into.
pub data Returned : Type 0 where
  too_many : Returned
  write_failed : Returned
  context_error : Returned
  connection_stopped : Returned
  client_gone : Returned
  answered_with : Message → Returned

-- `nextID` and `pending`, with what the calls have returned, each under its key.
pub record Outbound : Type 0 where
  pub next_id : ℕ
  pub pending : List Pending
  pub returned : List (Bytes × Returned)

abbrev pub no_requests : Outbound
no_requests = record { next_id = 0; pending = []; returned = [] }

-- `delete(c.pending, requestKey)`
unfoldable pub delete_pending : List Pending → Bytes → List Pending
delete_pending [] key = []
delete_pending (p ∷ ps) key =
    let rest = delete_pending ps key in if same p.key key then rest else p ∷ rest

unfoldable pub find_pending : List Pending → Bytes → Option Pending
find_pending [] key = none
find_pending (p ∷ ps) key =
    let later = find_pending ps key in if same p.key key then some p else later

abbrev pub request_key : ℕ → Bytes
request_key id = codes "n:" ++ format_int (pos id)

abbrev pub finished : Outbound → Bytes → Returned → Outbound
finished o key result = record o {
  pending = delete_pending o.pending key;
  returned = (key, result) ∷ o.returned;
}

-- `Request` up to its `select`, and to the end if there are too many or it cannot write.
unfoldable pub begin_request : Outbound → Bool → Outbound
begin_request o writes =
    let id = suc o.next_id in
    let key = request_key id in
    let entered = record o {
      next_id = id;
      pending = record { key = key; answer = none } ∷ delete_pending o.pending key;
    } in
    if leb max_pending (length o.pending)
    then record o { next_id = id; returned = (key, too_many) ∷ o.returned }
    else if writes
    then entered
    else finished entered key write_failed

-- The channel takes a message if it holds none.
unfoldable pub send_answer : List Pending → Bytes → Message → List Pending
send_answer [] key m = []
send_answer (p ∷ ps) key m =
    let rest = send_answer ps key m in
    if same p.key key
    then (elim p.answer [ none ↦ record { key = p.key; answer = some m } | some first ↦ p ]) ∷ ps
    else p ∷ rest

-- `Run` on a response.
unfoldable pub deliver : Json → Outbound → Message → Outbound
deliver json o m = elim (request_id_key json m.id) [
  | none ↦ o
  | some key ↦ record o { pending = send_answer o.pending key m }
]

-- Which channel the `select` takes.
pub data Ending : Type 0 where
  context_done : Ending
  stop_closed : Ending
  peer_gone_closed : Ending
  answer_ready : Ending

-- `Request` from its `select` on, which waits for an answer that is not there.
unfoldable pub end_request : Outbound → Bytes → Ending → Outbound
end_request o key how = elim (find_pending o.pending key) [
  | none ↦ o
  | some p ↦ elim how [
    | context_done ↦ finished o key context_error
    | stop_closed ↦ finished o key connection_stopped
    | peer_gone_closed ↦ finished o key client_gone
    | answer_ready ↦ elim p.answer [ none ↦ o | some m ↦ finished o key (answered_with m) ]
  ]
]

-- What the calls and the reader do, in any order.
pub data RequestEvent : Type 0 where
  begins : Bool → RequestEvent
  delivers : Message → RequestEvent
  ends : Bytes → Ending → RequestEvent

unfoldable pub request_step : Json → Outbound → RequestEvent → Outbound
request_step json o (begins writes) = begin_request o writes
request_step json o (delivers m) = deliver json o m
request_step json o (ends key how) = end_request o key how

unfoldable pub request_run : Json → Outbound → List RequestEvent → Outbound
request_run json o [] = o
request_run json o (e ∷ es) = request_run json (request_step json o e) es

-- What becomes of an answer: its error, or its result, decoded by a function that may fail, unless
-- the caller wants none or it is absent or null.
pub data Decoded : Type 0 where
  refused : ResponseError → Decoded
  undecodable : Decoded
  nothing_decoded : Decoded
  decoded : Bytes → Decoded

unfoldable pub decode_answer : (Bytes → Bool) → Bool → Message → Decoded
decode_answer decodes wanted m = elim m.error [
  | some e ↦ refused e
  | none ↦
      if not wanted || length m.result == 0 || same m.result (codes "null")
      then nothing_decoded
      else if decodes m.result
      then decoded m.result
      else undecodable
]
