-- ===== src/Rpc/Inbound.antt =====
-- internal/jsonrpc/conn.go: `Run`, its reader, its notification worker and its request workers, as
-- steps that the locks and channels make atomic. The reader alone adds keys, bytes and jobs, and the
-- workers only give them back, so that what it does with a request can be taken as one step.
pub mod Run
pub mod Totals
pub mod Costs
pub mod Limits
pub mod Log
pub mod Promise
pub mod Barrier
pub mod Order
pub mod Made
pub mod Starts
pub mod Answers
use kotlsp.Prelude.{
  ℕ, zero, suc, ◌+◌, ◌-◌, Bool, true, false, not, ◌&&◌, ◌||◌, List, [], ◌∷◌, ◌++◌, Option, none,
  some, Bytes, same, map, ltb, leb, ◌==◌, if◌then◌else◌, length, ℤ,
}
use kotlsp.Rpc.{Message, message_memory_bytes, invalid_request, internal_error, request_canceled}
use kotlsp.Rpc.Frame.{write}
use kotlsp.Rpc.Queue.{
  QueuedNotification, NotificationQueue, new_notification_queue, push, Popped, waits, ended, popped,
  pop, close,
}

abbrev pub max_concurrent_inbound_requests : ℕ
max_concurrent_inbound_requests = 16

abbrev pub max_queued_inbound_requests : ℕ
max_queued_inbound_requests = 256

-- `128 << 20`
abbrev pub max_inbound_request_bytes : ℕ
max_inbound_request_bytes = 134_217_728

-- `inboundRequest`; its context is whether it is cancelled.
pub record InboundRequest : Type 0 where
  pub message : Message
  pub cancelled : Bool
  pub key : Bytes
  pub after_notifications : ℕ

-- How far a worker is: it waits for the barrier, it has a reply (the code of an error, or none), it has
-- called `respond`, it has taken the key out of `cancels`.
pub data Phase : Type 0 where
  waiting : Phase
  replying : Option ℤ → Phase
  answered : Phase
  forgotten : Phase

pub record Worker : Type 0 where
  pub request : InboundRequest
  pub phase : Phase

-- A response, with the code of its error.
pub record Response : Type 0 where
  pub id : Bytes
  pub code : Option ℤ

-- What `respond` meets when it calls `write`: the body that `json.Marshal` returns, if it returns one,
-- and whether the writer takes the whole frame.
pub record Attempt : Type 0 where
  pub body : Option Bytes
  pub accepts : Bool

-- Whether `write` returns no error.
unfoldable pub sends : Attempt → Bool
sends a = elim a.body [
  | none ↦ false
  | some body ↦ elim (write body) [ none ↦ false | some frame ↦ a.accepts ]
]

-- The calls of the handler, in order: a notification that is handled, with its channel, and a request
-- that is started, with the channel that it has waited for.
pub data Entry : Type 0 where
  handled : ℕ → Entry
  begun : Message → ℕ → Entry

-- `reading` is whether the reader still reads, `stopped` whether `finish(true)` has cancelled the
-- context of the run; `notifying` is what the notification worker has taken, `done` the channels that
-- are closed, `barrier` the variable `notificationBarrier`. `responses` are those that are written, and
-- `unsent` those whose error `Run` discards.
pub record Connection : Type 0 where
  pub notifications : NotificationQueue
  pub notifying : Option QueuedNotification
  pub done : List ℕ
  pub barrier : ℕ
  pub cancels : List Bytes
  pub jobs : List InboundRequest
  pub workers : List Worker
  pub inbound_bytes : ℕ
  pub reading : Bool
  pub stopped : Bool
  pub responses : List Response
  pub unsent : List Response
  pub log : List Entry

abbrev pub initial : Connection
initial = record {
  notifications = new_notification_queue;
  notifying = none;
  done = 0 ∷ [];
  barrier = 0;
  cancels = [];
  jobs = [];
  workers = [];
  inbound_bytes = 0;
  reading = true;
  stopped = false;
  responses = [];
  unsent = [];
  log = [];
}

abbrev pub holds : List Bytes → Bytes → Bool
holds [] key = false
holds (k ∷ ks) key = same k key || holds ks key

-- `delete(c.cancels, key)`
unfoldable pub forget_key : List Bytes → Bytes → List Bytes
forget_key [] key = []
forget_key (k ∷ ks) key = let rest = forget_key ks key in if same k key then rest else k ∷ rest

abbrev pub closed_channel : List ℕ → ℕ → Bool
closed_channel [] channel = false
closed_channel (c ∷ cs) channel = (c == channel) || closed_channel cs channel

unfoldable pub respond : Connection → Bytes → Option ℤ → Attempt → Connection
respond c id code a =
    let r : Response = record { id = id; code = code } in
    if sends a
    then record c { responses = c.responses ++ (r ∷ []) }
    else record c { unsent = c.unsent ++ (r ∷ []) }

-- A context is cancelled: that of every request that passes a test.
abbrev pub cancel_request : (Bytes → Bool) → InboundRequest → InboundRequest
cancel_request p r = record r { cancelled = r.cancelled || p r.key }

-- A worker that has taken its key out of `cancels` has cancelled its own context before.
abbrev pub cancel_worker : (Bytes → Bool) → Worker → Worker
cancel_worker p w = record w { request = cancel_request p w.request }

unfoldable pub cancel_where : (Bytes → Bool) → Connection → Connection
cancel_where p c = record c {
  jobs = map (cancel_request p) c.jobs;
  workers = map (cancel_worker p) c.workers;
}

-- The worker at a place, put there and taken away.
unfoldable pub worker_at : List Worker → ℕ → Option Worker
worker_at [] i = none
worker_at (w ∷ ws) zero = some w
worker_at (w ∷ ws) (suc i) = worker_at ws i

unfoldable pub set_worker : List Worker → ℕ → Worker → List Worker
set_worker [] i v = []
set_worker (w ∷ ws) zero v = v ∷ ws
set_worker (w ∷ ws) (suc i) v = w ∷ set_worker ws i v

unfoldable pub free_worker : List Worker → ℕ → List Worker
free_worker [] i = []
free_worker (w ∷ ws) zero = ws
free_worker (w ∷ ws) (suc i) = w ∷ free_worker ws i
