-- ===== src/Rpc/Inbound/Run.antt =====
-- internal/jsonrpc/conn.go: the steps of the reader, of the notification worker and of the request
-- workers, and their runs.
use kotlsp.Prelude.{
  ℕ, ◌+◌, ◌-◌, Bool, true, false, ◌||◌, List, [], ◌∷◌, ◌++◌, Option, none, some, Bytes, same, ltb,
  leb, if◌then◌else◌, length, ℤ,
}
use kotlsp.Rpc.{Message, message_memory_bytes, invalid_request, internal_error, request_canceled}
use kotlsp.Rpc.Inbound.{
  max_concurrent_inbound_requests, max_queued_inbound_requests, max_inbound_request_bytes,
  InboundRequest, waiting, replying, answered, forgotten, Worker, Response, Attempt, sends, Entry,
  handled, begun, Connection, holds, forget_key, closed_channel, respond, cancel_request,
  cancel_where, worker_at, set_worker, free_worker,
}
use kotlsp.Rpc.Queue.{push, popped, pop, close}

-- The reader on a request, with the answer of `requestIDKey`.
unfoldable pub receive : Connection → Message → Option Bytes → Attempt → Connection
receive c m none a = respond c [] (some invalid_request) a
receive c m (some key) a =
    let cost = message_memory_bytes m in
    if holds c.cancels key
    then respond c m.id (some invalid_request) a
    else if ltb (max_inbound_request_bytes - c.inbound_bytes) cost
    then respond c m.id (some internal_error) a
    else if leb max_queued_inbound_requests (length c.jobs)
    then respond c m.id (some internal_error) a
    else record c {
      cancels = key ∷ c.cancels;
      inbound_bytes = c.inbound_bytes + cost;
      jobs =
          c.jobs
          ++ (record { message = m; cancelled = false; key = key; after_notifications = c.barrier }
              ∷ []);
    }

-- `finish`
unfoldable pub finish : Connection → Bool → Connection
finish c drop =
    let (queue, channels) = close c.notifications drop in
    let cancelled = if drop then cancel_where (λ key. true) c else c in
    record cancelled {
      notifications = queue;
      done = channels ++ c.done;
      reading = false;
      stopped = drop || c.stopped;
    }

-- The reader on a notification; a full queue ends the run.
unfoldable pub notify : Connection → Message → Connection
notify c m =
    let (queue, channel) = push c.notifications m in
    elim channel [
      | none ↦ finish c true
      | some made ↦ record c { notifications = queue; barrier = made }
    ]

-- The notification worker takes a notification, and only closes its channel if the run is over.
unfoldable pub take_notification : Connection → Connection
take_notification c = elim c.notifying [
  | some n ↦ c
  | none ↦
      let (queue, result) = pop c.notifications in
      elim result [
        | popped n ↦
            if c.stopped
            then record c { notifications = queue; done = n.done ∷ c.done }
            else record c { notifications = queue; notifying = some n }
        | _ ↦ c
      ]
]

-- It closes the channel of the notification that it has handled.
unfoldable pub close_notification : Connection → Connection
close_notification c = elim c.notifying [
  | none ↦ c
  | some n ↦ record c {
    notifying = none;
    done = n.done ∷ c.done;
    log = c.log ++ (handled n.done ∷ []);
  }
]

-- A worker that is free takes the first job.
unfoldable pub take_job : Connection → Connection
take_job c = elim c.jobs [
  | [] ↦ c
  | r ∷ rest ↦ if leb max_concurrent_inbound_requests (length c.workers) then c else record c {
    jobs = rest;
    workers = c.workers ++ (record { request = r; phase = waiting } ∷ []);
  }
]

-- What a worker has done to itself and to the connection.
pub record Move : Type 0 where
  pub worker : Worker
  pub log : List Entry
  pub responses : List Response
  pub unsent : List Response
  pub cancels : List Bytes

abbrev pub stay : Connection → Worker → Move
stay c w = record { worker = w; log = []; responses = []; unsent = []; cancels = c.cancels }

-- The code of a response: a request that is cancelled has an error.
abbrev pub final_code : InboundRequest → Option ℤ → Option ℤ
final_code r none = if r.cancelled then some request_canceled else none
final_code r (some code) = some code

-- A step of a worker up to the return of its bytes; `code` is what the handler returns
-- and `a` what a response meets. A request
-- that is cancelled is not started, whichever channel the `select` takes.
unfoldable pub advance : Connection → Worker → Option ℤ → Attempt → Move
advance c w code a = elim w.phase [
  | waiting ↦
      if w.request.cancelled
      then record {
        worker = record { request = w.request; phase = replying none };
        log = [];
        responses = [];
        unsent = [];
        cancels = c.cancels;
      }
      else if closed_channel c.done w.request.after_notifications
      then record {
        worker = record { request = w.request; phase = replying code };
        log = begun w.request.message w.request.after_notifications ∷ [];
        responses = [];
        unsent = [];
        cancels = c.cancels;
      }
      else stay c w
  | replying reply ↦
      let r : Response = record { id = w.request.message.id; code = final_code w.request reply } in
      record {
        worker = record { request = w.request; phase = answered };
        log = [];
        responses = if sends a then r ∷ [] else [];
        unsent = if sends a then [] else r ∷ [];
        cancels = c.cancels;
      }
  | answered ↦ record {
    worker = record { request = cancel_request (λ key. true) w.request; phase = forgotten };
    log = [];
    responses = [];
    unsent = [];
    cancels = forget_key c.cancels w.request.key;
  }
  | forgotten ↦ stay c w
]

abbrev pub moved : Connection → ℕ → Move → Connection
moved c i m = record c {
  workers = set_worker c.workers i m.worker;
  log = c.log ++ m.log;
  responses = c.responses ++ m.responses;
  unsent = c.unsent ++ m.unsent;
  cancels = m.cancels;
}

unfoldable pub work : Connection → ℕ → Option ℤ → Attempt → Connection
work c i code a = elim (worker_at c.workers i) [
  | none ↦ c
  | some w ↦ moved c i (advance c w code a)
]

-- `releaseInbound`, which is the last that a worker does for a request.
unfoldable pub release_inbound : Connection → ℕ → Connection
release_inbound c i = elim (worker_at c.workers i) [
  | none ↦ c
  | some w ↦ elim w.phase [
    | forgotten ↦ record c {
      workers = free_worker c.workers i;
      inbound_bytes = c.inbound_bytes - message_memory_bytes w.request.message;
    }
    | _ ↦ c
  ]
]

-- What the reader reads, with the key of an id, a frame that it refuses and answers, and what the goroutines do. The reader waits behind
-- `exit`, which only rules out some of the orders.
pub data Event : Type 0 where
  request : Message → Option Bytes → Attempt → Event
  unreadable : Bytes → ℤ → Attempt → Event
  notification : Message → Event
  cancel_key : Bytes → Event
  end_of_input : Event
  input_fails : Event
  stop : Event
  notification_taken : Event
  notification_closed : Event
  job_taken : Event
  worked : ℕ → Option ℤ → Attempt → Event
  released : ℕ → Event

unfoldable pub step : Connection → Event → Connection
step c (request m key a) = if c.reading then receive c m key a else c
step c (unreadable id code a) = if c.reading then respond c id (some code) a else c
step c (notification m) = if c.reading then notify c m else c
step c (cancel_key key) = if c.reading then cancel_where (same key) c else c
step c end_of_input = if c.reading then finish c false else c
step c input_fails = if c.reading then finish c true else c
step c stop = cancel_where (holds c.cancels) c
step c notification_taken = take_notification c
step c notification_closed = close_notification c
step c job_taken = take_job c
step c (worked i code a) = work c i code a
step c (released i) = release_inbound c i

unfoldable pub run : Connection → List Event → Connection
run c [] = c
run c (e ∷ es) = run (step c e) es
