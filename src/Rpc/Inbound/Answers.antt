-- ===== src/Rpc/Inbound/Answers.antt =====
-- internal/jsonrpc/conn.go: the calls of `respond` for requests, and the responses that are written.
use kotlsp.Prelude.{
  ℕ, ◌+◌, ◌-◌, ◌≡◌, refl, ap, Bool, true, false, List, [], ◌∷◌, Option, none, some, Bytes, same,
  if◌then◌else◌, arith, ltb, leb, length, ℤ, Bool-cases, Option-cases, inl, inr,
}
use kotlsp.Rpc.{Message, message_memory_bytes, invalid_request, internal_error}
use kotlsp.Rpc.Inbound.{
  InboundRequest, Worker, Phase, waiting, replying, answered, forgotten, Response, Connection,
  Attempt, sends, respond, initial, holds, worker_at, free_worker, cancel_request, cancel_worker,
  cancel_where, max_inbound_request_bytes, max_queued_inbound_requests,
  max_concurrent_inbound_requests,
}
use kotlsp.Rpc.Inbound.Run.{
  receive, finish, notify, take_notification, close_notification, take_job, advance, work,
  release_inbound, Event, request, unreadable, notification, cancel_key, end_of_input, input_fails,
  stop, notification_taken, notification_closed, job_taken, worked, released, step, run,
}
use kotlsp.Rpc.Inbound.Totals.{total, total-append, total-map, total-set, total-free}
use kotlsp.Rpc.Queue.{push, Popped, popped, waits, ended, pop}

abbrev pub one_if : Bool → ℕ
one_if b = if b then 1 else 0

module _ (p : Bytes → Bool) where
  abbrev pub of_job : InboundRequest → ℕ
  of_job r = one_if (p r.message.id)

  -- A worker that has not answered yet.
  abbrev pub of_worker : Worker → ℕ
  of_worker w = elim w.phase [
    | waiting ↦ of_job w.request
    | replying code ↦ of_job w.request
    | answered ↦ 0
    | forgotten ↦ 0
  ]

  abbrev pub of_response : Response → ℕ
  of_response r = one_if (p r.id)

  -- The requests that are still to be answered, and the responses, whose id passes a test.
  abbrev pub pending : Connection → ℕ
  pending c = total of_job c.jobs + total of_worker c.workers

  abbrev pub answers : Connection → ℕ
  answers c = total of_response c.responses

  -- The responses that `write` has refused.
  abbrev pub failed : Connection → ℕ
  failed c = total of_response c.unsent

  -- The id of the response to a request: an id that is not valid is answered without one. A frame
  -- that is refused is answered as well.
  abbrev pub asked : Event → ℕ
  asked (request m (some key) a) = one_if (p m.id)
  asked (request m none a) = one_if (p [])
  asked (unreadable id code a) = one_if (p id)
  asked _ = 0

  -- The requests and the refused frames that the reader reads in a run.
  abbrev pub all_asked : Connection → List Event → ℕ
  all_asked c [] = 0
  all_asked c (e ∷ es) = (if c.reading then asked e else 0) + all_asked (step c e) es

  abbrev Grows : Connection → Connection → ℕ → Type 0
  Grows c d n = pending d + answers d + failed d ≡ n + (pending c + answers c + failed c)

  refused :
      (c : Connection) (id : Bytes) (code : Option ℤ) (a : Attempt)
      → Grows c (respond c id code a) (one_if (p id))
  unfolding respond
  refused c id code a =
      let r : Response = record { id = id; code = code } in
      elim (Bool-cases (sends a)) [
        | inl q ↦
            let t = total-append of_response c.responses (r ∷ []) in simp (respond, q) (omega arith)
        | inr q ↦
            let t = total-append of_response c.unsent (r ∷ []) in simp (respond, q) (omega arith)
      ]

  receive-Grows :
      (c : Connection) (m : Message) (key : Option Bytes) (t : Attempt)
      → Grows c (receive c m key t) (asked (request m key t))
  unfolding receive
  receive-Grows c m none t = refused c [] (some invalid_request) t
  receive-Grows c m (some key) t = elim (Bool-cases (holds c.cancels key)) [
    | inl a ↦ simp (receive, a) (refused c m.id (some invalid_request) t)
    | inr a ↦
        elim (Bool-cases
          (ltb (max_inbound_request_bytes - c.inbound_bytes) (message_memory_bytes m))) [
            | inl b ↦ simp (receive, a, b) (refused c m.id (some internal_error) t)
            | inr b ↦ elim (Bool-cases (leb max_queued_inbound_requests (length c.jobs))) [
              | inl l ↦ simp (receive, a, b, l) (refused c m.id (some internal_error) t)
              | inr l ↦
                  let r : InboundRequest = record {
                    message = m;
                    cancelled = false;
                    key = key;
                    after_notifications = c.barrier;
                  } in
                  let n = total-append of_job c.jobs (r ∷ []) in
                  simp (receive, a, b, l) (omega arith)
            ]
          ]
  ]

  cancel_where-Grows : (q : Bytes → Bool) (c : Connection) → Grows c (cancel_where q c) 0
  unfolding cancel_where
  cancel_where-Grows q c = omega (
    arith,
    total-map of_job (cancel_request q) c.jobs (λ r. refl),
    total-map of_worker (cancel_worker q) c.workers (λ w. refl),
  )

  finish-Grows : (c : Connection) (drop : Bool) → Grows c (finish c drop) 0
  unfolding finish
  finish-Grows c false = omega arith
  finish-Grows c true = cancel_where-Grows (λ key. true) c

  notify-Grows : (c : Connection) (m : Message) → Grows c (notify c m) 0
  unfolding notify
  notify-Grows c m = elim (Option-cases (push c.notifications m).1) [
    | inl e ↦ simp (notify, e) (finish-Grows c true)
    | inr (made, e) ↦ simp (notify, e) (omega arith)
  ]

  popped-Grows :
      (c : Connection) (result : Popped)
      → Grows c
          (elim result [
            | popped n ↦
                if c.stopped
                then record c { notifications = (pop c.notifications).0; done = n.done ∷ c.done }
                else record c { notifications = (pop c.notifications).0; notifying = some n }
            | _ ↦ c
          ])
          0
  popped-Grows c waits = omega arith
  popped-Grows c ended = omega arith
  popped-Grows c (popped n) = elim (Bool-cases c.stopped) [
    | inl s ↦ simp s (omega arith)
    | inr s ↦ simp s (omega arith)
  ]

  take_notification-Grows : (c : Connection) → Grows c (take_notification c) 0
  unfolding take_notification
  take_notification-Grows c = elim (Option-cases c.notifying) [
    | inr (n, e) ↦ simp (take_notification, e) (omega arith)
    | inl e ↦ simp (take_notification, e) (popped-Grows c (pop c.notifications).1)
  ]

  close_notification-Grows : (c : Connection) → Grows c (close_notification c) 0
  unfolding close_notification
  close_notification-Grows c = elim (Option-cases c.notifying) [
    | inl e ↦ simp (close_notification, e) (omega arith)
    | inr (n, e) ↦ simp (close_notification, e) (omega arith)
  ]

  take_job-Grows : (c : Connection) → Grows c (take_job c) 0
  unfolding take_job
  take_job-Grows c = first c.jobs refl
    where
      first : (jobs : List InboundRequest) → c.jobs ≡ jobs → Grows c (take_job c) 0
      first [] e = simp (take_job, e) (omega arith)
      first (r ∷ rest) e =
          elim (Bool-cases (leb max_concurrent_inbound_requests (length c.workers))) [
            | inl full ↦ simp (take_job, full, e) (let j = ap (total of_job) e in omega arith)
            | inr full ↦
                let v : Worker = record { request = r; phase = waiting } in
                let j : total of_job c.jobs ≡ of_job r + total of_job rest = ap (total of_job) e in
                let t = total-append of_worker c.workers (v ∷ []) in
                simp (take_job, e, full) (omega arith)
          ]

  advance_phase :
      (c : Connection) (r : InboundRequest) (phase : Phase) (code : Option ℤ) (a : Attempt)
      → let w : Worker = record { request = r; phase = phase } in
        of_worker (advance c w code a).worker
          + total of_response (advance c w code a).responses
          + total of_response (advance c w code a).unsent
        ≡ of_worker w
  unfolding advance
  advance_phase c r waiting code a = ground arith
  advance_phase c r (replying reply) code a = elim (Bool-cases (sends a)) [
    | inl q ↦ simp q (omega arith)
    | inr q ↦ simp q (omega arith)
  ]
  advance_phase c r answered code a = omega arith
  advance_phase c r forgotten code a = omega arith

  work-Grows :
      (c : Connection) (i : ℕ) (code : Option ℤ) (a : Attempt) → Grows c (work c i code a) 0
  unfolding work
  work-Grows c i code t = elim (Option-cases (worker_at c.workers i)) [
    | inl e ↦ simp (work, e) (omega arith)
    | inr (v, e) ↦
        let a = advance_phase c v.request v.phase code t in
        let s = total-set of_worker c.workers i v (advance c v code t).worker e in
        let u = total-append of_response c.responses (advance c v code t).responses in
        let f = total-append of_response c.unsent (advance c v code t).unsent in
        simp (work, e) (omega arith)
  ]

  freed-Grows :
      (c : Connection) (i : ℕ) (r : InboundRequest) (phase : Phase)
      → worker_at c.workers i ≡ some (record { request = r; phase = phase })
      → Grows c
          (elim phase [
            | forgotten ↦ record c {
              workers = free_worker c.workers i;
              inbound_bytes = c.inbound_bytes - message_memory_bytes r.message;
            }
            | _ ↦ c
          ])
          0
  freed-Grows c i r waiting e = omega arith
  freed-Grows c i r (replying code) e = omega arith
  freed-Grows c i r answered e = omega arith
  freed-Grows c i r forgotten e = omega (arith, total-free of_worker c.workers i _ e)

  release_inbound-Grows : (c : Connection) (i : ℕ) → Grows c (release_inbound c i) 0
  unfolding release_inbound
  release_inbound-Grows c i = elim (Option-cases (worker_at c.workers i)) [
    | inl e ↦ simp (release_inbound, e) (omega arith)
    | inr (v, e) ↦ simp (release_inbound, e) (freed-Grows c i v.request v.phase e)
  ]

  while_reading :
      (c d : Connection) (n : ℕ)
      → Grows c d n
      → (b : Bool) → Grows c (if b then d else c) (if b then n else 0)
  while_reading c d n g true = g
  while_reading c d n g false = omega arith

  nothing_asked : (c d : Connection) → Grows c d 0 → (b : Bool) → Grows c d (if b then 0 else 0)
  nothing_asked c d g true = g
  nothing_asked c d g false = g

  step-Grows : (c : Connection) (e : Event) → Grows c (step c e) (if c.reading then asked e else 0)
  unfolding step
  step-Grows c (request m key a) =
      while_reading c (receive c m key a) _ (receive-Grows c m key a) c.reading
  step-Grows c (unreadable id code a) =
      while_reading c (respond c id (some code) a) _ (refused c id (some code) a) c.reading
  step-Grows c (notification m) = while_reading c (notify c m) _ (notify-Grows c m) c.reading
  step-Grows c (cancel_key key) =
      while_reading c (cancel_where (same key) c) _ (cancel_where-Grows (same key) c) c.reading
  step-Grows c end_of_input = while_reading c (finish c false) _ (finish-Grows c false) c.reading
  step-Grows c input_fails = while_reading c (finish c true) _ (finish-Grows c true) c.reading
  step-Grows c stop =
      nothing_asked c (cancel_where (holds c.cancels) c) (cancel_where-Grows (holds c.cancels) c)
        c.reading
  step-Grows c notification_taken =
      nothing_asked c (take_notification c) (take_notification-Grows c) c.reading
  step-Grows c notification_closed =
      nothing_asked c (close_notification c) (close_notification-Grows c) c.reading
  step-Grows c job_taken = nothing_asked c (take_job c) (take_job-Grows c) c.reading
  step-Grows c (worked i code a) =
      nothing_asked c (work c i code a) (work-Grows c i code a) c.reading
  step-Grows c (released i) =
      nothing_asked c (release_inbound c i) (release_inbound-Grows c i) c.reading

  run-Grows : (c : Connection) (es : List Event) → Grows c (run c es) (all_asked c es)
  unfolding run
  run-Grows c [] = omega arith
  run-Grows c (e ∷ es) = omega (arith, step-Grows c e, run-Grows (step c e) es)

-- In every order of events, and for every test of ids: the responses that are written, those that
-- `write` refuses and the requests that are still to be answered are as many as the requests and
-- refused frames that were read. So each is answered once, unless the write of its answer fails.
pub run-answers :
    (p : Bytes → Bool) (es : List Event)
    → answers p (run initial es) + failed p (run initial es) + pending p (run initial es)
      ≡ all_asked p initial es
run-answers p es = let g = run-Grows p initial es in omega arith
