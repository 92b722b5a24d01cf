-- ===== src/Rpc/Inbound/Starts.antt =====
-- internal/jsonrpc/conn.go: the requests that are started, and those that were read.
use kotlsp.Prelude.{
  ℕ, ◌+◌, ◌-◌, ◌≤◌, ◌≡◌, refl, ap, Bool, true, false, List, [], ◌∷◌, Option, none, some, Bytes,
  same, if◌then◌else◌, arith, ltb, leb, length, ℤ, Bool-cases, Option-cases, inl, inr,
}
use kotlsp.Rpc.{Message, message_memory_bytes, invalid_request, internal_error}
use kotlsp.Rpc.Inbound.{
  InboundRequest, Worker, Phase, waiting, replying, answered, forgotten, Attempt, sends, respond,
  Entry, handled, begun, Connection, initial, holds, worker_at, free_worker, cancel_request,
  cancel_worker, cancel_where, closed_channel, max_inbound_request_bytes,
  max_queued_inbound_requests, max_concurrent_inbound_requests,
}
use kotlsp.Rpc.Inbound.Run.{
  receive, finish, notify, take_notification, close_notification, take_job, advance, work,
  release_inbound, Event, request, unreadable, notification, cancel_key, end_of_input, input_fails,
  stop, notification_taken, notification_closed, job_taken, worked, released, step, run,
}
use kotlsp.Rpc.Inbound.Totals.{total, total-append, total-map, total-set, total-free}
use kotlsp.Rpc.Inbound.Log.{IsOrdered}
use kotlsp.Rpc.Inbound.Promise.{Inv}
use kotlsp.Rpc.Inbound.Order.{initial-Inv, step-Inv, run-Inv}
use kotlsp.Rpc.Inbound.Answers.{one_if}
use kotlsp.Rpc.Queue.{push, Popped, popped, waits, ended, pop}
use kotlsp.Rpc.Inbound.Made.{accepted, step_made}

-- A test of a message and of a number of notifications.
module _ (p : Message → ℕ → Bool) where
  abbrev of_job : InboundRequest → ℕ
  of_job r = one_if (p r.message r.after_notifications)

  -- A worker that has not started its request.
  abbrev of_worker : Worker → ℕ
  of_worker w = elim w.phase [
    | waiting ↦ of_job w.request
    | replying code ↦ 0
    | answered ↦ 0
    | forgotten ↦ 0
  ]

  abbrev of_entry : Entry → ℕ
  of_entry (handled channel) = 0
  of_entry (begun m after) = one_if (p m after)

  abbrev held : Connection → ℕ
  held c = total of_job c.jobs + total of_worker c.workers

  -- The starts that pass the test.
  abbrev pub starts : Connection → ℕ
  starts c = total of_entry c.log

  -- A request that is read behind `n` notifications.
  abbrev pub read_with : ℕ → Event → ℕ
  read_with n (request m key a) = one_if (p m n)
  read_with n _ = 0

  -- The readings that pass the test, of a run that begins behind `n` accepted notifications.
  abbrev pub readings : ℕ → Connection → List Event → ℕ
  readings n c [] = 0
  readings n c (e ∷ es) =
      (if c.reading then read_with n e else 0)
      + readings (n + (if c.reading then accepted c e else 0)) (step c e) es

  abbrev Rises : Connection → Connection → ℕ → Type 0
  Rises c d n = held d + starts d ≤ n + (held c + starts c)

  respond-Rises :
      (c : Connection) (id : Bytes) (code : Option ℤ) (a : Attempt) (n : ℕ)
      → Rises c (respond c id code a) n
  unfolding respond
  respond-Rises c id code a n = elim (Bool-cases (sends a)) [
    | inl q ↦ simp (respond, q) (omega arith)
    | inr q ↦ simp (respond, q) (omega arith)
  ]

  receive-Rises :
      (c : Connection) (m : Message) (key : Option Bytes) (t : Attempt)
      → c.barrier ≡ c.notifications.made
      → Rises c (receive c m key t) (one_if (p m c.notifications.made))
  unfolding receive
  receive-Rises c m none t b = respond-Rises c [] (some invalid_request) t _
  receive-Rises c m (some key) t b = elim (Bool-cases (holds c.cancels key)) [
    | inl a ↦ simp (receive, a) (respond-Rises c m.id (some invalid_request) t _)
    | inr a ↦
        elim (Bool-cases
          (ltb (max_inbound_request_bytes - c.inbound_bytes) (message_memory_bytes m))) [
            | inl k ↦ simp (receive, a, k) (respond-Rises c m.id (some internal_error) t _)
            | inr k ↦ elim (Bool-cases (leb max_queued_inbound_requests (length c.jobs))) [
              | inl l ↦ simp (receive, a, k, l) (respond-Rises c m.id (some internal_error) t _)
              | inr l ↦
                  let r : InboundRequest = record {
                    message = m;
                    cancelled = false;
                    key = key;
                    after_notifications = c.barrier;
                  } in
                  let n = total-append of_job c.jobs (r ∷ []) in
                  let e : of_job r ≡ one_if (p m c.notifications.made) =
                    ap (λ k. one_if (p m k)) b in
                  simp (receive, a, k, l) (omega arith)
            ]
          ]
  ]

  cancel_where-Rises : (q : Bytes → Bool) (c : Connection) → Rises c (cancel_where q c) 0
  unfolding cancel_where
  cancel_where-Rises q c = omega (
    arith,
    total-map of_job (cancel_request q) c.jobs (λ r. refl),
    total-map of_worker (cancel_worker q) c.workers (λ w. refl),
  )

  finish-Rises : (c : Connection) (drop : Bool) → Rises c (finish c drop) 0
  unfolding finish
  finish-Rises c false = omega arith
  finish-Rises c true = cancel_where-Rises (λ key. true) c

  notify-Rises : (c : Connection) (m : Message) → Rises c (notify c m) 0
  unfolding notify
  notify-Rises c m = elim (Option-cases (push c.notifications m).1) [
    | inl e ↦ simp (notify, e) (finish-Rises c true)
    | inr (made, e) ↦ simp (notify, e) (omega arith)
  ]

  popped-Rises :
      (c : Connection) (result : Popped)
      → Rises c
          (elim result [
            | popped n ↦
                if c.stopped
                then record c { notifications = (pop c.notifications).0; done = n.done ∷ c.done }
                else record c { notifications = (pop c.notifications).0; notifying = some n }
            | _ ↦ c
          ])
          0
  popped-Rises c waits = omega arith
  popped-Rises c ended = omega arith
  popped-Rises c (popped n) = elim (Bool-cases c.stopped) [
    | inl s ↦ simp s (omega arith)
    | inr s ↦ simp s (omega arith)
  ]

  take_notification-Rises : (c : Connection) → Rises c (take_notification c) 0
  unfolding take_notification
  take_notification-Rises c = elim (Option-cases c.notifying) [
    | inr (n, e) ↦ simp (take_notification, e) (omega arith)
    | inl e ↦ simp (take_notification, e) (popped-Rises c (pop c.notifications).1)
  ]

  close_notification-Rises : (c : Connection) → Rises c (close_notification c) 0
  unfolding close_notification
  close_notification-Rises c = elim (Option-cases c.notifying) [
    | inl e ↦ simp (close_notification, e) (omega arith)
    | inr (n, e) ↦
        let t = total-append of_entry c.log (handled n.done ∷ []) in
        simp (close_notification, e) (omega arith)
  ]

  take_job-Rises : (c : Connection) → Rises c (take_job c) 0
  unfolding take_job
  take_job-Rises c = first c.jobs refl
    where
      first : (jobs : List InboundRequest) → c.jobs ≡ jobs → Rises c (take_job c) 0
      first [] e = simp (take_job, e) (omega arith)
      first (r ∷ rest) e =
          elim (Bool-cases (leb max_concurrent_inbound_requests (length c.workers))) [
            | inl full ↦ simp (take_job, full, e) (let j = ap (total of_job) e in omega arith)
            | inr full ↦
                let v : Worker = record { request = r; phase = waiting } in
                let j : total of_job c.jobs ≡ of_job r + total of_job rest = ap (total of_job) e in
                let t = total-append of_worker c.workers (v ∷ []) in
                simp (take_job, e, full) (omega arith)
          ]

  advance_starts :
      (c : Connection) (r : InboundRequest) (phase : Phase) (code : Option ℤ) (a : Attempt)
      → let w : Worker = record { request = r; phase = phase } in
        of_worker (advance c w code a).worker + total of_entry (advance c w code a).log
        ≤ of_worker w
  unfolding advance
  advance_starts c r waiting code a = elim (Bool-cases r.cancelled) [
    | inl q ↦ simp q (omega arith)
    | inr q ↦ elim (Bool-cases (closed_channel c.done r.after_notifications)) [
      | inl k ↦ simp (q, k) (omega arith)
      | inr k ↦ simp (q, k) (omega arith)
    ]
  ]
  advance_starts c r (replying reply) code a = omega arith
  advance_starts c r answered code a = omega arith
  advance_starts c r forgotten code a = omega arith

  work-Rises :
      (c : Connection) (i : ℕ) (code : Option ℤ) (a : Attempt) → Rises c (work c i code a) 0
  unfolding work
  work-Rises c i code t = elim (Option-cases (worker_at c.workers i)) [
    | inl e ↦ simp (work, e) (omega arith)
    | inr (v, e) ↦
        let a = advance_starts c v.request v.phase code t in
        let s = total-set of_worker c.workers i v (advance c v code t).worker e in
        let u = total-append of_entry c.log (advance c v code t).log in simp (work, e) (omega arith)
  ]

  freed-Rises :
      (c : Connection) (i : ℕ) (r : InboundRequest) (phase : Phase)
      → worker_at c.workers i ≡ some (record { request = r; phase = phase })
      → Rises c
          (elim phase [
            | forgotten ↦ record c {
              workers = free_worker c.workers i;
              inbound_bytes = c.inbound_bytes - message_memory_bytes r.message;
            }
            | _ ↦ c
          ])
          0
  freed-Rises c i r waiting e = omega arith
  freed-Rises c i r (replying code) e = omega arith
  freed-Rises c i r answered e = omega arith
  freed-Rises c i r forgotten e = omega (arith, total-free of_worker c.workers i _ e)

  release_inbound-Rises : (c : Connection) (i : ℕ) → Rises c (release_inbound c i) 0
  unfolding release_inbound
  release_inbound-Rises c i = elim (Option-cases (worker_at c.workers i)) [
    | inl e ↦ simp (release_inbound, e) (omega arith)
    | inr (v, e) ↦ simp (release_inbound, e) (freed-Rises c i v.request v.phase e)
  ]

  while_reading :
      (c d : Connection) (n : ℕ)
      → Rises c d n
      → (b : Bool) → Rises c (if b then d else c) (if b then n else 0)
  while_reading c d n g true = g
  while_reading c d n g false = omega arith

  whatever : (c d : Connection) → Rises c d 0 → (b : Bool) → Rises c d (if b then 0 else 0)
  whatever c d g true = g
  whatever c d g false = g

  step-Rises :
      (c : Connection) (e : Event)
      → Inv c
      → Rises c (step c e) (if c.reading then read_with c.notifications.made e else 0)
  unfolding step
  step-Rises c (request m key a) v =
      while_reading c (receive c m key a) _ (receive-Rises c m key a v.barrier) c.reading
  step-Rises c (unreadable id code a) v =
      while_reading c (respond c id (some code) a) _ (respond-Rises c id (some code) a 0) c.reading
  step-Rises c (notification m) v = while_reading c (notify c m) _ (notify-Rises c m) c.reading
  step-Rises c (cancel_key key) v =
      while_reading c (cancel_where (same key) c) _ (cancel_where-Rises (same key) c) c.reading
  step-Rises c end_of_input v = while_reading c (finish c false) _ (finish-Rises c false) c.reading
  step-Rises c input_fails v = while_reading c (finish c true) _ (finish-Rises c true) c.reading
  step-Rises c stop v =
      whatever c (cancel_where (holds c.cancels) c) (cancel_where-Rises (holds c.cancels) c)
        c.reading
  step-Rises c notification_taken v =
      whatever c (take_notification c) (take_notification-Rises c) c.reading
  step-Rises c notification_closed v =
      whatever c (close_notification c) (close_notification-Rises c) c.reading
  step-Rises c job_taken v = whatever c (take_job c) (take_job-Rises c) c.reading
  step-Rises c (worked i code a) v = whatever c (work c i code a) (work-Rises c i code a) c.reading
  step-Rises c (released i) v =
      whatever c (release_inbound c i) (release_inbound-Rises c i) c.reading

  run-Rises :
      (c : Connection) (es : List Event)
      → Inv c
      → Rises c (run c es) (readings c.notifications.made c es)
  unfolding run
  run-Rises c [] v = omega arith
  run-Rises c (e ∷ es) v =
      let r = run-Rises (step c e) es (step-Inv c e v) in
      let k = ap (λ n. readings n (step c e) es) (step_made c e) in omega (arith, step-Rises c e v)

-- In every order of events, the notifications are handled in the order in which the queue accepted
-- them, none left out, and each start of a request stands behind as many of them as its entry says;
-- and for every test of a message and a number, the starts that pass it are no more than the times
-- that such a message was read behind that number of accepted notifications. So a request that is
-- read starts once at most, and behind all notifications accepted before it was read.
pub run-IsOrdered :
    (p : Message → ℕ → Bool) (es : List Event)
    → IsOrdered 0 (run initial es).log × (starts p (run initial es) ≤ readings p 0 initial es)
run-IsOrdered p es =
    let s = run-Rises p initial es initial-Inv in
    ((run-Inv initial es initial-Inv).ordered, omega arith)
