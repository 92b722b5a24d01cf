-- ===== src/Rpc/Inbound/Limits.antt =====
-- internal/jsonrpc/conn.go: the bytes, jobs and workers of a connection stay within their limits.
use kotlsp.Prelude.{
  ℕ, ◌+◌, ◌-◌, ◌≡◌, refl, ap, Bool, true, false, List, [], ◌∷◌, Option, some, same, if◌then◌else◌,
  arith, leb, length, ℤ, Bool-cases, Option-cases, inl, inr,
}
use kotlsp.Rpc.{message_memory_bytes}
use kotlsp.Rpc.Inbound.{
  InboundRequest, Worker, Phase, waiting, replying, answered, forgotten, Connection, Attempt,
  initial, holds, worker_at, free_worker, max_concurrent_inbound_requests,
}
use kotlsp.Rpc.Inbound.Run.{
  take_job, advance, work, release_inbound, Event, request, unreadable, notification, cancel_key,
  end_of_input, input_fails, stop, notification_taken, notification_closed, job_taken, worked,
  released, step, run,
}
use kotlsp.Rpc.Inbound.Totals.{total, total-append, total-set, total-free}
use kotlsp.Rpc.Inbound.Costs.{
  IsWithin, cancel_where-IsWithin, close_notification-IsWithin, finish-IsWithin, job_cost,
  length_total, notify-IsWithin, receive-IsWithin, respond-IsWithin, take_notification-IsWithin,
  worker_cost,
}

take_job-IsWithin : (c : Connection) → IsWithin c → IsWithin (take_job c)
unfolding take_job
take_job-IsWithin c w = first c.jobs refl
  where
    first : (jobs : List InboundRequest) → c.jobs ≡ jobs → IsWithin (take_job c)
    first [] e = simp (take_job, e) w
    first (r ∷ rest) e =
        elim (Bool-cases (leb max_concurrent_inbound_requests (length c.workers))) [
          | inl full ↦ simp (take_job, e, full) w
          | inr full ↦
              let v : Worker = record { request = r; phase = waiting } in
              let k = w.counted in
              let q = w.queued in
              let jc = ap (total job_cost) e in
              let jo : total (λ x. 1) c.jobs ≡ 1 + total (λ x. 1) rest = ap (total (λ x. 1)) e in
              let n = length_total c.workers in
              let tc = total-append worker_cost c.workers (v ∷ []) in
              let to = total-append (λ x. 1) c.workers (v ∷ []) in
              simp (take_job, e, full)
                (record {
                  counted = omega arith;
                  fits = w.fits;
                  queued = omega arith;
                  busy = ground arith;
                })
        ]

pub advance-message :
    (c : Connection) (w : Worker) (code : Option ℤ) (a : Attempt)
    → (advance c w code a).worker.request.message ≡ w.request.message
unfolding advance
advance-message c w code a = ground arith

work-IsWithin :
    (c : Connection) (i : ℕ) (code : Option ℤ) (a : Attempt)
    → IsWithin c
    → IsWithin (work c i code a)
unfolding work
work-IsWithin c i code a w = elim (Option-cases (worker_at c.workers i)) [
  | inl e ↦ simp (work, e) w
  | inr (v, e) ↦
      let k = w.counted in
      let b = w.busy in
      let m = ap message_memory_bytes (advance-message c v code a) in
      let tc = total-set worker_cost c.workers i v (advance c v code a).worker e in
      let to = total-set (λ x. 1) c.workers i v (advance c v code a).worker e in
      simp (work, e)
        (record { counted = omega arith; fits = w.fits; queued = w.queued; busy = omega arith })
]

freed_phase :
    (c : Connection) (i : ℕ) (v : Worker)
    → worker_at c.workers i ≡ some v
    → IsWithin c
    → (phase : Phase)
    → IsWithin (elim phase [
      | forgotten ↦ record c {
        workers = free_worker c.workers i;
        inbound_bytes = c.inbound_bytes - message_memory_bytes v.request.message;
      }
      | _ ↦ c
    ])
freed_phase c i v e w waiting = w
freed_phase c i v e w (replying code) = w
freed_phase c i v e w answered = w
freed_phase c i v e w forgotten =
    let k = w.counted in
    let f = w.fits in
    let b = w.busy in
    let tc = total-free worker_cost c.workers i v e in
    let to = total-free (λ x. 1) c.workers i v e in
    record { counted = omega arith; fits = omega arith; queued = w.queued; busy = omega arith }

release_inbound-IsWithin : (c : Connection) (i : ℕ) → IsWithin c → IsWithin (release_inbound c i)
unfolding release_inbound
release_inbound-IsWithin c i w = elim (Option-cases (worker_at c.workers i)) [
  | inl e ↦ simp (release_inbound, e) w
  | inr (v, e) ↦ simp (release_inbound, e) (freed_phase c i v e w v.phase)
]

-- What the reader does only while it reads.
while_reading :
    (c d : Connection) → IsWithin c → IsWithin d → (b : Bool) → IsWithin (if b then d else c)
while_reading c d w v true = v
while_reading c d w v false = w

step-IsWithin : (c : Connection) (e : Event) → IsWithin c → IsWithin (step c e)
unfolding step
step-IsWithin c (request m key a) w = while_reading c _ w (receive-IsWithin c m key a w) c.reading
step-IsWithin c (unreadable id code a) w =
    while_reading c _ w (respond-IsWithin c id (some code) a w) c.reading
step-IsWithin c (notification m) w = while_reading c _ w (notify-IsWithin c m w) c.reading
step-IsWithin c (cancel_key key) w =
    while_reading c _ w (cancel_where-IsWithin (same key) c w) c.reading
step-IsWithin c end_of_input w = while_reading c _ w (finish-IsWithin c false w) c.reading
step-IsWithin c input_fails w = while_reading c _ w (finish-IsWithin c true w) c.reading
step-IsWithin c stop w = cancel_where-IsWithin (holds c.cancels) c w
step-IsWithin c notification_taken w = take_notification-IsWithin c w
step-IsWithin c notification_closed w = close_notification-IsWithin c w
step-IsWithin c job_taken w = take_job-IsWithin c w
step-IsWithin c (worked i code a) w = work-IsWithin c i code a w
step-IsWithin c (released i) w = release_inbound-IsWithin c i w

run-keeps : (c : Connection) (es : List Event) → IsWithin c → IsWithin (run c es)
unfolding run
run-keeps c [] w = w
run-keeps c (e ∷ es) w = run-keeps (step c e) es (step-IsWithin c e w)

-- In every order of events the bytes that are reserved are those of the requests that wait for a worker
-- or have one, and they, the waiting requests and the workers stay within their limits.
pub run-IsWithin : (es : List Event) → IsWithin (run initial es)
run-IsWithin es =
    run-keeps initial es
      (record { counted = refl; fits = omega arith; queued = omega arith; busy = omega arith })
