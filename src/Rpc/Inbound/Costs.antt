-- ===== src/Rpc/Inbound/Costs.antt =====
-- internal/jsonrpc/conn.go: what requests cost, and what reading, cancelling and notifying do to it.
use kotlsp.Prelude.{
  ℕ, ◌+◌, ◌-◌, ◌≤◌, ◌≡◌, refl, sym, ap, ◌∙◌, Bool, true, false, List, [], ◌∷◌, Option, none, some,
  Bytes, if◌then◌else◌, arith, ltb, leb, length, ℤ, Bool-cases, Option-cases, inl, inr,
}
use kotlsp.Rpc.{Message, message_memory_bytes, invalid_request, internal_error}
use kotlsp.Rpc.Inbound.{
  InboundRequest, Worker, Connection, Attempt, sends, respond, holds, cancel_request, cancel_worker,
  cancel_where, max_inbound_request_bytes, max_queued_inbound_requests,
  max_concurrent_inbound_requests,
}
use kotlsp.Rpc.Inbound.Run.{receive, finish, notify, take_notification, close_notification}
use kotlsp.Rpc.Inbound.Totals.{total, total-append, total-map}
use kotlsp.Rpc.Queue.{push, Popped, popped, waits, ended, pop}

abbrev pub job_cost : InboundRequest → ℕ
job_cost r = message_memory_bytes r.message

abbrev pub worker_cost : Worker → ℕ
worker_cost w = job_cost w.request

-- The reserved bytes are those of the requests that wait or are worked on, and the limits hold.
pub record IsWithin (c : Connection) : Type 0 where
  pub counted : c.inbound_bytes ≡ total job_cost c.jobs + total worker_cost c.workers
  pub fits : c.inbound_bytes ≤ max_inbound_request_bytes
  pub queued : total (λ r. 1) c.jobs ≤ max_queued_inbound_requests
  pub busy : total (λ w. 1) c.workers ≤ max_concurrent_inbound_requests

pub length_total : {A : Type 0} (xs : List A) → length xs ≡ total (λ x. 1) xs
length_total [] = refl
length_total (x ∷ xs) = omega (arith, length_total xs)

-- The record looks at the jobs, the workers and the bytes only.
like :
    (c d : Connection)
    → d.inbound_bytes ≡ c.inbound_bytes
    → d.jobs ≡ c.jobs
    → d.workers ≡ c.workers
    → IsWithin c
    → IsWithin d
like c d b j k w = record {
  counted =
      b
      ∙ w.counted
      ∙ ap (λ x. total job_cost x + total worker_cost c.workers) (sym j)
      ∙ ap (λ x. total job_cost d.jobs + total worker_cost x) (sym k);
  fits = rw b w.fits;
  queued = rw j w.queued;
  busy = rw k w.busy;
}

pub respond-IsWithin :
    (c : Connection) (id : Bytes) (code : Option ℤ) (a : Attempt)
    → IsWithin c
    → IsWithin (respond c id code a)
unfolding respond
respond-IsWithin c id code a w = elim (Bool-cases (sends a)) [
  | inl q ↦ simp (respond, q) (like c _ refl refl refl w)
  | inr q ↦ simp (respond, q) (like c _ refl refl refl w)
]

pub receive-IsWithin :
    (c : Connection) (m : Message) (key : Option Bytes) (t : Attempt)
    → IsWithin c
    → IsWithin (receive c m key t)
unfolding receive
receive-IsWithin c m none t w = respond-IsWithin c [] (some invalid_request) t w
receive-IsWithin c m (some key) t w = elim (Bool-cases (holds c.cancels key)) [
  | inl a ↦ rw (receive, a) (respond-IsWithin c m.id (some invalid_request) t w)
  | inr a ↦
      elim (Bool-cases
        (ltb (max_inbound_request_bytes - c.inbound_bytes) (message_memory_bytes m))) [
          | inl b ↦ rw (receive, a, b) (respond-IsWithin c m.id (some internal_error) t w)
          | inr b ↦ elim (Bool-cases (leb max_queued_inbound_requests (length c.jobs))) [
            | inl l ↦ rw (receive, a, b, l) (respond-IsWithin c m.id (some internal_error) t w)
            | inr l ↦
                let r : InboundRequest = record {
                  message = m;
                  cancelled = false;
                  key = key;
                  after_notifications = c.barrier;
                } in
                let k = w.counted in
                let f = w.fits in
                let n = length_total c.jobs in
                let q = w.queued in
                let tc = total-append job_cost c.jobs (r ∷ []) in
                let to = total-append (λ x. 1) c.jobs (r ∷ []) in
                rw (receive, a, b, l)
                  (record {
                    counted = omega arith;
                    fits = ground arith;
                    queued = ground arith;
                    busy = w.busy;
                  })
          ]
        ]
]

pub cancel_where-IsWithin :
    (p : Bytes → Bool) (c : Connection) → IsWithin c → IsWithin (cancel_where p c)
unfolding cancel_where
cancel_where-IsWithin p c w =
    let k = w.counted in
    let q = w.queued in
    let b = w.busy in
    let jc = total-map job_cost (cancel_request p) c.jobs (λ r. refl) in
    let wc = total-map worker_cost (cancel_worker p) c.workers (λ r. refl) in
    let jo = total-map (λ x. 1) (cancel_request p) c.jobs (λ r. refl) in
    let wo = total-map (λ x. 1) (cancel_worker p) c.workers (λ r. refl) in
    record { counted = omega arith; fits = w.fits; queued = omega arith; busy = omega arith }

pub finish-IsWithin : (c : Connection) (drop : Bool) → IsWithin c → IsWithin (finish c drop)
unfolding finish
finish-IsWithin c false w = like c _ refl refl refl w
finish-IsWithin c true w =
    like (cancel_where (λ key. true) c) _ refl refl refl (cancel_where-IsWithin (λ key. true) c w)

pub notify-IsWithin : (c : Connection) (m : Message) → IsWithin c → IsWithin (notify c m)
unfolding notify
notify-IsWithin c m w = elim (Option-cases (push c.notifications m).1) [
  | inl e ↦ simp (notify, e) (finish-IsWithin c true w)
  | inr (made, e) ↦ simp (notify, e) (like c _ refl refl refl w)
]

pub take_notification-IsWithin : (c : Connection) → IsWithin c → IsWithin (take_notification c)
unfolding take_notification
take_notification-IsWithin c w = elim (Option-cases c.notifying) [
  | inr (n, e) ↦ simp (take_notification, e) w
  | inl e ↦ simp (take_notification, e) (after (pop c.notifications).1)
]
  where
    after :
        (result : Popped)
        → IsWithin (elim result [
          | popped n ↦
              if c.stopped
              then record c { notifications = (pop c.notifications).0; done = n.done ∷ c.done }
              else record c { notifications = (pop c.notifications).0; notifying = some n }
          | _ ↦ c
        ])
    after waits = w
    after ended = w
    after (popped n) = elim (Bool-cases c.stopped) [
      | inl s ↦ simp s (like c _ refl refl refl w)
      | inr s ↦ simp s (like c _ refl refl refl w)
    ]

pub close_notification-IsWithin : (c : Connection) → IsWithin c → IsWithin (close_notification c)
unfolding close_notification
close_notification-IsWithin c w = elim (Option-cases c.notifying) [
  | inl e ↦ simp (close_notification, e) w
  | inr (n, e) ↦ simp (close_notification, e) (like c _ refl refl refl w)
]
