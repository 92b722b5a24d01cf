-- ===== src/Rpc/Inbound/Order.antt =====
-- internal/jsonrpc/conn.go: a request is started behind the notifications that were read before it.
use kotlsp.Prelude.{
  ℕ, ◌+◌, ◌-◌, ◌≤◌, ◌≡◌, refl, sym, ap, subst, ◌∙◌, Bool, true, false, List, [], ◌∷◌, ◌++◌,
  append-nil, Option, some, same, if◌then◌else◌, arith, ◌==◌, ℤ, Bool-cases, Option-cases, inl, inr,
  ◌⊎◌,
}
use kotlsp.Rpc.{message_memory_bytes}
use kotlsp.Rpc.Inbound.{
  InboundRequest, Worker, Phase, waiting, replying, answered, forgotten, Entry, begun, Connection,
  Attempt, respond, initial, holds, worker_at, free_worker, cancel_where, closed_channel,
}
use kotlsp.Rpc.Inbound.Run.{
  receive, finish, notify, advance, work, release_inbound, Event, request, unreadable, notification,
  cancel_key, end_of_input, input_fails, stop, notification_taken, notification_closed, job_taken,
  worked, released, step, run,
}
use kotlsp.Rpc.Inbound.Totals.{total-set, total-free}
use kotlsp.Rpc.Inbound.Log.{count_handled-begun, IsOrdered-begun, Follow, live_job, live_worker}
use kotlsp.Rpc.Inbound.Promise.{view, Current, taken, Inv, untouched-Inv}
use kotlsp.Rpc.Inbound.Barrier.{
  respond-Inv, receive-Inv, cancel_where-Inv, finish-Inv, notify-Inv, take_notification-Inv,
  close_notification-Inv, take_job-Inv,
}

-- A worker that starts its request.
record Begins (c : Connection) (w : Worker) (log : List Entry) : Type 0 where
  entry : log ≡ begun w.request.message w.request.after_notifications ∷ []
  live : w.request.cancelled ≡ false
  behind : closed_channel c.done w.request.after_notifications ≡ true

advance_log :
    (c : Connection) (r : InboundRequest) (phase : Phase) (code : Option ℤ) (a : Attempt)
    → let w : Worker = record { request = r; phase = phase } in
      ((advance c w code a).log ≡ []) ⊎ Begins c w (advance c w code a).log
unfolding advance
advance_log c r waiting code a = elim (Bool-cases r.cancelled) [
  | inl q ↦ inl (simp q refl)
  | inr q ↦ elim (Bool-cases (closed_channel c.done r.after_notifications)) [
    | inl k ↦ inr (record { entry = simp (q, k) refl; live = q; behind = k })
    | inr k ↦ inl (simp (q, k) refl)
  ]
]
advance_log c r (replying reply) code a = inl refl
advance_log c r answered code a = inl refl
advance_log c r forgotten code a = inl refl

advance_live :
    (c : Connection) (r : InboundRequest) (phase : Phase) (code : Option ℤ) (a : Attempt)
    → live_worker (advance c (record { request = r; phase = phase }) code a).worker ≤ live_job r
unfolding advance
advance_live c r waiting code a = ground arith
advance_live c r (replying reply) code a = omega arith
advance_live c r answered code a = ground arith
advance_live c r forgotten code a = omega arith

work-Inv :
    (c : Connection) → Inv c → (i : ℕ) (code : Option ℤ) (a : Attempt) → Inv (work c i code a)
unfolding work
work-Inv c v i code a = elim (Option-cases (worker_at c.workers i)) [
  | inl e ↦ simp (work, e) v
  | inr (w, e) ↦
      let m = advance c w code a in
      let l = advance_live c w.request w.phase code a in
      let t = total-set live_worker c.workers i w m.worker e in
      let u = total-free live_worker c.workers i w e in
      simp (work, e)
        (elim (advance_log c w.request w.phase code a) [
          | inl q ↦
              untouched-Inv c _
                (ap (λ l. record (view c) { log = l }) (ap (◌++◌ c.log) q ∙ append-nil c.log))
                (λ s. omega (arith, v.stopped s)) v
          | inr b ↦ elim (Bool-cases c.stopped) [
            | inl s ↦
                let z = v.stopped s in
                let live : live_job w.request ≡ 1 = rw b.live refl in absurd (omega arith)
            | inr s ↦
                let o = v.ongoing s in
                let after = o.done w.request.after_notifications b.behind in
                let k = count_handled-begun c.log w.request.message w.request.after_notifications in
                rw (b.entry) (record {
                  ordered =
                      IsOrdered-begun 0 c.log w.request.message w.request.after_notifications
                        v.ordered (omega arith);
                  current = subst (λ n. Current n c.notifying) (sym k) v.current;
                  barrier = v.barrier;
                  ongoing = λ x. record {
                    follow =
                        subst
                          (λ n.
                            Follow (n + taken c.notifying) c.notifications.messages
                              c.notifications.made)
                          (sym k) o.follow;
                    done = λ ch h. omega (arith, o.done ch h);
                  };
                  stopped = λ x. absurd (let f : true ≡ false = sym x ∙ s in ground arith);
                  silent = v.silent;
                })
          ]
        ])
]

freed-Inv :
    (c : Connection) (v : Inv c) (i : ℕ) (w : Worker)
    → worker_at c.workers i ≡ some w
    → (phase : Phase)
    → Inv (elim phase [
      | forgotten ↦ record c {
        workers = free_worker c.workers i;
        inbound_bytes = c.inbound_bytes - message_memory_bytes w.request.message;
      }
      | _ ↦ c
    ])
freed-Inv c v i w e waiting = v
freed-Inv c v i w e (replying code) = v
freed-Inv c v i w e answered = v
freed-Inv c v i w e forgotten =
    let t = total-free live_worker c.workers i w e in
    untouched-Inv c _ refl (λ s. omega (arith, v.stopped s)) v

release_inbound-Inv : (c : Connection) → Inv c → (i : ℕ) → Inv (release_inbound c i)
unfolding release_inbound
release_inbound-Inv c v i = elim (Option-cases (worker_at c.workers i)) [
  | inl e ↦ simp (release_inbound, e) v
  | inr (w, e) ↦ simp (release_inbound, e) (freed-Inv c v i w e w.phase)
]

-- What the reader does only while it reads.
while_reading :
    (c d : Connection) → Inv c → (c.reading ≡ true → Inv d) → Inv (if c.reading then d else c)
while_reading c d v h = decided c.reading h
  where
    decided : (b : Bool) → (b ≡ true → Inv d) → Inv (if b then d else c)
    decided true k = k refl
    decided false k = v

pub step-Inv : (c : Connection) (e : Event) → Inv c → Inv (step c e)
unfolding step
step-Inv c (request m key a) v = while_reading c (receive c m key a) v (receive-Inv c v m key a)
step-Inv c (unreadable id code a) v =
    while_reading c (respond c id (some code) a) v (λ r. respond-Inv c v id (some code) a)
step-Inv c (notification m) v = while_reading c (notify c m) v (notify-Inv c v m)
step-Inv c (cancel_key key) v =
    while_reading c (cancel_where (same key) c) v (λ r. cancel_where-Inv c v (same key))
step-Inv c end_of_input v = while_reading c (finish c false) v (λ r. finish-Inv c v false)
step-Inv c input_fails v = while_reading c (finish c true) v (λ r. finish-Inv c v true)
step-Inv c stop v = cancel_where-Inv c v (holds c.cancels)
step-Inv c notification_taken v = take_notification-Inv c v
step-Inv c notification_closed v = close_notification-Inv c v
step-Inv c job_taken v = take_job-Inv c v
step-Inv c (worked i code a) v = work-Inv c v i code a
step-Inv c (released i) v = release_inbound-Inv c v i

pub initial-Inv : Inv initial
initial-Inv = record {
  ordered = tt;
  current = tt;
  barrier = refl;
  ongoing = λ s. record {
    follow = refl;
    done = λ channel h. elim (Bool-cases (0 == channel)) [
      | inl z ↦ ground arith
      | inr z ↦ absurd (ground arith)
    ];
  };
  stopped = λ s. refl;
  silent = λ s. absurd (ground arith);
}

pub run-Inv : (c : Connection) (es : List Event) → Inv c → Inv (run c es)
unfolding run
run-Inv c [] v = v
run-Inv c (e ∷ es) v = run-Inv (step c e) es (step-Inv c e v)
