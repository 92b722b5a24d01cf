-- ===== src/Rpc/Inbound/Barrier.antt =====
-- internal/jsonrpc/conn.go: the channels that are closed are those of the notifications that are handled.
use kotlsp.Prelude.{
  suc, ◌+◌, ◌-◌, ◌≡◌, refl, sym, ap, subst, ◌∙◌, Bool, true, false, ◌||◌, List, [], ◌∷◌, Option,
  none, some, Bytes, arith, ltb, leb, ◌==◌, length, ℤ, Bool-cases, Option-cases, inl, inr,
}
use kotlsp.Rpc.{Message, message_memory_bytes, invalid_request}
use kotlsp.Rpc.Inbound.{
  InboundRequest, Worker, waiting, Connection, Attempt, sends, respond, holds, cancel_request,
  cancel_worker, cancel_where, max_inbound_request_bytes, max_queued_inbound_requests,
  max_concurrent_inbound_requests,
}
use kotlsp.Rpc.Inbound.Run.{
  receive, finish, notify, take_notification, close_notification, take_job,
}
use kotlsp.Rpc.Inbound.Totals.{total, total-append}
use kotlsp.Rpc.Queue.{
  QueuedNotification, push, pop, close, max_queued_notifications, max_queued_notification_bytes,
}
use kotlsp.Rpc.Inbound.Log.{
  count_handled, count_handled-handled, IsOrdered-handled, Follow, Follow-append, live_job,
  live_worker,
}
use kotlsp.Rpc.Inbound.Promise.{
  Current, Inv, live-cancelled, live-dead, taken, total-map_le, total-map_zero, untouched-Inv, view,
}

module _ (c : Connection) (v : Inv c) where
  -- A step that leaves the jobs and the workers alone as well.
  same_Inv : (d : Connection) → view d ≡ view c → d.jobs ≡ c.jobs → d.workers ≡ c.workers → Inv d
  same_Inv d u j w = untouched-Inv c d u (λ s. rw (j, w) (v.stopped s)) v

  pub respond-Inv : (id : Bytes) (code : Option ℤ) (a : Attempt) → Inv (respond c id code a)
  unfolding respond
  respond-Inv id code a = elim (Bool-cases (sends a)) [
    | inl q ↦ simp (respond, q) (same_Inv _ refl refl refl)
    | inr q ↦ simp (respond, q) (same_Inv _ refl refl refl)
  ]

  going_on : c.reading ≡ true → c.stopped ≡ true → ⊥
  going_on r s = let q : true ≡ false = sym r ∙ v.silent s in absurd (ground arith)

  pub receive-Inv :
      (m : Message) (key : Option Bytes) (t : Attempt) → c.reading ≡ true → Inv (receive c m key t)
  unfolding receive
  receive-Inv m none t r = respond-Inv [] (some invalid_request) t
  receive-Inv m (some key) t r = elim (Bool-cases (holds c.cancels key)) [
    | inl a ↦ simp (receive, a) (respond-Inv _ _ t)
    | inr a ↦
        elim (Bool-cases
          (ltb (max_inbound_request_bytes - c.inbound_bytes) (message_memory_bytes m))) [
            | inl b ↦ simp (receive, a, b) (respond-Inv _ _ t)
            | inr b ↦ elim (Bool-cases (leb max_queued_inbound_requests (length c.jobs))) [
              | inl l ↦ simp (receive, a, b, l) (respond-Inv _ _ t)
              | inr l ↦
                  simp (receive, a, b, l) (untouched-Inv c _ refl (λ s. absurd (going_on r s)) v)
            ]
          ]
  ]

  pub cancel_where-Inv : (p : Bytes → Bool) → Inv (cancel_where p c)
  unfolding cancel_where
  cancel_where-Inv p =
      untouched-Inv c _ refl
        (λ s. omega (
          arith,
          v.stopped s,
          total-map_le live_job (cancel_request p) c.jobs (λ r. live-cancelled r (p r.key)),
          total-map_le live_worker (cancel_worker p) c.workers
              (λ w. live-cancelled w.request (p w.request.key)),
        ))
        v

  pub finish-Inv : (drop : Bool) → Inv (finish c drop)
  unfolding finish close cancel_where
  finish-Inv false = record {
    ordered = v.ordered;
    current = v.current;
    barrier = v.barrier;
    ongoing = λ s. let o = v.ongoing s in record { follow = o.follow; done = o.done };
    stopped = v.stopped;
    silent = λ s. refl;
  }
  finish-Inv true = record {
    ordered = v.ordered;
    current = v.current;
    barrier = v.barrier;
    ongoing = λ s. absurd (ground arith);
    stopped = λ s. omega (
      arith,
      total-map_zero live_job (cancel_request (λ key. true)) c.jobs live-dead,
      total-map_zero live_worker (cancel_worker (λ key. true)) c.workers (λ w. live-dead w.request),
    );
    silent = λ s. refl;
  }

  pub notify-Inv : (m : Message) → c.reading ≡ true → Inv (notify c m)
  unfolding notify push
  notify-Inv m r =
      let q = c.notifications in
      elim (Bool-cases (
        q.closed
        || leb max_queued_notifications (length q.messages)
        || ltb (max_queued_notification_bytes - q.bytes) (message_memory_bytes m))) [
          | inl e ↦ simp (notify, push, e) (finish-Inv true)
          | inr e ↦
              simp (notify, push, e)
                (record {
                  ordered = v.ordered;
                  current = v.current;
                  barrier = refl;
                  ongoing = λ s.
                      let o = v.ongoing s in
                      record {
                        follow = Follow-append _ q.messages q.made m o.follow;
                        done = o.done;
                      };
                  stopped = v.stopped;
                  silent = v.silent;
                })
        ]

  rest-Follow :
      (n : QueuedNotification) (rest : List QueuedNotification)
      → c.notifying ≡ none
      → c.notifications.messages ≡ n ∷ rest
      → c.stopped ≡ false
      → (n.done ≡ suc (count_handled c.log))
        × Follow (count_handled c.log + 1) rest c.notifications.made
  rest-Follow n rest e q s =
      let k : count_handled c.log + taken c.notifying ≡ count_handled c.log =
        ap (λ x. count_handled c.log + taken x) e ∙ omega arith in
      let f : Follow (count_handled c.log) (n ∷ rest) c.notifications.made =
        subst (λ k. Follow k (n ∷ rest) c.notifications.made) k
          (subst (λ ms. Follow (count_handled c.log + taken c.notifying) ms c.notifications.made) q
            (v.ongoing s).follow) in
      let l : suc (count_handled c.log) ≡ count_handled c.log + 1 = omega arith in
      (f.0, subst (λ k. Follow k rest c.notifications.made) l f.1)

  pub take_notification-Inv : Inv (take_notification c)
  unfolding take_notification pop
  take_notification-Inv = elim (Option-cases c.notifying) [
    | inr (n, e) ↦ simp (take_notification, e) v
    | inl e ↦ first e c.notifications.messages refl
  ]
    where
      first :
          c.notifying ≡ none
          → (ms : List QueuedNotification) → c.notifications.messages ≡ ms
          → Inv (take_notification c)
      first e [] q = elim (Bool-cases c.notifications.closed) [
        | inl k ↦ simp (take_notification, pop, e, q, k) v
        | inr k ↦ simp (take_notification, pop, e, q, k) v
      ]
      first e (n ∷ rest) q = elim (Bool-cases c.stopped) [
        | inl s ↦
            simp (take_notification, pop, e, q, s)
              (record {
                ordered = v.ordered;
                current = tt;
                barrier = v.barrier;
                ongoing = λ t. absurd (ground arith);
                stopped = λ t. v.stopped s;
                silent = λ t. v.silent s;
              })
        | inr s ↦
            simp (take_notification, pop, e, q, s)
              (record {
                ordered = v.ordered;
                current = (rest-Follow n rest e q s).0;
                barrier = v.barrier;
                ongoing = λ t.
                    let (d, f) = rest-Follow n rest e q s in
                    record { follow = f; done = (v.ongoing s).done };
                stopped = λ t. absurd (ground arith);
                silent = λ t. absurd (ground arith);
              })
      ]

  pub close_notification-Inv : Inv (close_notification c)
  unfolding close_notification
  close_notification-Inv = elim (Option-cases c.notifying) [
    | inl e ↦ simp (close_notification, e) v
    | inr (n, e) ↦
        let k = count_handled-handled c.log n.done in
        let d : n.done ≡ suc (count_handled c.log) =
          subst (Current (count_handled c.log)) e v.current in
        simp (close_notification, e)
          (record {
            ordered = IsOrdered-handled 0 c.log n.done v.ordered (omega arith);
            current = tt;
            barrier = v.barrier;
            ongoing = λ s.
                let o = v.ongoing s in
                let t = ap taken e in
                record {
                  follow =
                      subst (λ i. Follow i c.notifications.messages c.notifications.made)
                        (omega arith) o.follow;
                  done = λ channel h. elim (Bool-cases (n.done == channel)) [
                    | inl z ↦ ground arith
                    | inr z ↦ let l = o.done channel (ground arith) in omega arith
                  ];
                };
            stopped = v.stopped;
            silent = v.silent;
          })
  ]

  pub take_job-Inv : Inv (take_job c)
  unfolding take_job
  take_job-Inv = first c.jobs refl
    where
      first : (jobs : List InboundRequest) → c.jobs ≡ jobs → Inv (take_job c)
      first [] e = simp (take_job, e) v
      first (r ∷ rest) e =
          elim (Bool-cases (leb max_concurrent_inbound_requests (length c.workers))) [
            | inl full ↦ simp (take_job, e, full) v
            | inr full ↦
                let w : Worker = record { request = r; phase = waiting } in
                let j : total live_job c.jobs ≡ live_job r + total live_job rest =
                  ap (total live_job) e in
                let t = total-append live_worker c.workers (w ∷ []) in
                simp (take_job, e, full)
                  (untouched-Inv c _ refl (λ s. omega (arith, v.stopped s)) v)
          ]
