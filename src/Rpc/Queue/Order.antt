-- ===== src/Rpc/Queue/Order.antt =====
-- internal/jsonrpc/conn.go: the notification queue keeps the order, its limits and its count of bytes.
use kotlsp.Prelude.{
  ℕ, suc, ◌+◌, ◌-◌, ◌≤◌, ◌≡◌, refl, sym, ap, ◌∙◌, Bool, true, false, ◌||◌, List, [], ◌∷◌, ◌++◌,
  append-nil, append_assoc, none, some, ltb, leb, length, length-append, arith, Bool-cases, inl,
  inr, if◌then◌else◌,
}
use kotlsp.Rpc.{Message, message_memory_bytes}
use kotlsp.Rpc.Queue.{
  QueuedNotification, NotificationQueue, new_notification_queue, push, popped, pop, close,
  max_queued_notifications, max_queued_notification_bytes,
}

-- The bytes of notifications.
abbrev pub cost : List QueuedNotification → ℕ
cost [] = 0
cost (n ∷ ns) = message_memory_bytes n.message + cost ns

cost-append : (xs ys : List QueuedNotification) → cost (xs ++ ys) ≡ cost xs + cost ys
cost-append [] ys = omega arith
cost-append (x ∷ xs) ys = omega (arith, cost-append xs ys)

-- The counters of a queue and its limits.
pub record IsCounted (q : NotificationQueue) : Type 0 where
  pub counted : q.bytes ≡ cost q.messages
  pub fits : q.bytes ≤ max_queued_notification_bytes
  pub few : length q.messages ≤ max_queued_notifications

-- What the callers of the three operations do.
pub data Event : Type 0 where
  pushed : Message → Event
  taken : Event
  closing : Bool → Event

-- A queue with what it has taken in, handed out and dropped.
pub record History : Type 0 where
  pub queue : NotificationQueue
  pub accepted : List QueuedNotification
  pub handed : List QueuedNotification
  pub dropped : List QueuedNotification

abbrev pub started : History
started = record { queue = new_notification_queue; accepted = []; handed = []; dropped = [] }

unfoldable pub observe : History → Event → History
observe h (pushed m) =
    let (q, channel) = push h.queue m in
    record h {
      queue = q;
      accepted = elim channel [
        | none ↦ h.accepted
        | some c ↦ h.accepted ++ (record { message = m; done = c } ∷ [])
      ];
    }
observe h taken =
    let (q, result) = pop h.queue in
    record h { queue = q; handed = elim result [ popped n ↦ h.handed ++ (n ∷ []) | _ ↦ h.handed ] }
observe h (closing drop) = record h {
  queue = (close h.queue drop).0;
  dropped = if drop then h.dropped ++ h.queue.messages else h.dropped;
}

unfoldable pub observe_all : History → List Event → History
observe_all h [] = h
observe_all h (e ∷ es) = observe_all (observe h e) es

-- What holds of a history: the queue is in order and within its limits.
pub record IsFaithful (h : History) : Type 0 where
  pub counts : IsCounted h.queue
  pub order : h.accepted ≡ h.handed ++ (h.dropped ++ h.queue.messages)
  pub open_keeps : h.queue.closed ≡ false → h.dropped ≡ []
  pub kept :
      (n : QueuedNotification) (rest : List QueuedNotification)
      → h.queue.messages ≡ n ∷ rest
      → h.dropped ≡ []

abbrev entry : NotificationQueue → Message → QueuedNotification
entry q m = record { message = m; done = suc q.made }

push-IsFaithful : (h : History) (m : Message) → IsFaithful h → IsFaithful (observe h (pushed m))
unfolding observe push
push-IsFaithful h m f =
    let q = h.queue in
    let refuses =
      q.closed
      || leb max_queued_notifications (length q.messages)
      || ltb (max_queued_notification_bytes - q.bytes) (message_memory_bytes m) in
    elim (Bool-cases refuses) [
      | inl r ↦ rw (observe, push, r) f
      | inr r ↦
          let c = f.counts.counted in
          let l = f.counts.fits in
          let live : q.closed ≡ false = ground arith in
          let none_dropped = f.open_keeps live in
          let lc = cost-append q.messages (entry q m ∷ []) in
          let ll = length-append q.messages (entry q m ∷ []) in
          rw (observe, push, r)
            (record {
              counts = record { counted = omega arith; fits = ground arith; few = ground arith };
              order =
                  ap (λ xs. xs ++ (entry q m ∷ [])) f.order
                  ∙ append_assoc h.handed (h.dropped ++ q.messages) (entry q m ∷ [])
                  ∙ ap (λ xs. h.handed ++ xs) (append_assoc h.dropped q.messages (entry q m ∷ []));
              open_keeps = λ o. none_dropped;
              kept = λ n rest e. none_dropped;
            })
    ]

abbrev history :
    List QueuedNotification
    → ℕ
    → Bool
    → ℕ
    → List QueuedNotification
    → List QueuedNotification
    → List QueuedNotification
    → History
history messages bytes closed made accepted handed dropped = record {
  queue = record { messages = messages; bytes = bytes; closed = closed; made = made };
  accepted = accepted;
  handed = handed;
  dropped = dropped;
}

pop_first :
    (ms : List QueuedNotification) (bytes : ℕ) (closed : Bool) (made : ℕ)
    (accepted handed dropped : List QueuedNotification)
    → IsFaithful (history ms bytes closed made accepted handed dropped)
    → IsFaithful (observe (history ms bytes closed made accepted handed dropped) taken)
unfolding observe pop
pop_first [] bytes true made accepted handed dropped f = f
pop_first [] bytes false made accepted handed dropped f = f
pop_first (n ∷ rest) bytes closed made accepted handed dropped f =
    let none_dropped = f.kept n rest refl in
    let c = f.counts.counted in
    let l = f.counts.fits in
    let few = f.counts.few in
    record {
      counts = record { counted = omega arith; fits = omega arith; few = omega arith };
      order =
          f.order
          ∙ ap (λ d. handed ++ (d ++ (n ∷ rest))) none_dropped
          ∙ sym (append_assoc handed (n ∷ []) rest)
          ∙ ap (λ d. (handed ++ (n ∷ [])) ++ (d ++ rest)) (sym none_dropped);
      open_keeps = f.open_keeps;
      kept = λ m more e. none_dropped;
    }

pop-IsFaithful : (h : History) → IsFaithful h → IsFaithful (observe h taken)
pop-IsFaithful h f =
    pop_first h.queue.messages h.queue.bytes h.queue.closed h.queue.made h.accepted h.handed
      h.dropped f

close-IsFaithful :
    (h : History) (drop : Bool) → IsFaithful h → IsFaithful (observe h (closing drop))
unfolding observe close
close-IsFaithful h false f = record {
  counts = record { counted = f.counts.counted; fits = f.counts.fits; few = f.counts.few };
  order = f.order;
  open_keeps = λ e. cc;
  kept = f.kept;
}
close-IsFaithful h true f = record {
  counts = record { counted = refl; fits = omega arith; few = omega arith };
  order = f.order ∙ ap (λ xs. h.handed ++ xs) (sym (append-nil (h.dropped ++ h.queue.messages)));
  open_keeps = λ e. cc;
  kept = λ n rest e. cc;
}

observe-IsFaithful : (h : History) (e : Event) → IsFaithful h → IsFaithful (observe h e)
observe-IsFaithful h (pushed m) f = push-IsFaithful h m f
observe-IsFaithful h taken f = pop-IsFaithful h f
observe-IsFaithful h (closing drop) f = close-IsFaithful h drop f

observe_all-IsFaithful :
    (h : History) (es : List Event) → IsFaithful h → IsFaithful (observe_all h es)
unfolding observe_all
observe_all-IsFaithful h [] f = f
observe_all-IsFaithful h (e ∷ es) f =
    observe_all-IsFaithful (observe h e) es (observe-IsFaithful h e f)

-- Whatever its callers do, the queue hands out the notifications that it has accepted in the order in
-- which they came, loses none but those that `close` drops, counts their bytes, and stays within both
-- of its limits.
pub observe_all-started : (es : List Event) → IsFaithful (observe_all started es)
observe_all-started es = observe_all-IsFaithful started es (record {
  counts = record { counted = refl; fits = omega arith; few = omega arith };
  order = refl;
  open_keeps = λ e. refl;
  kept = λ n rest e. refl;
})
