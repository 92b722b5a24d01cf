-- ===== src/Rpc/Inbound/Promise.antt =====
-- internal/jsonrpc/conn.go: what `Run` keeps true of its channels and of the handler calls.
use kotlsp.Prelude.{
  ℕ, suc, ◌+◌, ◌≤◌, ◌≡◌, refl, sym, ap, ◌∙◌, Bool, true, false, ◌||◌, List, [], ◌∷◌, Option, none,
  some, map, arith,
}
use kotlsp.Rpc.Inbound.{InboundRequest, Entry, Connection, closed_channel}
use kotlsp.Rpc.Inbound.Totals.{total}
use kotlsp.Rpc.Queue.{QueuedNotification, NotificationQueue}
use kotlsp.Rpc.Inbound.Log.{count_handled, IsOrdered, Follow, live_job, live_worker}

abbrev pub Current : ℕ → Option QueuedNotification → Type 0
Current k none = Unit
Current k (some n) = n.done ≡ suc k

abbrev pub taken : Option QueuedNotification → ℕ
taken none = 0
taken (some n) = 1

-- What holds as long as the run goes on.
pub record Ongoing (c : Connection) : Type 0 where
  pub follow :
      Follow (count_handled c.log + taken c.notifying) c.notifications.messages c.notifications.made
  pub done : (channel : ℕ) → closed_channel c.done channel ≡ true → channel ≤ count_handled c.log

pub record Inv (c : Connection) : Type 0 where
  pub ordered : IsOrdered 0 c.log
  pub current : Current (count_handled c.log) c.notifying
  pub barrier : c.barrier ≡ c.notifications.made
  pub ongoing : c.stopped ≡ false → Ongoing c
  pub stopped : c.stopped ≡ true → total live_job c.jobs + total live_worker c.workers ≡ 0
  pub silent : c.stopped ≡ true → c.reading ≡ false

-- The parts that a step of the request workers leaves alone.
pub record View : Type 0 where
  pub log : List Entry
  pub barrier : ℕ
  pub notifications : NotificationQueue
  pub notifying : Option QueuedNotification
  pub done : List ℕ
  pub stopped : Bool
  pub reading : Bool

abbrev pub view : Connection → View
view c = record {
  log = c.log;
  barrier = c.barrier;
  notifications = c.notifications;
  notifying = c.notifying;
  done = c.done;
  stopped = c.stopped;
  reading = c.reading;
}

pub untouched-Inv :
    (c d : Connection)
    → view d ≡ view c
    → (c.stopped ≡ true → total live_job d.jobs + total live_worker d.workers ≡ 0)
    → Inv c
    → Inv d
untouched-Inv c d u dead v =
    let log = ap (λ w. w.log) u in
    let queue = ap (λ w. w.notifications) u in
    let notifying = ap (λ w. w.notifying) u in
    let stops = ap (λ w. w.stopped) u in
    record {
      ordered = rw log v.ordered;
      current = rw (log, notifying) v.current;
      barrier = ap (λ w. w.barrier) u ∙ v.barrier ∙ ap (λ q. q.made) (sym queue);
      ongoing = λ s.
          let o = v.ongoing (sym stops ∙ s) in
          record {
            follow = rw (log, notifying, queue) o.follow;
            done = rw (log, ap (λ w. w.done) u) o.done;
          };
      stopped = λ s. dead (sym stops ∙ s);
      silent = λ s. ap (λ w. w.reading) u ∙ v.silent (sym stops ∙ s);
    }

pub total-map_le :
    {A : Type 0} (f : A → ℕ) (g : A → A) (xs : List A)
    → ((x : A) → f (g x) ≤ f x)
    → total f (map g xs) ≤ total f xs
total-map_le f g [] h = omega arith
total-map_le f g (x ∷ xs) h = omega (arith, h x, total-map_le f g xs h)

pub total-map_zero :
    {A : Type 0} (f : A → ℕ) (g : A → A) (xs : List A)
    → ((x : A) → f (g x) ≡ 0)
    → total f (map g xs) ≡ 0
total-map_zero f g [] h = refl
total-map_zero f g (x ∷ xs) h = omega (arith, h x, total-map_zero f g xs h)

pub live-cancelled :
    (r : InboundRequest) (b : Bool)
    → live_job (record r { cancelled = r.cancelled || b }) ≤ live_job r
live-cancelled r b = ground arith

pub live-dead : (r : InboundRequest) → live_job (record r { cancelled = r.cancelled || true }) ≡ 0
live-dead r = ground arith
