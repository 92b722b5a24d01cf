-- ===== src/Rpc/Inbound/Made.antt =====
-- internal/jsonrpc/conn.go: the notifications that the queue accepts in a run.
use kotlsp.Prelude.{ℕ, ◌+◌, ◌≡◌, none, some, if◌then◌else◌, arith}
use kotlsp.Rpc.{Message}
use kotlsp.Rpc.Inbound.{respond, Connection, cancel_where}
use kotlsp.Rpc.Inbound.Run.{
  receive, finish, notify, take_notification, close_notification, take_job, work, release_inbound,
  Event, request, unreadable, notification, cancel_key, end_of_input, input_fails, stop,
  notification_taken, notification_closed, job_taken, worked, released, step,
}
use kotlsp.Rpc.Queue.{push, pop, close, NotificationQueue}

-- A notification that is read, and that the queue accepts.
abbrev pub accepted : Connection → Event → ℕ
accepted c (notification m) = elim (push c.notifications m).1 [ none ↦ 0 | some channel ↦ 1 ]
accepted c _ = 0

abbrev pub Makes : Connection → Connection → ℕ → Type 0
Makes c d n = d.notifications.made ≡ c.notifications.made + n

push-made :
    (q : NotificationQueue) (m : Message)
    → (push q m).0.made ≡ q.made + (elim (push q m).1 [ none ↦ 0 | some channel ↦ 1 ])
unfolding push
push-made q m = ground arith

-- The channels that are made are those of the notifications that are accepted.
pub step_made :
    (c : Connection) (e : Event) → Makes c (step c e) (if c.reading then accepted c e else 0)
unfolding step receive respond finish close notify take_notification pop close_notification take_job
    work release_inbound cancel_where
step_made c (request m (some key) a) = ground arith
step_made c (request m none a) = ground arith
step_made c (unreadable id code a) = ground arith
step_made c (notification m) = let p = push-made c.notifications m in ground arith
step_made c (cancel_key key) = ground arith
step_made c end_of_input = ground arith
step_made c input_fails = ground arith
step_made c stop = ground arith
step_made c notification_taken = ground arith
step_made c notification_closed = ground arith
step_made c job_taken = ground arith
step_made c (worked i code a) = ground arith
step_made c (released i) = ground arith
