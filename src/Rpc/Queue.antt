-- ===== src/Rpc/Queue.antt =====
-- internal/jsonrpc/conn.go: `notificationQueue`. A channel is a number, and the queue counts those
-- that it has made; 0 is the channel that `Run` makes and closes first.
pub mod Order
use kotlsp.Prelude.{
  ℕ, zero, suc, ◌+◌, ◌-◌, Bool, true, false, ◌||◌, List, [], ◌∷◌, ◌++◌, Option, none, some, map,
  ltb, leb, if◌then◌else◌, length,
}
use kotlsp.Rpc.{Message, message_memory_bytes}

abbrev pub max_queued_notifications : ℕ
max_queued_notifications = 1024

-- `64 << 20`
abbrev pub max_queued_notification_bytes : ℕ
max_queued_notification_bytes = 67_108_864

-- `queuedNotification`
pub record QueuedNotification : Type 0 where
  pub message : Message
  pub done : ℕ

pub record NotificationQueue : Type 0 where
  pub messages : List QueuedNotification
  pub bytes : ℕ
  pub closed : Bool
  pub made : ℕ

-- `newNotificationQueue`
abbrev pub new_notification_queue : NotificationQueue
new_notification_queue = record { messages = []; bytes = 0; closed = false; made = 0 }

-- `push`, with the channel that it returns. The bytes never pass their limit, so that the difference
-- is not negative.
unfoldable pub push : NotificationQueue → Message → NotificationQueue × Option ℕ
push q m =
    let cost = message_memory_bytes m in
    if q.closed
      || leb max_queued_notifications (length q.messages)
      || ltb (max_queued_notification_bytes - q.bytes) cost
    then (q, none)
    else (
      record {
        messages = q.messages ++ (record { message = m; done = suc q.made } ∷ []);
        bytes = q.bytes + cost;
        closed = q.closed;
        made = suc q.made;
      },
      some (suc q.made),
    )

-- What `pop` comes to: it waits, it finds the queue closed, or it returns the first notification.
pub data Popped : Type 0 where
  waits : Popped
  ended : Popped
  popped : QueuedNotification → Popped

unfoldable pub pop : NotificationQueue → NotificationQueue × Popped
pop q = elim q.messages [
  | [] ↦ (q, if q.closed then ended else waits)
  | n ∷ rest ↦
      (record q { messages = rest; bytes = q.bytes - message_memory_bytes n.message }, popped n)
]

-- `close`, with the channels that it closes.
unfoldable pub close : NotificationQueue → Bool → NotificationQueue × List ℕ
close q drop =
    if drop
    then (record q { messages = []; bytes = 0; closed = true }, map (λ n. n.done) q.messages)
    else (record q { closed = true }, [])
