-- ===== src/Budget/Run.antt =====
-- internal/resourcebudget/memory.go: calls of `Acquire`, their waiting, and releases as steps.
use kotlsp.Prelude.{
  ℕ, zero, suc, false, List, [], ◌∷◌, ◌++◌, Option, none, some, Bytes, ℤ, pos, ltb, if◌then◌else◌,
}
use kotlsp.Prelude.Int.{leb_ℤ, pos_part}
use kotlsp.Budget.{
  Memory, Handle, admit, give_back, once, effective_go_limit, tool_process_limit_bytes,
}

-- A call of `Acquire` in its `select`, with the channel `changed` that it has read.
pub record Waiter : Type 0 where
  pub component : Bytes
  pub bytes : ℕ
  pub seen : ℕ

pub record System : Type 0 where
  pub memory : Memory
  pub handles : List Handle
  pub waiting : List Waiter

-- The variables at the start of the process, after `ApplyGoMemoryLimit`.
abbrev pub initial : System
initial = record {
  memory = record {
    changed = 0;
    current = 0;
    peak = 0;
    components = [];
    go_limit = effective_go_limit 0;
  };
  handles = [];
  waiting = [];
}

-- The body of the loop of `Acquire`: a reservation, or a wait for the channel in use.
unfoldable pub attempt : System → Bytes → ℕ → System
attempt s component bytes = elim (admit s.memory component bytes) [
  | none ↦ record s {
    waiting =
        s.waiting
        ++ (record { component = component; bytes = bytes; seen = s.memory.changed } ∷ []);
  }
  | some m ↦ record s {
    memory = m;
    handles = s.handles ++ (record { component = component; bytes = bytes; released = false } ∷ []);
  }
]

-- What a call has come to, before its loop or in it.
pub data Answer : Type 0 where
  nothing_to_reserve : Answer
  exceeds_envelope : Answer
  entered : Answer

-- `Acquire` with its guards.
unfoldable pub acquire : System → Bytes → ℤ → System × Answer
acquire s component bytes =
    if leb_ℤ bytes (pos 0)
    then (s, nothing_to_reserve)
    else if ltb tool_process_limit_bytes (pos_part bytes)
    then (s, exceeds_envelope)
    else (attempt s component (pos_part bytes), entered)

-- The waiter at a place, and the others.
unfoldable pub without : List Waiter → ℕ → Option (Waiter × List Waiter)
without [] i = none
without (w ∷ ws) zero = some (w, ws)
without (w ∷ ws) (suc i) = elim (without ws i) [ none ↦ none | some r ↦ some (r.0, w ∷ r.1) ]

-- `case <-changed` where the channel is closed.
unfoldable pub wake : System → ℕ → System
wake s i = elim (without s.waiting i) [
  | none ↦ s
  | some r ↦
      if ltb r.0.seen s.memory.changed
      then attempt (record s { waiting = r.1 }) r.0.component r.0.bytes
      else s
]

-- `case <-ctx.Done()`
unfoldable pub cancel : System → ℕ → System
cancel s i = elim (without s.waiting i) [ none ↦ s | some r ↦ record s { waiting = r.1 } ]

-- A call of a function that `Acquire` has returned.
unfoldable pub release : System → ℕ → System
release s i = elim (once s.handles i) [
  | none ↦ s
  | some r ↦ record s { memory = give_back s.memory r.0; handles = r.1 }
]

-- What the goroutines do; the lock makes each of these one step.
pub data Event : Type 0 where
  call : Bytes → ℤ → Event
  woken : ℕ → Event
  cancelled : ℕ → Event
  released_at : ℕ → Event

unfoldable pub step : System → Event → System
step s (call component bytes) = (acquire s component bytes).0
step s (woken i) = wake s i
step s (cancelled i) = cancel s i
step s (released_at i) = release s i

unfoldable pub run : System → List Event → System
run s [] = s
run s (e ∷ es) = run (step s e) es
