-- ===== src/Budget/Waiting.antt =====
-- internal/resourcebudget/memory.go: nobody waits in `Acquire` while the request has room.
use kotlsp.Prelude.{
  ℕ, zero, suc, ◌+◌, ◌≤◌, ◌<◌, ◌≡◌, subst, List, [], ◌∷◌, ◌++◌, some, Bytes, pos, ltb, leb, arith,
  Bool-cases, Option-cases, inl, inr,
}
use mathlib.Core.Option.{some-injective}
use kotlsp.Prelude.Int.{leb_ℤ, pos_part}
use kotlsp.Budget.{Memory, Handle, reserve, admit, give_back, once, tool_process_limit_bytes}
use kotlsp.Budget.Run.{
  System, Waiter, Event, call, woken, cancelled, released_at, attempt, acquire, wake, cancel,
  release, without, step, run,
}

-- A waiter whose channel is still open has no room.
pub record Waits (m : Memory) (w : Waiter) : Type 0 where
  pub known : w.seen ≤ m.changed
  pub full : w.seen ≡ m.changed → tool_process_limit_bytes < m.current + w.bytes

abbrev pub AllWait : Memory → List Waiter → Type 0
AllWait m [] = Unit
AllWait m (w ∷ ws) = Waits m w × AllWait m ws

AllWait-mono :
    (m n : Memory) (ws : List Waiter)
    → ((w : Waiter) → Waits m w → Waits n w)
    → AllWait m ws
    → AllWait n ws
AllWait-mono m n [] f a = tt
AllWait-mono m n (w ∷ ws) f (a, others) = (f w a, AllWait-mono m n ws f others)

AllWait-append :
    (m : Memory) (ws : List Waiter) (w : Waiter)
    → AllWait m ws
    → Waits m w
    → AllWait m (ws ++ (w ∷ []))
AllWait-append m [] w a b = (b, tt)
AllWait-append m (v ∷ ws) w (a, others) b = (a, AllWait-append m ws w others b)

AllWait-without :
    (m : Memory) (ws : List Waiter) (i : ℕ) (w : Waiter) (rest : List Waiter)
    → without ws i ≡ some (w, rest)
    → AllWait m ws
    → Waits m w × AllWait m rest
unfolding without
AllWait-without m [] i w rest e a = cc
AllWait-without m (v ∷ ws) zero w rest e (a, others) =
    subst (λ r. Waits m r.0 × AllWait m r.1) (some-injective _ _ e) (a, others)
AllWait-without m (v ∷ ws) (suc i) w rest e (a, others) = elim (Option-cases (without ws i)) [
  | inl q ↦ cc
  | inr ((u, left), q) ↦
      let (b, bs) = AllWait-without m ws i u left q others in
      subst (λ r. Waits m r.0 × AllWait m r.1) (some-injective _ _ (rw (q, without) at e))
        (b, (a, bs))
]

reserve-Waits :
    (m : Memory) (component : Bytes) (bytes : ℕ) (w : Waiter)
    → Waits m w
    → Waits (reserve m component bytes) w
unfolding reserve
reserve-Waits m component bytes w a = record {
  known = a.known;
  full = λ e. let f = a.full e in omega arith;
}

give_back-Waits : (m : Memory) (h : Handle) (w : Waiter) → Waits m w → Waits (give_back m h) w
unfolding give_back
give_back-Waits m h w a = record {
  known = let k = a.known in omega arith;
  full = λ e. let k = a.known in omega arith;
}

abbrev pub NoneFits : System → Type 0
NoneFits s = AllWait s.memory s.waiting

attempt-NoneFits :
    (s : System) (component : Bytes) (bytes : ℕ) → NoneFits s → NoneFits (attempt s component bytes)
unfolding attempt admit
attempt-NoneFits s component bytes a =
    elim (Bool-cases (leb (s.memory.current + bytes) tool_process_limit_bytes)) [
      | inl q ↦
          rw (q, attempt, admit)
            (AllWait-mono s.memory _ s.waiting (reserve-Waits s.memory component bytes) a)
      | inr q ↦
          rw (q, attempt, admit)
            (AllWait-append s.memory s.waiting _ a
              (record { known = omega arith; full = λ e. ground arith }))
    ]

step-NoneFits : (s : System) (e : Event) → NoneFits s → NoneFits (step s e)
unfolding step acquire wake cancel release
step-NoneFits s (call component bytes) a = elim (Bool-cases (leb_ℤ bytes (pos 0))) [
  | inl q ↦ rw (q, step, acquire) a
  | inr q ↦ elim (Bool-cases (ltb tool_process_limit_bytes (pos_part bytes))) [
    | inl r ↦ rw (q, r, step, acquire) a
    | inr r ↦ rw (q, r, step, acquire) (attempt-NoneFits s component (pos_part bytes) a)
  ]
]
step-NoneFits s (woken i) a = elim (Option-cases (without s.waiting i)) [
  | inl q ↦ rw (q, step, wake) a
  | inr ((w, rest), q) ↦ elim (Bool-cases (ltb w.seen s.memory.changed)) [
    | inl r ↦
        rw (q, r, step, wake)
          (attempt-NoneFits (record s { waiting = rest }) w.component w.bytes
            (AllWait-without s.memory s.waiting i w rest q a).1)
    | inr r ↦ rw (q, r, step, wake) a
  ]
]
step-NoneFits s (cancelled i) a = elim (Option-cases (without s.waiting i)) [
  | inl q ↦ rw (q, step, cancel) a
  | inr ((w, rest), q) ↦ rw (q, step, cancel) (AllWait-without s.memory s.waiting i w rest q a).1
]
step-NoneFits s (released_at i) a = elim (Option-cases (once s.handles i)) [
  | inl q ↦ rw (q, step, release) a
  | inr ((h, rest), q) ↦
      rw (q, step, release) (AllWait-mono s.memory _ s.waiting (give_back-Waits s.memory h) a)
]

-- Whatever the goroutines do, every call that waits on a channel that is still open asks for more
-- than the room there is.
pub run-NoneFits : (s : System) (events : List Event) → NoneFits s → NoneFits (run s events)
unfolding run
run-NoneFits s [] a = a
run-NoneFits s (e ∷ events) a = run-NoneFits (step s e) events (step-NoneFits s e a)
