-- ===== src/Budget/Invariant.antt =====
-- internal/resourcebudget/memory.go: the counters agree with the live reservations.
use kotlsp.Prelude.{
  ℕ, ◌+◌, ◌≤◌, ◌≡◌, refl, ◌∙◌, Bool, true, false, List, [], ◌∷◌, ◌++◌, some, Bytes, pos, same, ltb,
  leb, arith, Bool-cases, Option-cases, inl, inr,
}
use kotlsp.Prelude.Int.{leb_ℤ, pos_part}
use kotlsp.Budget.{
  Memory, Handle, reserve, admit, give_back, once, effective_go_limit, tool_process_limit_bytes,
  go_soft_limit_bytes,
}
use kotlsp.Budget.Accounts.{
  live, current_of, live-append, live-once, current_of-charge, current_of-refund,
}
use kotlsp.Budget.Run.{
  System, Event, call, woken, cancelled, released_at, initial, attempt, acquire, wake, cancel,
  release, without, step, run,
}

abbrev pub any : Bytes → Bool
any component = true

-- The counters of the tool processes, as the live reservations give them.
pub record IsAccounted (m : Memory) (handles : List Handle) : Type 0 where
  pub total : m.current ≡ live any handles
  pub each : (name : Bytes) → current_of m.components name ≡ live (λ c. same c name) handles
  pub fits : m.current ≤ tool_process_limit_bytes
  pub peaked : m.current ≤ m.peak
  pub peak_fits : m.peak ≤ tool_process_limit_bytes
  pub limited : m.go_limit ≡ effective_go_limit m.current

-- A reservation with its new function.
reserve-IsAccounted :
    (m : Memory) (handles : List Handle) (component : Bytes) (bytes : ℕ)
    → IsAccounted m handles
    → m.current + bytes ≤ tool_process_limit_bytes
    → IsAccounted
        (reserve m component bytes)
        (handles ++ (record { component = component; bytes = bytes; released = false } ∷ []))
unfolding reserve
reserve-IsAccounted m handles component bytes a room =
    let added = λ (p : Bytes → Bool).
      live-append p handles (record { component = component; bytes = bytes; released = false }) in
    record {
      total = let l = added any in let t = a.total in ground arith;
      each = λ name.
          let l = added (λ c. same c name) in
          let t = a.each name in
          let c = current_of-charge m.components component name bytes in ground arith;
      fits = room;
      peaked = ground arith;
      peak_fits = let p = a.peak_fits in ground arith;
      limited = refl;
    }

-- A release.
give_back-IsAccounted :
    (m : Memory) (handles : List Handle) (i : ℕ) (h : Handle) (rest : List Handle)
    → IsAccounted m handles
    → once handles i ≡ some (h, rest)
    → IsAccounted (give_back m h) rest
unfolding give_back
give_back-IsAccounted m handles i h rest a e =
    let gone = λ (p : Bytes → Bool). live-once p handles i h rest e in
    record {
      total = let l = gone any in let t = a.total in ground arith;
      each = λ name.
          let l = gone (λ c. same c name) in
          let t = a.each name in
          let c = current_of-refund m.components h.component name h.bytes in ground arith;
      fits = let f = a.fits in omega arith;
      peaked = let f = a.peaked in omega arith;
      peak_fits = a.peak_fits;
      limited = refl;
    }

abbrev pub IsSound : System → Type 0
IsSound s = IsAccounted s.memory s.handles

attempt-IsSound :
    (s : System) (component : Bytes) (bytes : ℕ) → IsSound s → IsSound (attempt s component bytes)
unfolding attempt admit
attempt-IsSound s component bytes a =
    elim (Bool-cases (leb (s.memory.current + bytes) tool_process_limit_bytes)) [
      | inl q ↦
          rw (q, attempt, admit)
            (reserve-IsAccounted s.memory s.handles component bytes a ground arith)
      | inr q ↦ rw (q, attempt, admit) a
    ]

step-IsSound : (s : System) (e : Event) → IsSound s → IsSound (step s e)
unfolding step acquire wake cancel release
step-IsSound s (call component bytes) a = elim (Bool-cases (leb_ℤ bytes (pos 0))) [
  | inl q ↦ rw (q, step, acquire) a
  | inr q ↦ elim (Bool-cases (ltb tool_process_limit_bytes (pos_part bytes))) [
    | inl r ↦ rw (q, r, step, acquire) a
    | inr r ↦ rw (q, r, step, acquire) (attempt-IsSound s component (pos_part bytes) a)
  ]
]
step-IsSound s (woken i) a = elim (Option-cases (without s.waiting i)) [
  | inl q ↦ rw (q, step, wake) a
  | inr ((w, rest), q) ↦ elim (Bool-cases (ltb w.seen s.memory.changed)) [
    | inl r ↦
        rw (q, r, step, wake) (attempt-IsSound (record s { waiting = rest }) w.component w.bytes a)
    | inr r ↦ rw (q, r, step, wake) a
  ]
]
step-IsSound s (cancelled i) a = elim (Option-cases (without s.waiting i)) [
  | inl q ↦ rw (q, step, cancel) a
  | inr ((w, rest), q) ↦ rw (q, step, cancel) a
]
step-IsSound s (released_at i) a = elim (Option-cases (once s.handles i)) [
  | inl q ↦ rw (q, step, release) a
  | inr ((h, rest), q) ↦
      rw (q, step, release) (give_back-IsAccounted s.memory s.handles i h rest a q)
]

pub initial-IsSound : IsSound initial
initial-IsSound = record {
  total = refl;
  each = λ name. refl;
  fits = omega arith;
  peaked = omega arith;
  peak_fits = omega arith;
  limited = refl;
}

-- Whatever the goroutines do from a sound state, the reserved total is the sum of the live
-- reservations and within the tool-process limit, each component's is the sum of its own, the
-- peak is between the total and the limit, and the Go limit is the one for the total.
pub run-IsSound : (s : System) (events : List Event) → IsSound s → IsSound (run s events)
unfolding run
run-IsSound s [] a = a
run-IsSound s (e ∷ events) a = run-IsSound (step s e) events (step-IsSound s e a)

effective_go_limit-eq :
    (current : ℕ)
    → current ≤ tool_process_limit_bytes
    → effective_go_limit current ≡ go_soft_limit_bytes
unfolding effective_go_limit
effective_go_limit-eq current h = ground arith

-- From the start of the process, no sequence of reservations and releases moves the Go limit
-- away from `GoSoftLimitBytes`.
pub run-go_limit :
    (events : List Event) → (run initial events).memory.go_limit ≡ go_soft_limit_bytes
run-go_limit events =
    let a = run-IsSound initial events initial-IsSound in
    a.limited ∙ effective_go_limit-eq (run initial events).memory.current a.fits
