-- ===== src/Budget.antt =====
-- internal/resourcebudget/memory.go: reservations of child processes in one memory envelope.
pub mod Run
pub mod Accounts
pub mod Invariant
pub mod Waiting
pub mod Release
use kotlsp.Prelude.{
  ℕ, zero, suc, ◌+◌, ◌-◌, ◌*◌, ◌^◌, Bool, true, false, List, [], ◌∷◌, Option, none, some, Bytes,
  same, ltb, leb, if◌then◌else◌,
}

-- `18 << 30`
abbrev pub process_tree_soft_limit_bytes : ℕ
process_tree_soft_limit_bytes = 19_327_352_832

-- `16 << 30`
abbrev pub go_soft_limit_bytes : ℕ
go_soft_limit_bytes = 17_179_869_184

-- `768 << 20`
abbrev pub go_minimum_limit_bytes : ℕ
go_minimum_limit_bytes = 805_306_368

-- `1792 << 20`
abbrev pub tool_process_limit_bytes : ℕ
tool_process_limit_bytes = 1_879_048_192

-- `componentUsage`, with the name under which the map `components` holds it. A name is never
-- removed, so the pointer that a reservation keeps is the entry of its name.
pub record ComponentUsage : Type 0 where
  pub name : Bytes
  pub current : ℕ
  pub peak : ℕ

-- The variable `memory`. `changed` counts the channels closed so far, so that it names the
-- channel in use; `go_limit` is the last argument of `debug.SetMemoryLimit`.
pub record Memory : Type 0 where
  pub changed : ℕ
  pub current : ℕ
  pub peak : ℕ
  pub components : List ComponentUsage
  pub go_limit : ℕ

-- `effectiveGoLimitLocked`. The envelope is never smaller than what is reserved.
unfoldable pub effective_go_limit : ℕ → ℕ
effective_go_limit current =
    let limit = process_tree_soft_limit_bytes - current in
    let capped = if ltb go_soft_limit_bytes limit then go_soft_limit_bytes else limit in
    if ltb capped go_minimum_limit_bytes then go_minimum_limit_bytes else capped

-- `if peak < current { peak = current }`
abbrev pub raised : ℕ → ℕ → ℕ
raised peak current = if ltb peak current then current else peak

unfoldable pub charge : List ComponentUsage → Bytes → ℕ → List ComponentUsage
charge [] name bytes = record { name = name; current = bytes; peak = raised 0 bytes } ∷ []
charge (u ∷ us) name bytes =
    let rest = charge us name bytes in
    if same u.name name
    then record u { current = u.current + bytes; peak = raised u.peak (u.current + bytes) } ∷ us
    else u ∷ rest

unfoldable pub refund : List ComponentUsage → Bytes → ℕ → List ComponentUsage
refund [] name bytes = []
refund (u ∷ us) name bytes =
    let rest = refund us name bytes in
    if same u.name name then record u { current = u.current - bytes } ∷ us else u ∷ rest

-- The branch of `Acquire` that has room.
unfoldable pub reserve : Memory → Bytes → ℕ → Memory
reserve m component bytes = record m {
  current = m.current + bytes;
  go_limit = effective_go_limit (m.current + bytes);
  peak = raised m.peak (m.current + bytes);
  components = charge m.components component bytes;
}

-- One round of the loop of `Acquire`, under the lock.
unfoldable pub admit : Memory → Bytes → ℕ → Option Memory
admit m component bytes =
    if leb (m.current + bytes) tool_process_limit_bytes
    then some (reserve m component bytes)
    else none

-- The function that `Acquire` returns, with its `sync.Once`.
pub record Handle : Type 0 where
  pub component : Bytes
  pub bytes : ℕ
  pub released : Bool

-- What that function does once.
unfoldable pub give_back : Memory → Handle → Memory
give_back m h = record m {
  current = m.current - h.bytes;
  components = refund m.components h.component h.bytes;
  go_limit = effective_go_limit (m.current - h.bytes);
  changed = suc m.changed;
}

-- `once.Do` on the function at a place: the function before its call, and all of them after it.
unfoldable pub once : List Handle → ℕ → Option (Handle × List Handle)
once [] i = none
once (h ∷ hs) zero = if h.released then none else some (h, record h { released = true } ∷ hs)
once (h ∷ hs) (suc i) = elim (once hs i) [ none ↦ none | some r ↦ some (r.0, h ∷ r.1) ]
