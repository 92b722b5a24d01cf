-- ===== src/Budget/Accounts.antt =====
-- internal/resourcebudget/memory.go: the sums over live reservations.
use kotlsp.Prelude.{
  ℕ, zero, suc, ◌+◌, ◌-◌, ◌≡◌, Bool, not, ◌&&◌, List, [], ◌∷◌, ◌++◌, some, Bytes, same, same_trans,
  same_join, arith, if◌then◌else◌, Bool-cases, Option-cases, inl, inr,
}
use kotlsp.Budget.{ComponentUsage, Handle, charge, refund, once}

-- The bytes of the live reservations whose component passes a test.
abbrev pub live : (Bytes → Bool) → List Handle → ℕ
live p [] = 0
live p (h ∷ hs) = (if p h.component && not h.released then h.bytes else 0) + live p hs

-- What `components` says of a name.
abbrev pub current_of : List ComponentUsage → Bytes → ℕ
current_of [] name = 0
current_of (u ∷ us) name = if same u.name name then u.current else current_of us name

pub live-append :
    (p : Bytes → Bool) (hs : List Handle) (h : Handle)
    → live p (hs ++ (h ∷ [])) ≡ live p hs + (if p h.component && not h.released then h.bytes else 0)
live-append p [] h = omega arith
live-append p (g ∷ hs) h = omega (arith, live-append p hs h)

pub live-once :
    (p : Bytes → Bool) (hs : List Handle) (i : ℕ) (h : Handle) (rest : List Handle)
    → once hs i ≡ some (h, rest)
    → live p hs ≡ (if p h.component then h.bytes else 0) + live p rest
unfolding once
live-once p [] i h rest e = cc
live-once p (g ∷ hs) zero h rest e = elim (Bool-cases g.released) [
  | inl q ↦ ground arith
  | inr q ↦ ground arith
]
live-once p (g ∷ hs) (suc i) h rest e = elim (Option-cases (once hs i)) [
  | inl q ↦ cc
  | inr ((f, later), q) ↦ let ih = live-once p hs i f later q in ground arith
]

pub current_of-charge :
    (us : List ComponentUsage) (n m : Bytes) (b : ℕ)
    → current_of (charge us n b) m ≡ current_of us m + (if same n m then b else 0)
unfolding charge
current_of-charge [] n m b = ground arith
current_of-charge (u ∷ us) n m b =
    let ih = current_of-charge us n m b in
    let join = same_join u.name n m in
    elim (Bool-cases (same u.name n)) [
      | inl q ↦ let t = same_trans u.name n m q in ground arith
      | inr q ↦ ground arith
    ]

pub current_of-refund :
    (us : List ComponentUsage) (n m : Bytes) (b : ℕ)
    → current_of (refund us n b) m ≡ current_of us m - (if same n m then b else 0)
unfolding refund
current_of-refund [] n m b = ground arith
current_of-refund (u ∷ us) n m b =
    let ih = current_of-refund us n m b in
    let join = same_join u.name n m in
    elim (Bool-cases (same u.name n)) [
      | inl q ↦ let t = same_trans u.name n m q in ground arith
      | inr q ↦ ground arith
    ]
