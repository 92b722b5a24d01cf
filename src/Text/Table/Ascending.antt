-- ===== src/Text/Table/Ascending.antt =====
-- `sort.Search` over ascending line starts is the number of leading entries up to the offset.
use kotlsp.Prelude.{
  ℕ, zero, suc, ◌+◌, ◌≤◌, ◌<◌, ◌≡◌, refl, List, [], ◌∷◌, arith, length, get_or, ltb, leb,
  if◌then◌else◌, Bytes, Bool, ◌==◌,
}
use kotlsp.Std.Search.{TurnsAt, search_lem}
use kotlsp.Text.Document.{newline, line_starts}
use kotlsp.Text.Lookup.{first_after}

-- Strictly ascending, from `lo` on.
abbrev pub Ascends : ℕ → List ℕ → Type 0
Ascends lo [] = Unit {0}
Ascends lo (l ∷ ls) = (lo ≤ l) × Ascends (suc l) ls

abbrev pub leading : ℕ → List ℕ → ℕ
leading at [] = 0
leading at (l ∷ ls) = if leb l at then suc (leading at ls) else 0

pub Ascends-mono : {lo lo' : ℕ} (ls : List ℕ) → lo' ≤ lo → Ascends lo ls → Ascends lo' ls
Ascends-mono [] h a = tt
Ascends-mono (l ∷ ls) h a = (omega arith, a.1)

pub leading-le : (at : ℕ) (ls : List ℕ) → leading at ls ≤ length ls
leading-le at [] = omega arith
leading-le at (l ∷ ls) = ground (arith, leading-le at ls)

leading_below : (at : ℕ) (ls : List ℕ) (i : ℕ) → i < leading at ls → get_or ls i 0 ≤ at
leading_below at [] i h = absurd (omega arith)
leading_below at (l ∷ ls) zero h = ground arith
leading_below at (l ∷ ls) (suc i) h = ground (arith, leading_below at ls i)

Ascends-get_or : (lo : ℕ) (ls : List ℕ) (i : ℕ) → Ascends lo ls → i < length ls → lo ≤ get_or ls i 0
Ascends-get_or lo [] i a h = absurd (omega arith)
Ascends-get_or lo (l ∷ ls) zero a h = omega arith
Ascends-get_or lo (l ∷ ls) (suc i) a h =
    omega (arith, Ascends-get_or (suc l) ls i a.1 (omega arith))

leading_above :
    (at lo : ℕ) (ls : List ℕ) (i : ℕ)
    → Ascends lo ls
    → leading at ls ≤ i
    → i < length ls
    → at < get_or ls i 0
leading_above at lo [] i a p q = absurd (omega arith)
leading_above at lo (l ∷ ls) zero a p q = ground arith
leading_above at lo (l ∷ ls) (suc i) a p q =
    ground (arith, leading_above at (suc l) ls i a.1, Ascends-get_or (suc l) ls i a.1)

leading-TurnsAt :
    (at lo : ℕ) (ls : List ℕ)
    → Ascends lo ls
    → TurnsAt (λ i. ltb at (get_or ls i 0)) (length ls) (leading at ls)
leading-TurnsAt at lo ls a = record {
  within = leading-le at ls;
  below = λ i h. ground (arith, leading_below at ls i h);
  above = λ i p q. ground (arith, leading_above at lo ls i a p q);
}

pub first_after-leading :
    (at lo : ℕ) (ls : List ℕ) → Ascends lo ls → first_after ls at ≡ leading at ls
unfolding first_after
first_after-leading at lo ls a = search_lem _ _ _ (leading-TurnsAt at lo ls a)

pub leading_none : (at lo : ℕ) (ls : List ℕ) → Ascends lo ls → at < lo → leading at ls ≡ 0
leading_none at lo [] a h = refl
leading_none at lo (l ∷ ls) a h = ground arith

pub get_or-leading :
    (at : ℕ) (l : ℕ) (ls : List ℕ) → l ≤ at → get_or (l ∷ ls) (leading at ls) 0 ≤ at
get_or-leading at l [] h = h
get_or-leading at l (m ∷ ls) h = ground (arith, get_or-leading at m ls)

-- Every entry that the loop adds lies behind the byte that it looks at.
pub line_starts-Ascends :
    (sparse : Bool) (index line : ℕ) (bs : Bytes)
    → Ascends (suc index) (line_starts sparse index line bs)
unfolding line_starts
line_starts-Ascends sparse index line [] = tt
line_starts-Ascends sparse index line (b ∷ bs) = ground (
  arith,
  line_starts-Ascends sparse (index + 1) (if b == newline then suc line else line) bs,
  Ascends-mono {lo = suc (index + 1)} {lo' = suc index}
      (line_starts sparse (index + 1) (if b == newline then suc line else line) bs),
  Ascends-mono {lo = suc (index + 1)} {lo' = suc (index + 1)}
      (line_starts sparse (index + 1) (if b == newline then suc line else line) bs),
)
