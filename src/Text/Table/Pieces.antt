-- ===== src/Text/Table/Pieces.antt =====
-- The line starts of a text in pieces: those of each piece, shifted to where the piece stands.
use kotlsp.Prelude.{
  ℕ, suc, ◌+◌, ◌-◌, ◌≤◌, ◌≡◌, refl, ap, List, [], ◌∷◌, ◌++◌, map, arith, length, false, ◌==◌,
  if◌then◌else◌, Bytes,
}
use kotlsp.Text.Document.{newline, line_starts, strings_count_byte}
use kotlsp.Text.Edit.{added_starts}
use kotlsp.Text.Table.Ascending.{Ascends, leading, leading_none, line_starts-Ascends}
use kotlsp.Text.Table.Count.{newlines}

pub line_starts-added_starts :
    (index line : ℕ) (bs : Bytes) → line_starts false index line bs ≡ added_starts index bs
unfolding line_starts added_starts
line_starts-added_starts index line [] = refl
line_starts-added_starts index line (b ∷ bs) =
    ground
      (arith, line_starts-added_starts (index + 1) (if b == newline then suc line else line) bs)

pub added_starts-Ascends : (index : ℕ) (bs : Bytes) → Ascends (suc index) (added_starts index bs)
added_starts-Ascends index bs =
    rw (← line_starts-added_starts index 0 bs) (line_starts-Ascends false index 0 bs)

pub length-added_starts : (index : ℕ) (bs : Bytes) → length (added_starts index bs) ≡ newlines bs
unfolding added_starts strings_count_byte
length-added_starts index [] = refl
length-added_starts index (b ∷ bs) = ground (arith, length-added_starts (index + 1) bs)

pub added_starts-append :
    (index : ℕ) (xs ys : Bytes)
    → added_starts index (xs ++ ys) ≡ added_starts index xs ++ added_starts (index + length xs) ys
unfolding added_starts
added_starts-append index [] ys = ap (λ k. added_starts k ys) (omega arith)
added_starts-append index (b ∷ bs) ys =
    let seam : index + 1 + length bs ≡ index + suc (length bs) = omega arith in
    ground (arith, added_starts-append (index + 1) bs ys, ap (λ k. added_starts k ys) seam)

-- A shift by `more` to the right and `less` to the left.
pub added_starts-map :
    (index more less : ℕ) (bs : Bytes)
    → less ≤ index
    → map (λ line. line + more - less) (added_starts index bs)
      ≡ added_starts (index + more - less) bs
unfolding added_starts
added_starts-map index more less [] h = refl
added_starts-map index more less (b ∷ bs) h =
    let seam : index + 1 + more - less ≡ index + more - less + 1 = omega arith in
    let later = rw seam at (added_starts-map (index + 1) more less bs (omega arith)) in
    ground (arith, later, seam)

abbrev AtMost : ℕ → List ℕ → Type 0
AtMost at [] = Unit {0}
AtMost at (l ∷ ls) = (l ≤ at) × AtMost at ls

added_starts-AtMost :
    (at index : ℕ) (bs : Bytes) → index + length bs ≤ at → AtMost at (added_starts index bs)
unfolding added_starts
added_starts-AtMost at index [] h = tt
added_starts-AtMost at index (b ∷ bs) h = ground (arith, added_starts-AtMost at (index + 1) bs)

leading-append :
    (at : ℕ) (xs ys : List ℕ) → AtMost at xs → leading at (xs ++ ys) ≡ length xs + leading at ys
leading-append at [] ys h = omega arith
leading-append at (x ∷ xs) ys h = ground (arith, leading-append at xs ys h.1)

-- The entries up to the end of a piece are those of the piece.
pub leading_piece :
    (at index : ℕ) (xs ys : Bytes)
    → index + length xs ≡ at
    → leading at (added_starts index xs ++ added_starts at ys) ≡ newlines xs
leading_piece at index xs ys e = omega (
  arith,
  leading-append at (added_starts index xs) (added_starts at ys)
      (added_starts-AtMost at index xs (omega arith)),
  leading_none at (suc at) (added_starts at ys) (added_starts-Ascends at ys) (omega arith),
  length-added_starts index xs,
)
