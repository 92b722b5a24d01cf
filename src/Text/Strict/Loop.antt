-- ===== src/Text/Strict/Loop.antt =====
-- The two loops of `strictOffsetBytes`.
use kotlsp.Prelude.{
  ℕ, zero, suc, ◌+◌, ◌≤◌, ◌<◌, ◌≡◌, refl, ap, ◌∙◌, false, [], ◌∷◌, ◌++◌, Bytes, arith, ◌==◌,
  if◌then◌else◌, drop, take, length, length-take, length-drop, get_or, some, ltb, Bool-cases, inl,
  inr, length-append,
}
use kotlsp.Std.Utf8.{decode_rune, decode_rune-Fits}
use kotlsp.Text.Position.{units_of, strict_loop, trim_line}
use kotlsp.Text.Strict.Spec.{Reads, stop, rune, is_break, trimmed}

pub units_of-pos : (r : ℕ) → 0 < units_of r
units_of-pos r = ground arith

-- What the loop finds is the end of whole runes.
pub strict_loop-Reads :
    (fuel : ℕ) (rest : Bytes) (at units target to : ℕ)
    → strict_loop fuel rest at units target ≡ some to
    → (n : ℕ) × (u : ℕ) × Reads rest n u × (units + u ≡ target) × (to ≡ at + n)
unfolding strict_loop
strict_loop-Reads fuel [] at units target to e = (0, 0, stop refl refl, ground arith, ground arith)
strict_loop-Reads zero (b ∷ bs) at units target to e = absurd (cc)
strict_loop-Reads (suc fuel) (b ∷ bs) at units target to e = elim (Bool-cases (units == target)) [
  | inl t ↦ (0, 0, stop refl refl, ground arith, ground arith)
  | inr t ↦ elim (Bool-cases (ltb target (units + units_of (decode_rune (b ∷ bs)).0))) [
    | inl l ↦ absurd (ground arith)
    | inr l ↦
        let r = (decode_rune (b ∷ bs)).0 in
        let size = (decode_rune (b ∷ bs)).1 in
        let (n, u, reads, p, q) =
          strict_loop-Reads fuel (drop size (b ∷ bs)) (at + size) (units + units_of r) target to
            (ground arith) in
        (size + n, units_of r + u, rune n u reads refl refl, omega arith, omega arith)
  ]
]

-- And every such end is found, if there is a round of fuel for each byte.
pub strict_loop_complete :
    {rest : Bytes} {n u : ℕ} (fuel at units target : ℕ)
    → Reads rest n u
    → length rest ≤ fuel
    → units + u ≡ target
    → strict_loop fuel rest at units target ≡ some (at + n)
unfolding strict_loop
strict_loop_complete {rest = []} fuel at units target (stop p q) h e = ground arith
strict_loop_complete {rest = b ∷ bs} zero at units target (stop p q) h e = absurd (omega arith)
strict_loop_complete {rest = b ∷ bs} (suc fuel) at units target (stop p q) h e = ground arith
strict_loop_complete zero at units target (rune n u r p q) h e = absurd (omega arith)
strict_loop_complete (suc fuel) at units target (rune {b} {bs} n u r p q) h e =
    let size = (decode_rune (b ∷ bs)).1 in
    let ur = units_of (decode_rune (b ∷ bs)).0 in
    let fits = decode_rune-Fits b bs in
    let later =
      strict_loop_complete fuel (at + size) (units + ur) target r
        (omega (arith, length-drop size (b ∷ bs), fits)) (omega arith) in
    let busy : (units == target) ≡ false = ground arith in
    let room : ltb target (units + ur) ≡ false = ground arith in
    rw (busy, room, later) (ap some (omega arith))

trimmed-concat :
    (xs : Bytes) (b : ℕ)
    → trimmed (xs ++ b ∷ []) ≡ (if is_break b then trimmed xs else xs ++ b ∷ [])
trimmed-concat [] b = refl
trimmed-concat (x ∷ []) b = ground arith
trimmed-concat (x ∷ y ∷ xs) b = ground (arith, trimmed-concat (y ∷ xs) b)

take-suc : (n : ℕ) (xs : Bytes) → n < length xs → take (suc n) xs ≡ take n xs ++ get_or xs n 0 ∷ []
take-suc n [] h = absurd (omega arith)
take-suc zero (x ∷ xs) h = refl
take-suc (suc n) (x ∷ xs) h = ap (◌∷◌ x) (take-suc n xs (omega arith))

get_or-drop : (s n : ℕ) (xs : Bytes) → get_or (drop s xs) n 0 ≡ get_or xs (s + n) 0
get_or-drop zero n xs = ap (λ k. get_or xs k 0) (omega arith)
get_or-drop (suc s) n [] = refl
get_or-drop (suc s) n (x ∷ xs) = get_or-drop s n xs ∙ ap (λ k. get_or (x ∷ xs) k 0) seam
  where
    seam : suc (s + n) ≡ suc s + n
    seam = omega arith

-- The first loop steps back over the line breaks.
pub trim_line-trimmed :
    (content : Bytes) (start n : ℕ)
    → start + n ≤ length content
    → trim_line content start n ≡ start + length (trimmed (take n (drop start content)))
unfolding trim_line
trim_line-trimmed content start zero h = omega arith
trim_line-trimmed content start (suc n) h =
    let line = drop start content in
    let last =
      rw (get_or-drop start n content) at
        (take-suc n line (omega (arith, length-drop start content))) in
    let ih = trim_line-trimmed content start n (omega arith) in
    rw (last, trimmed-concat (take n line) (get_or content (start + n) 0))
      (ground (
        arith,
        ih,
        length-append (take n line) (get_or content (start + n) 0 ∷ []),
        length-take n line,
        length-drop start content,
      ))
