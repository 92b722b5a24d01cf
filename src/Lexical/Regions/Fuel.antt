-- ===== src/Lexical/Regions/Fuel.antt =====
-- internal/lexical/scan.go: the loop of `ScanRegionsBounded` comes to its end.
use kotlsp.Prelude.{
  ℕ, zero, suc, ◌+◌, ◌-◌, ◌≤◌, ◌≡◌, refl, ap, Bool, List, [], ◌∷◌, Bytes, length, length-drop, drop,
  arith,
}
use kotlsp.Lexical.Regions.{Frame, Move, too_deep, emit, next, region_move, regions_loop}
use kotlsp.Lexical.Regions.Fits.{StackFits, MoveFits, refuses, nexts, emits}
use kotlsp.Lexical.Regions.Bounds.{region_move-Fits}

-- A round for each remaining byte is enough: with more fuel the loop visits and returns the same.
regions_loop_enough :
    (fuel more : ℕ) (kotlin : Bool) (size left at : ℕ) (rest : Bytes) (stack : List Frame)
    → length rest ≡ size - at
    → StackFits at size stack
    → length rest ≤ fuel
    → length rest ≤ more
    → regions_loop fuel kotlin size left at rest stack
      ≡ regions_loop more kotlin size left at rest stack
unfolding regions_loop
regions_loop_enough zero zero kotlin size left at [] stack e s h k = refl
regions_loop_enough zero (suc more) kotlin size left at [] stack e s h k = refl
regions_loop_enough (suc fuel) zero kotlin size left at [] stack e s h k = refl
regions_loop_enough (suc fuel) (suc more) kotlin size left at [] stack e s h k = refl
regions_loop_enough zero more kotlin size left at (b ∷ bs) stack e s h k = absurd (omega arith)
regions_loop_enough (suc fuel) zero kotlin size left at (b ∷ bs) stack e s h k =
    absurd (omega arith)
regions_loop_enough (suc fuel) (suc more) kotlin size left at (b ∷ bs) stack e s h k =
    split (region_move kotlin at b bs stack) refl
      (region_move-Fits at size b bs (omega arith) kotlin stack s)
      (λ few n st l t.
        let d = length-drop n (b ∷ bs) in
        regions_loop_enough fuel more kotlin size few (at + n) (drop n (b ∷ bs)) st (omega arith) t
          (omega arith) (omega arith))
  where
    split :
        (m : Move)
        → region_move kotlin at b bs stack ≡ m
        → MoveFits at size m
        → ((few n : ℕ) (st : List Frame)
            → 1 ≤ n
            → StackFits (at + n) size st
            → regions_loop fuel kotlin size few (at + n) (drop n (b ∷ bs)) st
              ≡ regions_loop more kotlin size few (at + n) (drop n (b ∷ bs)) st)
        → regions_loop (suc fuel) kotlin size left at (b ∷ bs) stack
          ≡ regions_loop (suc more) kotlin size left at (b ∷ bs) stack
    split too_deep q refuses later = rw (q, regions_loop) refl
    split (next n st) q (nexts l t) later = rw (q, regions_loop) (later left n st l t)
    split (emit n st r) q (emits l t f) later = visit left (λ few. later few n st l t)
      where
        visit :
            (limit : ℕ)
            → ((few : ℕ)
                → regions_loop fuel kotlin size few (at + n) (drop n (b ∷ bs)) st
                  ≡ regions_loop more kotlin size few (at + n) (drop n (b ∷ bs)) st)
            → regions_loop (suc fuel) kotlin size limit at (b ∷ bs) stack
              ≡ regions_loop (suc more) kotlin size limit at (b ∷ bs) stack
        visit zero next_ones = rw (q, regions_loop) refl
        visit (suc few) next_ones = rw (q, regions_loop) (ap (λ x. (r ∷ x.0, x.1)) (next_ones few))
