-- ===== src/Lexical/Regions/Scan.antt =====
-- internal/lexical/scan.go: every region that `ScanRegionsBounded` visits lies within the text.
use kotlsp.Prelude.{
  ℕ, zero, suc, ◌+◌, ◌-◌, ◌≤◌, ◌≡◌, refl, Bool, List, [], ◌∷◌, Bytes, length, length-drop, drop,
  arith,
}
use kotlsp.Lexical.Regions.{
  Region, Frame, Move, too_deep, emit, next, region_move, regions_loop, scan_regions_bounded,
}
use kotlsp.Lexical.Regions.Fits.{AllFit, FramesFit, StackFits, MoveFits, refuses, nexts, emits}
use kotlsp.Lexical.Regions.Bounds.{region_move-Fits, finish-AllFit}

-- The regions of a scan fit, and their number keeps to a limit.
abbrev pub Visits : ℕ → ℕ → List Region × Bool → Type 0
Visits size left result = AllFit size result.0 × (length result.0 ≤ left)

FramesFit-clamped : (at size : ℕ) (fs : List Frame) → FramesFit at size fs → FramesFit size size fs
FramesFit-clamped at size [] f = tt
FramesFit-clamped at size (f ∷ fs) (a, b, c) = (b, b, FramesFit-clamped at size fs c)

regions_loop-Visits :
    (fuel : ℕ) (kotlin : Bool) (size left at : ℕ) (rest : Bytes) (stack : List Frame)
    → length rest ≡ size - at
    → StackFits at size stack
    → Visits size left (regions_loop fuel kotlin size left at rest stack)
unfolding regions_loop
regions_loop-Visits zero kotlin size left at rest stack e s =
    finish-AllFit size left stack (FramesFit-clamped at size stack s.frames)
regions_loop-Visits (suc fuel) kotlin size left at [] stack e s =
    finish-AllFit size left stack (FramesFit-clamped at size stack s.frames)
regions_loop-Visits (suc fuel) kotlin size left at (b ∷ bs) stack e s =
    split (region_move kotlin at b bs stack) refl
      (region_move-Fits at size b bs (omega arith) kotlin stack s)
      (λ few n st t.
        regions_loop-Visits fuel kotlin size few (at + n) (drop n (b ∷ bs)) st
          (omega (arith, length-drop n (b ∷ bs))) t)
  where
    split :
        (m : Move)
        → region_move kotlin at b bs stack ≡ m
        → MoveFits at size m
        → ((few n : ℕ) (st : List Frame)
            → StackFits (at + n) size st
            → Visits size few (regions_loop fuel kotlin size few (at + n) (drop n (b ∷ bs)) st))
        → Visits size left (regions_loop (suc fuel) kotlin size left at (b ∷ bs) stack)
    split too_deep q refuses later = rw (q, regions_loop) (tt, omega arith)
    split (next n st) q (nexts l t) later = rw (q, regions_loop) (later left n st t)
    split (emit n st r) q (emits l t f) later = visit left (λ few. later few n st t)
      where
        visit :
            (limit : ℕ)
            → ((few : ℕ)
                → Visits size few (regions_loop fuel kotlin size few (at + n) (drop n (b ∷ bs)) st))
            → Visits size limit (regions_loop (suc fuel) kotlin size limit at (b ∷ bs) stack)
        visit zero next_ones = rw (q, regions_loop) (tt, omega arith)
        visit (suc few) next_ones =
            let (all, bound) = next_ones few in rw (q, regions_loop) ((f, all), omega arith)

-- Each region that `ScanRegionsBounded` visits has its body within its outer bounds and these
-- within the text, and no more regions are visited than the limit allows.
pub scan_regions_bounded-Visits :
    (text : Bytes) (kotlin : Bool) (max_regions : ℕ)
    → Visits (length text) max_regions (scan_regions_bounded text kotlin max_regions)
unfolding scan_regions_bounded
scan_regions_bounded-Visits text kotlin max_regions =
    regions_loop-Visits (length text) kotlin (length text) max_regions 0 text [] (omega arith)
      (record { frames = tt; shallow = omega arith })
