-- ===== src/Lexical/Regions/Fits.antt =====
-- internal/lexical/scan.go: regions and open frames that lie within the text.
use kotlsp.Prelude.{
  ℕ, zero, suc, ◌+◌, ◌≤◌, ◌≡◌, Bool, ◌&&◌, List, [], ◌∷◌, some, Bytes, codes, leb, length,
  length-drop, drop, arith, Bool-cases, Option-cases, inl, inr,
}
use kotlsp.Lexical.Regions.{
  Region, Frame, FrameKind, Move, too_deep, emit, next, push, opened, identifier_run, line_run,
  comment_run, depth_round,
}
use kotlsp.Std.Strings.{has_prefix, has_prefix-le}

-- A region within a text of some size.
pub record RegionFits (size : ℕ) (r : Region) : Type 0 where
  pub outer_first : r.outer_start ≤ r.start
  pub ordered : r.start ≤ r.end
  pub outer_last : r.end ≤ r.outer_end
  pub inside : r.outer_end ≤ size

abbrev pub AllFit : ℕ → List Region → Type 0
AllFit size [] = Unit
AllFit size (r ∷ rs) = RegionFits size r × AllFit size rs

abbrev pub FramesFit : ℕ → ℕ → List Frame → Type 0
FramesFit at size [] = Unit
FramesFit at size (f ∷ fs) = (f.body_start ≤ at) × (f.body_start ≤ size) × FramesFit at size fs

pub record StackFits (at size : ℕ) (stack : List Frame) : Type 0 where
  pub frames : FramesFit at size stack
  pub shallow : length stack ≤ 1024

FramesFit-mono :
    (at later size : ℕ) (fs : List Frame)
    → at ≤ later
    → FramesFit at size fs
    → FramesFit later size fs
FramesFit-mono at later size [] l a = tt
FramesFit-mono at later size (f ∷ fs) l (a, b, c) =
    (omega arith, b, FramesFit-mono at later size fs l c)

pub StackFits-mono :
    (at later size : ℕ) (fs : List Frame)
    → at ≤ later
    → StackFits at size fs
    → StackFits later size fs
StackFits-mono at later size fs l s = record {
  frames = FramesFit-mono at later size fs l s.frames;
  shallow = s.shallow;
}

pub StackFits-tail :
    (at size : ℕ) (f : Frame) (fs : List Frame) → StackFits at size (f ∷ fs) → StackFits at size fs
StackFits-tail at size f fs s =
    let l = s.shallow in record { frames = s.frames.2; shallow = omega arith }

-- What a round leaves behind.
pub data MoveFits (at size : ℕ) : Move → Type 0 where
  refuses : MoveFits at size too_deep
  nexts :
      {n : ℕ} {stack : List Frame}
      → 1 ≤ n
      → StackFits (at + n) size stack
      → MoveFits at size (next n stack)
  emits :
      {n : ℕ} {stack : List Frame} {r : Region}
      → 1 ≤ n
      → StackFits (at + n) size stack
      → RegionFits size r
      → MoveFits at size (emit n stack r)

pub identifier_run-le : (s : Bytes) → identifier_run s ≤ length s
unfolding identifier_run
identifier_run-le [] = omega arith
identifier_run-le (b ∷ s) = let ih = identifier_run-le s in ground arith

pub line_run-le : (s : Bytes) → line_run s ≤ length s
unfolding line_run
line_run-le [] = omega arith
line_run-le (b ∷ s) = let ih = line_run-le s in ground arith

depth_round-le :
    (kotlin : Bool) (depth b : ℕ) (bs : Bytes) (n d : ℕ)
    → depth_round kotlin depth (b ∷ bs) ≡ some (n, d)
    → n ≤ suc (length bs)
unfolding depth_round
depth_round-le kotlin depth b bs n d e =
    let l = has_prefix-le (b ∷ bs) (codes "/*") in
    let r = has_prefix-le (b ∷ bs) (codes "*/") in
    elim (Bool-cases (kotlin && has_prefix (b ∷ bs) (codes "/*"))) [
      | inl q ↦ ground arith
      | inr q ↦ ground arith
    ]

pub comment_run-le :
    (fuel : ℕ) (kotlin : Bool) (depth : ℕ) (s : Bytes) → comment_run fuel kotlin depth s ≤ length s
unfolding comment_run depth_round
comment_run-le zero kotlin depth s = omega arith
comment_run-le (suc fuel) kotlin depth [] = omega arith
comment_run-le (suc fuel) kotlin depth (b ∷ bs) =
    elim (Option-cases (depth_round kotlin depth (b ∷ bs))) [
      | inl e ↦ rw (e, comment_run) (omega arith)
      | inr ((n, d), e) ↦
          let w = depth_round-le kotlin depth b bs n d e in
          let ih = comment_run-le fuel kotlin d (drop n (b ∷ bs)) in
          let size = length-drop n (b ∷ bs) in rw (e, comment_run) (omega arith)
    ]

pub push-Fits :
    (at size n : ℕ) (kind : FrameKind) (start : ℕ) (stack : List Frame)
    → StackFits at size stack
    → 1 ≤ n
    → start ≤ at + n
    → start ≤ size
    → MoveFits at size (push n kind start stack)
push-Fits at size n kind start stack s l a b = elim (Bool-cases (leb 1024 (length stack))) [
  | inl q ↦ rw (q, push) refuses
  | inr q ↦
      let moved = StackFits-mono at (at + n) size stack (omega arith) s in
      let room : length (opened kind start ∷ stack) ≤ 1024 = ground arith in
      rw (q, push) (nexts l (record { frames = (a, b, moved.frames); shallow = room }))
]
