-- ===== src/Lexical/Regions/Bounds.antt =====
-- internal/lexical/scan.go: regions lie within the text, and the scan keeps to its limits.
use kotlsp.Prelude.{
  ℕ, zero, suc, ◌+◌, ◌-◌, ◌≤◌, ◌≡◌, refl, Bool, true, ◌&&◌, ◌||◌, List, [], ◌∷◌, Bytes, codes, ◌==◌,
  length, length-drop, drop, arith, Bool-cases, inl, inr,
}
use kotlsp.Lexical.Regions.{
  Frame, FrameKind, quoted, triple, braces, identifier_start, dollar, quoted_move, triple_move,
  block_move, brace_move, code_move, region_move, unfinished, finish,
}
use kotlsp.Std.Strings.{has_prefix, has_prefix-le}
use kotlsp.Lexical.Regions.Fits.{
  AllFit, FramesFit, MoveFits, StackFits, StackFits-mono, StackFits-tail, comment_run-le, emits,
  identifier_run-le, line_run-le, nexts, push-Fits,
}

module _ (at size : ℕ) (b : ℕ) (bs : Bytes) (here : at + suc (length bs) ≡ size) where
  advanced : (n : ℕ) (stack : List Frame) → StackFits at size stack → StackFits (at + n) size stack
  advanced n stack s = StackFits-mono at (at + n) size stack (omega arith) s

  dollar-Fits :
      (stack : List Frame) → StackFits at size stack → MoveFits at size (dollar at bs stack)
  unfolding dollar
  dollar-Fits stack s = elim (Bool-cases (has_prefix bs (codes "{"))) [
    | inl q ↦
        rw (q, dollar)
          (push-Fits at size 2 braces (at + 1) stack s (omega arith) (omega arith) (omega arith))
    | inr q ↦ elim (Bool-cases (identifier_start bs)) [
      | inl r ↦
          let w = identifier_run-le bs in
          rw (q, r, dollar)
            (emits (omega arith) (advanced _ stack s) (record {
              outer_first = omega arith;
              ordered = omega arith;
              outer_last = omega arith;
              inside = omega arith;
            }))
      | inr r ↦ rw (q, r, dollar) (nexts (omega arith) (advanced 1 stack s))
    ]
  ]

  quoted_move-Fits :
      (kotlin : Bool) (top : Frame) (stack : List Frame)
      → StackFits at size (top ∷ stack)
      → MoveFits at size (quoted_move kotlin at b bs top stack)
  unfolding quoted_move
  quoted_move-Fits kotlin top stack s = elim (Bool-cases (b == 0x5c)) [
    | inl q ↦ rw (q, quoted_move) (nexts (omega arith) (advanced 2 (top ∷ stack) s))
    | inr q ↦ elim (Bool-cases (b == 0x22 || b == 0x0a)) [
      | inl r ↦
          let f = s.frames.0 in
          rw (q, r, quoted_move)
            (emits (omega arith) (advanced 1 stack (StackFits-tail at size top stack s)) (record {
              outer_first = omega arith;
              ordered = f;
              outer_last = omega arith;
              inside = omega arith;
            }))
      | inr r ↦ elim (Bool-cases (kotlin && b == 0x24)) [
        | inl d ↦ rw (q, r, d, quoted_move) (dollar-Fits (top ∷ stack) s)
        | inr d ↦ rw (q, r, d, quoted_move) (nexts (omega arith) (advanced 1 (top ∷ stack) s))
      ]
    ]
  ]

  triple_move-Fits :
      (kotlin : Bool) (top : Frame) (stack : List Frame)
      → StackFits at size (top ∷ stack)
      → MoveFits at size (triple_move kotlin at b bs top stack)
  unfolding triple_move
  triple_move-Fits kotlin top stack s = elim (Bool-cases (has_prefix (b ∷ bs) (codes "\"\"\""))) [
    | inl r ↦
        let f = s.frames.0 in
        let l = has_prefix-le (b ∷ bs) (codes "\"\"\"") r in
        rw (r, triple_move)
          (emits (omega arith) (advanced 3 stack (StackFits-tail at size top stack s)) (record {
            outer_first = omega arith;
            ordered = f;
            outer_last = omega arith;
            inside = omega arith;
          }))
    | inr r ↦ elim (Bool-cases (kotlin && b == 0x24)) [
      | inl d ↦ rw (r, d, triple_move) (dollar-Fits (top ∷ stack) s)
      | inr d ↦ rw (r, d, triple_move) (nexts (omega arith) (advanced 1 (top ∷ stack) s))
    ]
  ]

  brace_move-Fits :
      (stack : List Frame) → StackFits at size stack → MoveFits at size (brace_move at b stack)
  unfolding brace_move
  brace_move-Fits [] s = nexts (omega arith) (advanced 1 [] s)
  brace_move-Fits (top ∷ stack) s = elim (Bool-cases (b == 0x7b)) [
    | inl q ↦ rw (q, brace_move) (nexts (omega arith) (counts (suc top.brace_depth)))
    | inr q ↦ elim (Bool-cases (b == 0x7d)) [
      | inl r ↦ elim (Bool-cases (top.brace_depth == 0)) [
        | inl e ↦
            let f = s.frames.0 in
            rw (q, r, e, brace_move)
              (emits (omega arith) (advanced 1 stack (StackFits-tail at size top stack s)) (record {
                outer_first = omega arith;
                ordered = omega arith;
                outer_last = omega arith;
                inside = omega arith;
              }))
        | inr e ↦ rw (q, r, e, brace_move) (nexts (omega arith) (counts (top.brace_depth - 1)))
      ]
      | inr r ↦ rw (q, r, brace_move) (nexts (omega arith) (advanced 1 (top ∷ stack) s))
    ]
  ]
    where
      counts : (d : ℕ) → StackFits (at + 1) size (record top { brace_depth = d } ∷ stack)
      counts d =
          let a = advanced 1 (top ∷ stack) s in record { frames = a.frames; shallow = a.shallow }

  block_move-Fits :
      (kotlin : Bool) (stack : List Frame)
      → StackFits at size stack
      → has_prefix (b ∷ bs) (codes "/*") ≡ true
      → MoveFits at size (block_move kotlin at (b ∷ bs) stack)
  unfolding block_move
  block_move-Fits kotlin stack s e =
      let l = has_prefix-le (b ∷ bs) (codes "/*") e in
      let w = comment_run-le (suc (length bs)) kotlin 1 (drop 2 (b ∷ bs)) in
      let d = length-drop 2 (b ∷ bs) in
      emits (omega arith) (advanced _ stack s) (record {
        outer_first = ground arith;
        ordered = ground arith;
        outer_last = omega arith;
        inside = omega arith;
      })

  code_move-Fits :
      (kotlin : Bool) (stack : List Frame)
      → StackFits at size stack
      → MoveFits at size (code_move kotlin at b bs stack)
  unfolding code_move
  code_move-Fits kotlin stack s = elim (Bool-cases (has_prefix (b ∷ bs) (codes "//"))) [
    | inl q ↦
        let l = has_prefix-le (b ∷ bs) (codes "//") q in
        let w = line_run-le (drop 1 bs) in
        let d = length-drop 1 bs in
        rw (q, code_move)
          (emits (omega arith) (advanced _ stack s) (record {
            outer_first = omega arith;
            ordered = omega arith;
            outer_last = omega arith;
            inside = omega arith;
          }))
    | inr q ↦ elim (Bool-cases (has_prefix (b ∷ bs) (codes "/*"))) [
      | inl r ↦ rw (q, r, code_move) (block_move-Fits kotlin stack s r)
      | inr r ↦ elim (Bool-cases (has_prefix (b ∷ bs) (codes "\"\"\""))) [
        | inl t ↦
            let l = has_prefix-le (b ∷ bs) (codes "\"\"\"") t in
            rw (q, r, t, code_move)
              (push-Fits at size 3 triple (at + 3) stack s (omega arith) (omega arith)
                (omega arith))
        | inr t ↦ elim (Bool-cases (b == 0x22)) [
          | inl u ↦
              rw (q, r, t, u, code_move)
                (push-Fits at size 1 quoted (at + 1) stack s (omega arith) (omega arith)
                  (omega arith))
          | inr u ↦ elim (Bool-cases (b == 0x27)) [
            | inl v ↦
                rw (q, r, t, u, v, code_move)
                  (emits (omega arith) (advanced _ stack s) (record {
                    outer_first = omega arith;
                    ordered = omega arith;
                    outer_last = omega arith;
                    inside = omega arith;
                  }))
            | inr v ↦ rw (q, r, t, u, v, code_move) (brace_move-Fits stack s)
          ]
        ]
      ]
    ]
  ]

  pub region_move-Fits :
      (kotlin : Bool) (stack : List Frame)
      → StackFits at size stack
      → MoveFits at size (region_move kotlin at b bs stack)
  unfolding region_move
  region_move-Fits kotlin [] s = code_move-Fits kotlin [] s
  region_move-Fits kotlin (top ∷ stack) s = by_kind top.kind refl
    where
      by_kind :
          (k : FrameKind)
          → top.kind ≡ k
          → MoveFits at size (region_move kotlin at b bs (top ∷ stack))
      by_kind quoted e = simp (e, region_move) (quoted_move-Fits kotlin top stack s)
      by_kind triple e = simp (e, region_move) (triple_move-Fits kotlin top stack s)
      by_kind braces e = simp (e, region_move) (code_move-Fits kotlin (top ∷ stack) s)

pub finish-AllFit :
    (size left : ℕ) (stack : List Frame)
    → FramesFit size size stack
    → AllFit size (finish size left stack).0 × (length (finish size left stack).0 ≤ left)
unfolding finish unfinished
finish-AllFit size left [] f = (tt, omega arith)
finish-AllFit size zero (top ∷ stack) f = (tt, omega arith)
finish-AllFit size (suc left) (top ∷ stack) (a, c, f) =
    let (all, few) = finish-AllFit size left stack f in
    (
      (
        record {
          outer_first = omega arith;
          ordered = a;
          outer_last = omega arith;
          inside = omega arith;
        },
        all,
      ),
      omega arith,
    )
