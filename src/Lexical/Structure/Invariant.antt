-- ===== src/Lexical/Structure/Invariant.antt =====
-- internal/lexical/scan.go: the state that `ScanStructure` carries from line to line.
use kotlsp.Prelude.{
  ℕ, zero, suc, ◌+◌, ◌≤◌, ◌≡◌, refl, Bool, true, false, not, ◌&&◌, ◌||◌, [], ◌∷◌, Bytes, codes, ltb,
  ◌==◌, length, length-drop, drop, arith, Bool-cases, Option-cases, inl, inr,
}
use kotlsp.Lexical.Structure.{
  State, Counts, no_counts, counted, Round, stop, move, comment_round, quote_round, backtick_width,
  code_round, structure_round, structure_loop, scan_structure,
}
use kotlsp.Std.Strings.{has_prefix, index_byte}

-- At most one of a comment, a raw string and a literal is open, an escape stands in a literal,
-- and comments nest in Kotlin only.
pub record IsState (kotlin : Bool) (s : State) : Type 0 where
  pub comment_alone : 1 ≤ s.block_comment_depth → (s.triple ≡ false) × (s.quote ≡ 0)
  pub triple_alone : s.triple ≡ true → s.quote ≡ 0
  pub escape_quoted : s.escaped ≡ true → 1 ≤ s.quote
  pub java_flat : kotlin ≡ false → s.block_comment_depth ≤ 1

-- The state, and the number of brackets, behind a round; a round uses up the bytes it counts.
data RoundFits (kotlin : Bool) (c : Counts) : Round → Type 0 where
  stops : RoundFits kotlin c stop
  moves :
      {n : ℕ} {t : State} {d : Counts}
      → 1 ≤ n
      → IsState kotlin t
      → d.opens + d.closes ≤ suc (c.opens + c.closes)
      → RoundFits kotlin c (move n t d)

comment_round-Fits :
    (s : State) (kotlin : Bool) (rest : Bytes) (c : Counts)
    → IsState kotlin s
    → 1 ≤ s.block_comment_depth
    → RoundFits kotlin c (comment_round s kotlin rest c)
unfolding comment_round
comment_round-Fits s kotlin rest c i h =
    elim (Bool-cases (kotlin && has_prefix rest (codes "/*"))) [
      | inl q ↦
          rw (q, comment_round)
            (moves (omega arith)
              (record {
                comment_alone = λ _. i.comment_alone h;
                triple_alone = i.triple_alone;
                escape_quoted = i.escape_quoted;
                java_flat = λ k. ground arith;
              })
              (omega arith))
      | inr q ↦ elim (Bool-cases (has_prefix rest (codes "*/"))) [
        | inl r ↦
            rw (q, r, comment_round)
              (moves (omega arith)
                (record {
                  comment_alone = λ _. i.comment_alone h;
                  triple_alone = i.triple_alone;
                  escape_quoted = i.escape_quoted;
                  java_flat = λ k. let f = i.java_flat k in omega arith;
                })
                (omega arith))
        | inr r ↦ rw (q, r, comment_round) (moves (omega arith) i (omega arith))
      ]
    ]

quote_round-Fits :
    (s : State) (kotlin : Bool) (b : ℕ) (c : Counts)
    → IsState kotlin s
    → s.block_comment_depth ≡ 0
    → s.triple ≡ false
    → 1 ≤ s.quote
    → RoundFits kotlin c (quote_round s b c)
unfolding quote_round
quote_round-Fits s kotlin b c i h t q = elim (Bool-cases s.escaped) [
  | inl e ↦ rw (e, quote_round) (moves (omega arith) (flat s.quote false (λ f. cc)) (omega arith))
  | inr e ↦ elim (Bool-cases (b == 0x5c)) [
    | inl r ↦
        rw (e, r, quote_round) (moves (omega arith) (flat s.quote true (λ f. q)) (omega arith))
    | inr r ↦ elim (Bool-cases (b == s.quote)) [
      | inl l ↦
          rw (e, r, l, quote_round) (moves (omega arith) (flat 0 false (λ f. cc)) (omega arith))
      | inr l ↦
          rw (e, r, l, quote_round)
            (moves (omega arith) (flat s.quote false (λ f. cc)) (omega arith))
    ]
  ]
]
  where
    flat :
        (quote : ℕ) (escaped : Bool)
        → (escaped ≡ true → 1 ≤ quote)
        → IsState kotlin (record s { quote = quote; escaped = escaped })
    flat quote escaped f = record {
      comment_alone = λ l. absurd (omega arith);
      triple_alone = λ l. cc;
      escape_quoted = f;
      java_flat = i.java_flat;
    }

counted-le :
    (c : Counts) (b : ℕ) → (counted c b).opens + (counted c b).closes ≤ suc (c.opens + c.closes)
unfolding counted
counted-le c b = ground arith

code_round-Fits :
    (s : State) (kotlin : Bool) (b : ℕ) (bs : Bytes) (c : Counts)
    → IsState kotlin s
    → s.block_comment_depth ≡ 0
    → s.triple ≡ false
    → s.quote ≡ 0
    → RoundFits kotlin c (code_round s kotlin b bs c)
unfolding code_round
code_round-Fits s kotlin b bs c i h t q = elim (Bool-cases (has_prefix (b ∷ bs) (codes "\"\"\""))) [
  | inl e ↦ rw (e, code_round) (moves (omega arith) raw (omega arith))
  | inr e ↦ elim (Bool-cases (has_prefix (b ∷ bs) (codes "//"))) [
    | inl f ↦ rw (e, f, code_round) stops
    | inr f ↦ elim (Bool-cases (has_prefix (b ∷ bs) (codes "/*"))) [
      | inl g ↦ rw (e, f, g, code_round) (moves (omega arith) comment (omega arith))
      | inr g ↦ elim (Bool-cases (kotlin && b == 0x60)) [
        | inl k ↦ rw (e, f, g, k, code_round) (moves wide i (omega arith))
        | inr k ↦ elim (Bool-cases (b == 0x27 || b == 0x22)) [
          | inl l ↦
              rw (e, f, g, k, l, code_round)
                (moves (omega arith) (literal (ground arith)) (omega arith))
          | inr l ↦ rw (e, f, g, k, l, code_round) (moves (omega arith) i (counted-le c b))
        ]
      ]
    ]
  ]
]
  where
    wide : 1 ≤ backtick_width bs
    wide = elim (Option-cases (index_byte bs 0x60)) [
      | inl e ↦ rw (e, backtick_width) (omega arith)
      | inr (n, e) ↦ rw (e, backtick_width) (omega arith)
    ]

    raw : IsState kotlin (record s { triple = true })
    raw = record {
      comment_alone = λ l. absurd (omega arith);
      triple_alone = λ l. q;
      escape_quoted = i.escape_quoted;
      java_flat = i.java_flat;
    }

    comment : IsState kotlin (record s { block_comment_depth = 1 })
    comment = record {
      comment_alone = λ l. (t, q);
      triple_alone = i.triple_alone;
      escape_quoted = i.escape_quoted;
      java_flat = λ l. omega arith;
    }

    literal : 1 ≤ b → IsState kotlin (record s { quote = b })
    literal some_byte = record {
      comment_alone = λ l. absurd (omega arith);
      triple_alone = λ l. cc;
      escape_quoted = λ l. some_byte;
      java_flat = i.java_flat;
    }

structure_round-Fits :
    (s : State) (kotlin : Bool) (b : ℕ) (bs : Bytes) (c : Counts)
    → IsState kotlin s
    → RoundFits kotlin c (structure_round s kotlin b bs c)
unfolding structure_round
structure_round-Fits s kotlin b bs c i = elim (Bool-cases (ltb 0 s.block_comment_depth)) [
  | inl d ↦ rw (d, structure_round) (comment_round-Fits s kotlin (b ∷ bs) c i (ground arith))
  | inr d ↦
      let flat : s.block_comment_depth ≡ 0 = ground arith in
      elim (Bool-cases s.triple) [
        | inl t ↦ elim (Bool-cases (has_prefix (b ∷ bs) (codes "\"\"\""))) [
          | inl e ↦
              simp (d, t, e, structure_round)
                (moves (omega arith)
                  (record {
                    comment_alone = λ l. absurd (omega arith);
                    triple_alone = λ l. cc;
                    escape_quoted = i.escape_quoted;
                    java_flat = i.java_flat;
                  })
                  (omega arith))
          | inr e ↦ simp (d, t, e, structure_round) (moves (omega arith) i (omega arith))
        ]
        | inr t ↦ elim (Bool-cases (not (s.quote == 0))) [
          | inl q ↦
              simp (d, t, q, structure_round)
                (quote_round-Fits s kotlin b c i flat t (ground arith))
          | inr q ↦
              simp (d, t, q, structure_round)
                (code_round-Fits s kotlin b bs c i flat t (ground arith))
        ]
      ]
]

structure_loop-IsState :
    (fuel : ℕ) (s : State) (kotlin : Bool) (rest : Bytes) (c : Counts)
    → IsState kotlin s
    → IsState kotlin (structure_loop fuel s kotlin rest c).0
      × ((structure_loop fuel s kotlin rest c).1.opens
            + (structure_loop fuel s kotlin rest c).1.closes
          ≤ c.opens + c.closes + length rest)
unfolding structure_loop
structure_loop-IsState zero s kotlin rest c i = (i, omega arith)
structure_loop-IsState (suc fuel) s kotlin [] c i = (i, omega arith)
structure_loop-IsState (suc fuel) s kotlin (b ∷ bs) c i =
    split (structure_round s kotlin b bs c) refl (structure_round-Fits s kotlin b bs c i)
      (λ n t d j. structure_loop-IsState fuel t kotlin (drop n (b ∷ bs)) d j)
  where
    split :
        (r : Round)
        → structure_round s kotlin b bs c ≡ r
        → RoundFits kotlin c r
        → ((n : ℕ) (t : State) (d : Counts)
            → IsState kotlin t
            → IsState kotlin (structure_loop fuel t kotlin (drop n (b ∷ bs)) d).0
              × ((structure_loop fuel t kotlin (drop n (b ∷ bs)) d).1.opens
                    + (structure_loop fuel t kotlin (drop n (b ∷ bs)) d).1.closes
                  ≤ d.opens + d.closes + length (drop n (b ∷ bs))))
        → IsState kotlin (structure_loop (suc fuel) s kotlin (b ∷ bs) c).0
          × ((structure_loop (suc fuel) s kotlin (b ∷ bs) c).1.opens
                + (structure_loop (suc fuel) s kotlin (b ∷ bs) c).1.closes
              ≤ c.opens + c.closes + suc (length bs))
    split stop e stops later = rw (e, structure_loop) (i, omega arith)
    split (move n t d) e (moves l j m) later =
        let (k, bound) = later n t d j in
        let size = length-drop n (b ∷ bs) in rw (e, structure_loop) (k, omega arith)

-- Behind a line no literal is open, at most one of a comment and a raw string is, Java comments
-- do not nest, and the line has no fewer bytes than braces were counted.
pub scan_structure-IsState :
    (s : State) (line : Bytes) (kotlin : Bool)
    → IsState kotlin s
    → IsState kotlin (scan_structure s line kotlin).0
      × ((scan_structure s line kotlin).0.quote ≡ 0)
      × ((scan_structure s line kotlin).1.opens + (scan_structure s line kotlin).1.closes
          ≤ length line)
unfolding scan_structure
scan_structure-IsState s line kotlin i =
    let (j, l) = structure_loop-IsState (length line) s kotlin line no_counts i in
    (
      record {
        comment_alone = λ h. ((j.comment_alone h).0, refl);
        triple_alone = λ h. refl;
        escape_quoted = λ h. cc;
        java_flat = j.java_flat;
      },
      refl,
      omega arith,
    )
