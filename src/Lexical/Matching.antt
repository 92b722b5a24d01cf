-- ===== src/Lexical/Matching.antt =====
-- internal/lexical/scan.go: `MatchingDelimiter` finds the end of a balanced group of tokens.
use kotlsp.Prelude.{
  ℕ, zero, suc, ◌≤◌, ◌<◌, ◌≡◌, ◌↔◌, refl, sym, ap, ◌∙◌, Bool, true, false, not, ◌||◌, List, [], ◌∷◌,
  ◌++◌, append_assoc, none, some, Bytes, codes, same, same_trans, pos, length, length-append, arith,
  Bool-cases, inl, inr,
}
use mathlib.Core.Option.{some-injective}
use kotlsp.Prelude.Int.{ltb_ℤ}
use kotlsp.Lexical.{Unicode, Token}
use kotlsp.Lexical.Nesting.{
  closed_at, open_at, closing_step, closing_loop, opening_loop, matching_delimiter, equals,
}
use kotlsp.Lexical.Tokenize.{tokenize_bounded}

-- Tokens in which every opening delimiter has its closing one.
pub data Balanced (opening closing : Bytes) : List Token → Type 0 where
  empty : Balanced opening closing []
  other :
      {t : Token} {ts : List Token}
      → same t.text opening ≡ false
      → same t.text closing ≡ false
      → Balanced opening closing ts
      → Balanced opening closing (t ∷ ts)
  group :
      {o : Token} {ts : List Token} (c : Token) (inside rest : List Token)
      → ts ≡ inside ++ (c ∷ rest)
      → same o.text opening ≡ true
      → same c.text closing ≡ true
      → Balanced opening closing inside
      → Balanced opening closing rest
      → Balanced opening closing (o ∷ ts)

abbrev pub AllBefore : ℕ → List Token → Type 0
AllBefore start [] = Unit
AllBefore start (t ∷ ts) = (t.start < start) × AllBefore start ts

-- The delimiter at `start` is closed by the one at `at`.
pub record IsMatch (opening closing : Bytes) (start at : ℕ) (tokens : List Token) : Type 0 where
  pub before : List Token
  pub first : Token
  pub inside : List Token
  pub last : Token
  pub after : List Token
  pub split : tokens ≡ before ++ (first ∷ (inside ++ (last ∷ after)))
  pub earlier : AllBefore start before
  pub starts : first.start ≡ start
  pub opens : same first.text opening ≡ true
  pub balanced : Balanced opening closing inside
  pub closes : same last.text closing ≡ true
  pub ends : last.start ≡ at

split_twice :
    {ts : List Token} (inside : List Token) (c : Token) (after more : List Token) (last : Token)
    (rest : List Token)
    → ts ≡ inside ++ (c ∷ after)
    → after ≡ more ++ (last ∷ rest)
    → ts ≡ (inside ++ (c ∷ more)) ++ (last ∷ rest)
split_twice inside c after more last rest e f =
    e ∙ ap (λ xs. inside ++ (c ∷ xs)) f ∙ sym (append_assoc inside (c ∷ more) (last ∷ rest))

module _ (opening closing : Bytes) (distinct : same opening closing ≡ false)
    (plain : same closing (codes ">") ≡ false) where
  closing-not_opening : (s : Bytes) → same s closing ≡ true → same s opening ≡ false
  closing-not_opening s h = elim (Bool-cases (same s opening)) [
    | inl q ↦ let t = same_trans s opening closing q in ground arith
    | inr q ↦ q
  ]

  step_open :
      (d : ℕ) (t : Token)
      → same t.text opening ≡ true
      → closing_step opening closing d t ≡ open_at (suc d)
  unfolding closing_step
  step_open d t h = rw (h, closing_step) refl

  step_last :
      (t : Token)
      → same t.text closing ≡ true
      → closing_step opening closing 1 t ≡ closed_at t.start
  unfolding closing_step
  step_last t h = rw (closing-not_opening t.text h, h, closing_step) refl

  step_close :
      (d : ℕ) (t : Token)
      → same t.text closing ≡ true
      → closing_step opening closing (suc (suc d)) t ≡ open_at (suc d)
  unfolding closing_step
  step_close d t h = rw (closing-not_opening t.text h, h, closing_step) ground arith

  step_other :
      (d : ℕ) (t : Token)
      → same t.text opening ≡ false
      → same t.text closing ≡ false
      → closing_step opening closing d t ≡ open_at d
  unfolding closing_step
  step_other d t h k = rw (h, k, plain, closing_step) refl

  -- A balanced run leaves the depth as it is.
  closing_loop-Balanced :
      (d : ℕ) (ts rest : List Token)
      → Balanced opening closing ts
      → closing_loop opening closing (suc d) (ts ++ rest)
        ≡ closing_loop opening closing (suc d) rest
  unfolding closing_loop
  closing_loop-Balanced d [] rest empty = refl
  closing_loop-Balanced d (t ∷ ts) rest (other h k b) =
      rw (step_other (suc d) t h k, closing_loop) (closing_loop-Balanced d ts rest b)
  closing_loop-Balanced d (o ∷ ts) rest (group c inside more e h k b b') =
      let across = ap (λ xs. xs ++ rest) e ∙ append_assoc inside (c ∷ more) rest in
      rw (step_open (suc d) o h, closing_loop, across)
        (closing_loop-Balanced (suc d) inside (c ∷ (more ++ rest)) b
          ∙ rw (step_close d c k, closing_loop) (closing_loop-Balanced d more rest b'))

  -- What the loop comes to behind a balanced run and its closing delimiter.
  abbrev Ends : ℕ → Token → List Token → ℕ → Type 0
  Ends zero c rest at = c.start ≡ at
  Ends (suc d) c rest at = closing_loop opening closing (suc d) rest ≡ some at

  record Run (d : ℕ) (ts : List Token) (at : ℕ) : Type 0 where
    inside : List Token
    last : Token
    after : List Token
    split : ts ≡ inside ++ (last ∷ after)
    balanced : Balanced opening closing inside
    closes : same last.text closing ≡ true
    ends : Ends d last after at

  closed-Run :
      (d : ℕ) (t : Token) (ts : List Token) (at : ℕ)
      → same t.text closing ≡ true
      → closing_loop opening closing (suc d) (t ∷ ts) ≡ some at
      → Run d (t ∷ ts) at
  unfolding closing_loop
  closed-Run zero t ts at r e = record {
    inside = [];
    last = t;
    after = ts;
    split = refl;
    balanced = empty;
    closes = r;
    ends = some-injective _ _ (rw (step_last t r, closing_loop) at e);
  }
  closed-Run (suc d) t ts at r e = record {
    inside = [];
    last = t;
    after = ts;
    split = refl;
    balanced = empty;
    closes = r;
    ends = rw (step_close d t r, closing_loop) at e;
  }

  closing_loop-Run :
      (fuel d : ℕ) (ts : List Token) (at : ℕ)
      → length ts ≤ fuel
      → closing_loop opening closing (suc d) ts ≡ some at
      → Run d ts at
  unfolding closing_loop
  closing_loop-Run fuel d [] at h e = cc
  closing_loop-Run zero d (t ∷ ts) at h e = absurd (omega arith)
  closing_loop-Run (suc fuel) d (t ∷ ts) at h e = elim (Bool-cases (same t.text opening)) [
    | inl q ↦
        let i =
          closing_loop-Run fuel (suc d) ts at (omega arith)
            (rw (step_open (suc d) t q, closing_loop) at e) in
        let size = ap length i.split in
        let parts = length-append i.inside (i.last ∷ i.after) in
        let j = closing_loop-Run fuel d i.after at (omega arith) i.ends in
        record {
          inside = t ∷ (i.inside ++ (i.last ∷ j.inside));
          last = j.last;
          after = j.after;
          split =
              ap (◌∷◌ t)
                (split_twice i.inside i.last i.after j.inside j.last j.after i.split j.split);
          balanced = group i.last i.inside j.inside refl q i.closes i.balanced j.balanced;
          closes = j.closes;
          ends = j.ends;
        }
    | inr q ↦ elim (Bool-cases (same t.text closing)) [
      | inl r ↦ closed-Run d t ts at r e
      | inr r ↦
          let i =
            closing_loop-Run fuel d ts at (omega arith)
              (rw (step_other (suc d) t q r, closing_loop) at e) in
          record {
            inside = t ∷ i.inside;
            last = i.last;
            after = i.after;
            split = ap (◌∷◌ t) i.split;
            balanced = other q r i.balanced;
            closes = i.closes;
            ends = i.ends;
          }
    ]
  ]

  opening_loop_sound :
      (start at : ℕ) (ts : List Token)
      → opening_loop (pos start) opening closing ts ≡ some at
      → IsMatch opening closing start at ts
  unfolding opening_loop closing_loop
  opening_loop_sound start at [] e = cc
  opening_loop_sound start at (t ∷ ts) e = elim (Bool-cases (ltb_ℤ (pos t.start) (pos start))) [
    | inl q ↦
        let i = opening_loop_sound start at ts (rw (q, opening_loop) at e) in
        record {
          before = t ∷ i.before;
          first = i.first;
          inside = i.inside;
          last = i.last;
          after = i.after;
          split = ap (◌∷◌ t) i.split;
          earlier = (ground arith, i.earlier);
          starts = i.starts;
          opens = i.opens;
          balanced = i.balanced;
          closes = i.closes;
          ends = i.ends;
        }
    | inr q ↦
        elim (Bool-cases (not (equals (pos t.start) (pos start)) || not (same t.text opening))) [
          | inl r ↦ let f : none ≡ some at = rw (q, r, opening_loop) at e in cc
          | inr r ↦
              let o : same t.text opening ≡ true = ground arith in
              let s : t.start ≡ start = ground arith in
              let i =
                closing_loop-Run (length ts) 0 ts at (omega arith)
                  (rw (q, r, opening_loop, step_open 0 t o, closing_loop) at e) in
              record {
                before = [];
                first = t;
                inside = i.inside;
                last = i.last;
                after = i.after;
                split = ap (◌∷◌ t) i.split;
                earlier = tt;
                starts = s;
                opens = o;
                balanced = i.balanced;
                closes = i.closes;
                ends = i.ends;
              }
        ]
  ]

  opening_loop_here :
      (start at : ℕ) (before : List Token) (o : Token) (inside : List Token) (c : Token)
      (after : List Token)
      → AllBefore start before
      → o.start ≡ start
      → same o.text opening ≡ true
      → Balanced opening closing inside
      → same c.text closing ≡ true
      → c.start ≡ at
      → opening_loop (pos start) opening closing (before ++ (o ∷ (inside ++ (c ∷ after)))) ≡ some at
  unfolding opening_loop closing_loop
  opening_loop_here start at [] o inside c after a s h b k e =
      let q : ltb_ℤ (pos o.start) (pos start) ≡ false = ground arith in
      let r : (not (equals (pos o.start) (pos start)) || not (same o.text opening)) ≡ false =
        ground arith in
      rw (q, r, opening_loop, step_open 0 o h, closing_loop)
        (closing_loop-Balanced 0 inside (c ∷ after) b
          ∙ rw (step_last c k, closing_loop) (ap some e))
  opening_loop_here start at (t ∷ before) o inside c after (l, a) s h b k e =
      let q : ltb_ℤ (pos t.start) (pos start) ≡ true = ground arith in
      rw (q, opening_loop) (opening_loop_here start at before o inside c after a s h b k e)

  -- For two distinct delimiters of which the second is not `>`, in a text with its tokens within
  -- the limit, `MatchingDelimiter` returns an offset exactly where an opening delimiter starts at
  -- the given offset and the token at the returned one closes the balanced run behind it.
  pub matching_delimiter_iff :
      (u : Unicode) (text : Bytes) (start : ℕ) (kotlin : Bool) (at : ℕ) (tokens : List Token)
      → tokenize_bounded u text kotlin (pos 100_000) ≡ some tokens
      → (matching_delimiter u text (pos start) opening closing kotlin ≡ some at)
        ↔ IsMatch opening closing start at tokens
  unfolding matching_delimiter
  matching_delimiter_iff u text start kotlin at tokens found = (
    λ e. opening_loop_sound start at tokens (rw (found, matching_delimiter) at e),
    λ m.
        rw (found, matching_delimiter)
          (ap (opening_loop (pos start) opening closing) m.split
            ∙ opening_loop_here start at m.before m.first m.inside m.last m.after m.earlier m.starts
                m.opens m.balanced m.closes m.ends),
  )
