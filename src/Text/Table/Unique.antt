-- ===== src/Text/Table/Unique.antt =====
-- A text has one line of each number, with one start and one end.
use native.Mathlib.Decide.{dec_le}
use kotlsp.Prelude.{
  ℕ, ◌≤◌, ◌<◌, ◌≡◌, inl, inr, refl, sym, ap, subst, ◌∙◌, [], ◌∷◌, ◌++◌, arith, length,
  length-append, take, drop, take-append, drop-append, Bytes,
}
use kotlsp.Text.Document.{newline}
use kotlsp.Text.Table.Count.{
  newlines, newlines-nil, newlines-append, newlines-cons_newline, EndsLine, LineStart, AtLine,
  LineAt, IsLine,
}

-- The longer of two prefixes of a text goes on from the shorter.
pub longer_prefix :
    (a x b y : Bytes)
    → a ++ x ≡ b ++ y
    → length a ≤ length b
    → (m : Bytes) × (b ≡ a ++ m) × (x ≡ m ++ y)
longer_prefix [] x b y e h = (b, refl, e)
longer_prefix (c ∷ a) x [] y e h = absurd (omega arith)
longer_prefix (c ∷ a) x (d ∷ b) y e h =
    let same : c ≡ d = cc in
    let (m, p, q) = longer_prefix a x b y (ground arith) (omega arith) in
    (m, ground (arith, p, same), q)

-- What ends a line and goes on behind `a` has a newline there.
newline_behind : (a m : Bytes) → EndsLine (a ++ m) → 0 < length m → 1 ≤ newlines m
newline_behind a m (inl e) h = absurd (omega (arith, ap length e, length-append a m))
newline_behind a m (inr (cs, e)) h =
    let (m', _, q) = longer_prefix a m cs (newline ∷ []) e shorter in
    omega (arith, ap newlines q, newlines-append m' (newline ∷ []), newlines-cons_newline [])
  where
    shorter : length a ≤ length cs
    shorter = omega (arith, ap length e, length-append a m, length-append cs (newline ∷ []))

-- Between two places at which a line begins there is a newline.
newline_between :
    (a x b y : Bytes) → a ++ x ≡ b ++ y → EndsLine b → length a < length b → newlines a < newlines b
newline_between a x b y e ends h =
    let (m, p, _) = longer_prefix a x b y e (omega arith) in
    let more =
      newline_behind a m (subst EndsLine p ends) (omega (arith, ap length p, length-append a m)) in
    omega (arith, more, ap newlines p, newlines-append a m)

module _ {content : Bytes} where
  start-le :
      {line start start' : ℕ}
      → LineStart content line start
      → LineStart content line start'
      → start' ≤ start
  start-le {line} {start} {start'} s t = elim (dec_le start' start) [
    | yes h ↦ h
    | no h ↦ absurd (
        omega (
          arith,
          s.line_is,
          t.line_is,
          newline_between s.before s.rest t.before t.rest (sym s.splits ∙ t.splits) t.ends
              (omega (arith, s.start_is, t.start_is)),
        ))
  ]

  pub LineStart-unique :
      {line start start' : ℕ}
      → LineStart content line start
      → LineStart content line start'
      → start ≡ start'
  LineStart-unique s t = omega (arith, start-le s t, start-le t s)

  pub LineAt-LineStart :
      {line start end : ℕ} → LineAt content line start end → LineStart content line start
  LineAt-LineStart s = record {
    before = s.before;
    rest = s.body ++ s.after;
    splits = s.splits;
    start_is = s.start_is;
    line_is = s.line_is;
    ends = s.ends;
  }

  -- An offset lies in one line only.
  AtLine-start-le :
      {at line line' start start' : ℕ}
      → AtLine content at line start
      → AtLine content at line' start'
      → start' ≤ start
  AtLine-start-le {start} {start'} s t = elim (dec_le start' start) [
    | yes h ↦ h
    | no h ↦
        let (m, p, q) =
          longer_prefix s.before (s.part ++ s.after) t.before (t.part ++ t.after)
            (sym s.splits ∙ t.splits) (omega (arith, s.start_is, t.start_is)) in
        let sizes = length-append s.before m in
        let ends =
          newline_behind s.before m (subst EndsLine p t.ends)
            (omega (arith, ap length p, sizes, s.start_is, t.start_is)) in
        let (k, r, _) =
          longer_prefix m (t.part ++ t.after) s.part s.after (sym q)
            (omega (arith, ap length p, sizes, s.at_is, t.at_is)) in
        absurd (omega (arith, ends, s.one_line, ap newlines r, newlines-append m k))
  ]

  LineStart-line :
      {line start : ℕ} → LineStart content line start → newlines (take start content) ≡ line
  LineStart-line {line} {start} s =
      rw (s.splits, take-append s.before s.rest start (sym s.start_is)) s.line_is

  pub AtLine-LineStart :
      {at line start : ℕ} → AtLine content at line start → LineStart content line start
  AtLine-LineStart s = record {
    before = s.before;
    rest = s.part ++ s.after;
    splits = s.splits;
    start_is = s.start_is;
    line_is = s.line_is;
    ends = s.ends;
  }

  pub AtLine-unique :
      {at line line' start start' : ℕ}
      → AtLine content at line start
      → AtLine content at line' start'
      → (line ≡ line') × (start ≡ start')
  AtLine-unique {line} {line'} {start} {start'} s t = (lines, starts)
    where
      starts : start ≡ start'
      starts = omega (arith, AtLine-start-le s t, AtLine-start-le t s)

      lines : line ≡ line'
      lines =
          sym (LineStart-line (AtLine-LineStart s))
          ∙ ap (λ n. newlines (take n content)) starts
          ∙ LineStart-line (AtLine-LineStart t)

-- Of two readings of one line, neither is shorter.
line-le :
    (body after body' after' : Bytes)
    → body ++ after ≡ body' ++ after'
    → IsLine body after
    → IsLine body' after'
    → length body' ≤ length body
line-le body after body' after' e w w' = elim (dec_le (length body') (length body)) [
  | yes h ↦ h
  | no h ↦
      let (m, p, q) = longer_prefix body after body' after' e (omega arith) in
      let sizes = length-append body m in
      absurd (too_long m p q (omega (arith, ap length p, sizes)) w w')
]
  where
    too_long :
        (m : Bytes)
        → body' ≡ body ++ m
        → after ≡ m ++ after'
        → 0 < length m
        → IsLine body after
        → IsLine body' after'
        → ⊥
    too_long m p q h (inl (none_left, _)) w' =
        absurd (omega (arith, ap length (sym q ∙ none_left), length-append m after'))
    too_long m p q h (inr (cs, b, z)) (inl (_, z')) = absurd (
        omega (
          arith,
          ap newlines p,
          newlines-append body m,
          ap newlines b,
          newlines-append cs (newline ∷ []),
          newlines-cons_newline [],
        ))
    too_long m p q h (inr (cs, b, z)) (inr (cs', b', z')) =
        let ends = newline_behind body m (inr (cs', sym p ∙ b')) h in
        absurd (
          omega (
            arith,
            ends,
            ap newlines p,
            newlines-append body m,
            ap newlines b,
            ap newlines b',
            newlines-append cs (newline ∷ []),
            newlines-append cs' (newline ∷ []),
            newlines-cons_newline [],
            newlines-nil,
          ))

module _ {content : Bytes} where
  pub LineAt-unique :
      {line start start' end end' : ℕ}
      → LineAt content line start end
      → LineAt content line start' end'
      → (start ≡ start') × (end ≡ end')
  LineAt-unique {start} {start'} {end} {end'} s t = (starts, ends)
    where
      starts : start ≡ start'
      starts = LineStart-unique (LineAt-LineStart s) (LineAt-LineStart t)

      rests : s.body ++ s.after ≡ t.body ++ t.after
      rests =
          sym (drop-append s.before _ start (sym s.start_is))
          ∙ ap (drop start) (sym s.splits ∙ t.splits)
          ∙ drop-append t.before _ start (starts ∙ sym t.start_is)

      ends : end ≡ end'
      ends = omega (
        arith,
        s.end_is,
        t.end_is,
        s.start_is,
        t.start_is,
        starts,
        line-le s.body s.after t.body t.after rests s.whole t.whole,
        line-le t.body t.after s.body s.after (sym rests) t.whole s.whole,
      )
