-- ===== src/Text/Table/Bounds.antt =====
-- `lineBoundsBytes` finds the whole of a line, with a dense table and with a sparse one.
use native.Mathlib.Nat.{add-zero, zero-add}
use native.Mathlib.Numerals.{add-one}
use kotlsp.Prelude.Int.{ltb_ℤ, leb_ℤ}
use kotlsp.Prelude.{
  ℕ, zero, suc, ◌+◌, ◌-◌, ◌*◌, ◌/◌, ◌≤◌, ◌<◌, ◌≡◌, refl, sym, ap, subst, ◌∙◌, ◌⊎◌, List, [], ◌∷◌,
  ◌++◌, arith, length, length-append, get_or, drop, true, false, ◌==◌, ltb, leb, ◌||◌,
  if◌then◌else◌, Bytes, Bool-cases, inl, inr, ◌≢◌, Option-cases, Option, none, some, append-nil,
  append_assoc, ℤ, pos,
}
use kotlsp.Text.Document.{Document, newline, line_starts, sparse_line_stride}
use kotlsp.Text.Lookup.{
  no_bounds, bytes_index_byte, skip_lines, end_of_line, dense_bounds, sparse_bounds,
  line_bounds_bytes,
}
use kotlsp.Text.Table.Count.{
  newlines, newlines-nil, newlines-append, newlines-cons_newline, newlines-cons_other, LineStart,
  LineAt, Walk, Walk-begin, Walk-newline, Walk-other, Walk-append, Walk-LineStart,
}
use kotlsp.Text.Table.Entries.{line_starts-other, line_starts-dense, table-length}
use kotlsp.Text.Table.Lookup.{
  HasTable, newline-cases, Walk-length, LineStart-Walk, checkpoint-LineStart,
}

-- What `bytesIndexByte` finds: the bytes before the first newline, and those behind it.
abbrev Indexed : Bytes → Option ℕ → Type 0
Indexed bs none = newlines bs ≡ 0
Indexed bs (some i) =
    (p : Bytes) × (q : Bytes) × (bs ≡ p ++ newline ∷ q) × (length p ≡ i) × (newlines p ≡ 0)

bytes_index_byte-Indexed : (bs : Bytes) → Indexed bs (bytes_index_byte bs newline)
unfolding bytes_index_byte
bytes_index_byte-Indexed [] = newlines-nil
bytes_index_byte-Indexed (b ∷ bs) = elim (newline-cases b) [
  | inl e ↦ rw e ([], bs, refl, refl, newlines-nil)
  | inr n ↦ rw n (later (bytes_index_byte bs newline) (bytes_index_byte-Indexed bs) n)
]
  where
    later :
        (o : Option ℕ)
        → Indexed bs o
        → (b == newline) ≡ false
        → Indexed (b ∷ bs) (elim o [ none ↦ none | some i ↦ some (suc i) ])
    later none h n = newlines-cons_other b bs n ∙ h
    later (some i) (p, q, s, l, z) n =
        (b ∷ p, q, ap (◌∷◌ b) s, ap suc l, newlines-cons_other b p n ∙ z)

module _ {content : Bytes} where
  -- A walk that stands at a newline, or at the end, has a whole line behind it.
  line-to_newline :
      {rest : Bytes} {index line start : ℕ}
      → Walk content (newline ∷ rest) index line start
      → LineAt content line start (index + 1)
  line-to_newline {rest} w = record {
    before = w.before;
    body = w.part ++ newline ∷ [];
    after = rest;
    splits = w.splits ∙ rw append_assoc;
    start_is = w.start_is;
    end_is = omega (arith, w.index_is, length-append w.part (newline ∷ []));
    line_is = w.line_is;
    whole = inr (w.part, refl, w.one_line);
    ends = w.ends;
  }

  line-to_end :
      {index line start : ℕ}
      → Walk content [] index line start
      → LineAt content line start (length content)
  line-to_end w = record {
    before = w.before;
    body = w.part;
    after = [];
    splits = w.splits;
    start_is = w.start_is;
    end_is = omega (arith, w.index_is, Walk-length w);
    line_is = w.line_is;
    whole = inl (refl, w.one_line);
    ends = w.ends;
  }

checkpoint-le :
    (content : Bytes) (k : ℕ)
    → k * sparse_line_stride ≤ newlines content
    → k ≤ length (line_starts true 0 0 content)
checkpoint-le content zero h = omega arith
checkpoint-le content (suc k) h = table-length true 0 0 content k (omega arith)

-- The end of line `k` of a dense table that goes on behind `start`.
abbrev next_start : ℕ → List ℕ → ℕ → ℕ → ℕ
next_start start ls k size =
    if ltb (k + 1) (length (start ∷ ls)) then get_or (start ∷ ls) (k + 1) 0 else size

next_start-zero : (start l : ℕ) (ls : List ℕ) (size : ℕ) → next_start start (l ∷ ls) 0 size ≡ l
next_start-zero start l ls size = ground arith

next_start-suc :
    (start l : ℕ) (ls : List ℕ) (k size : ℕ)
    → next_start start (l ∷ ls) (suc k) size ≡ next_start l ls k size
next_start-suc start l ls k size = rw (add-one, add-one) (ground arith)

module _ {content : Bytes} where
  dense-LineAt :
      (rest : Bytes) (index line start k : ℕ)
      → Walk content rest index line start
      → k ≤ newlines rest
      → let ls = line_starts false index line rest in
        LineAt content (line + k) (get_or (start ∷ ls) k 0) (next_start start ls k (length content))
  dense-LineAt [] index line start zero w h = rw add-zero (unfold line_starts in line-to_end w)
  dense-LineAt [] index line start (suc k) w h = absurd (omega (arith, newlines-nil))
  dense-LineAt (b ∷ rest) index line start k w h = elim (newline-cases b) [
    | inr n ↦ rw (line_starts-other false index line b rest n) (
        dense-LineAt rest (index + 1) line start k (Walk-other n w)
          (rw (newlines-cons_other b rest n) at h))
    | inl e ↦
        let v = subst (λ c. Walk content (c ∷ rest) index line start) e w in
        rw (e, line_starts-dense index line rest)
          (behind k v (λ j. dense-LineAt rest (index + 1) (suc line) (index + 1) j (Walk-newline v))
            (rw (e, newlines-cons_newline rest) at h))
  ]
    where
      behind :
          (k : ℕ)
          → Walk content (newline ∷ rest) index line start
          → ((j : ℕ)
              → j ≤ newlines rest
              → let ls = line_starts false (index + 1) (suc line) rest in
                LineAt content
                  (suc line + j)
                  (get_or ((index + 1) ∷ ls) j 0)
                  (next_start (index + 1) ls j (length content)))
          → k ≤ suc (newlines rest)
          → let ls = (index + 1) ∷ line_starts false (index + 1) (suc line) rest in
            LineAt content
              (line + k)
              (get_or (start ∷ ls) k 0)
              (next_start start ls k (length content))
      behind zero v later h =
          let table = line_starts false (index + 1) (suc line) rest in
          rw (add-zero, next_start-zero start (index + 1) table (length content))
            (line-to_newline v)
      behind (suc k) v later h =
          let table = line_starts false (index + 1) (suc line) rest in
          let seam : line + suc k ≡ suc line + k = omega arith in
          rw (next_start-suc start (index + 1) table k (length content), seam)
            (later k (omega (arith, h)))

  -- A walk up to the newline that `bytesIndexByte` finds.
  Walk-found :
      {line start : ℕ} (i : ℕ)
      → LineStart content line start
      → bytes_index_byte (drop start content) newline ≡ some i
      → (q : Bytes) × Walk content (newline ∷ q) (start + i) line start
  Walk-found {line} {start} i s e =
      let (p, q, cut, size, z) =
        subst (Indexed (drop start content)) e (bytes_index_byte-Indexed (drop start content)) in
      let w = subst (λ r. Walk content r start line start) cut (LineStart-Walk s) in
      (q, subst (λ n. Walk content (newline ∷ q) (start + n) line start) size (Walk-append p z w))

  -- `start + relative + 1` is the next line.
  next-LineStart :
      {line start : ℕ} (i : ℕ)
      → LineStart content line start
      → bytes_index_byte (drop start content) newline ≡ some i
      → LineStart content (suc line) (start + i + 1)
  next-LineStart i s e = Walk-LineStart (Walk-newline (Walk-found i s e).1)

  not_last :
      {line start : ℕ}
      → LineStart content line start
      → line < newlines content
      → bytes_index_byte (drop start content) newline ≢ none
  not_last {line} {start} s h e =
      let z : newlines (drop start content) ≡ 0 =
        subst (Indexed (drop start content)) e (bytes_index_byte-Indexed (drop start content)) in
      let w = LineStart-Walk s in
      absurd (
        omega (
          arith,
          z,
          w.line_is,
          w.one_line,
          ap newlines w.splits,
          newlines-append w.before (w.part ++ drop start content),
          newlines-append w.part (drop start content),
        ))

  skip_lines-LineStart :
      (n line start : ℕ)
      → LineStart content line start
      → line + n ≤ newlines content
      → (to : ℕ) × (skip_lines n content start ≡ some to) × LineStart content (line + n) to
  unfolding skip_lines
  skip_lines-LineStart zero line start s h = (start, refl, rw add-zero s)
  skip_lines-LineStart (suc n) line start s h =
      elim (Option-cases (bytes_index_byte (drop start content) newline)) [
        | inl e ↦ absurd (not_last s (omega arith) e)
        | inr (i, e) ↦
            let (to, found, at) =
              skip_lines-LineStart n (suc line) (start + i + 1) (next-LineStart i s e)
                (omega arith) in
            let seam : suc line + n ≡ line + suc n = omega arith in
            (to, rw (e, skip_lines) found, subst (λ l. LineStart content l to) seam at)
      ]

  end_of_line-LineAt :
      {line start : ℕ}
      → LineStart content line start
      → LineAt content line start (end_of_line content start)
  unfolding end_of_line
  end_of_line-LineAt {line} {start} s =
      elim (Option-cases (bytes_index_byte (drop start content) newline)) [
        | inl e ↦
            let z : newlines (drop start content) ≡ 0 =
              subst (Indexed (drop start content)) e
                (bytes_index_byte-Indexed (drop start content)) in
            let w =
              subst (λ r. Walk content r start line start) (sym (append-nil _))
                (LineStart-Walk s) in
            rw (e, end_of_line) (line-to_end (Walk-append (drop start content) z w))
        | inr (i, e) ↦ rw (e, end_of_line) (line-to_newline (Walk-found i s e).1)
      ]

  sparse-LineAt :
      (d : Document) (line : ℕ)
      → d.lines ≡ 0 ∷ line_starts true 0 0 content
      → line ≤ newlines content
      → let b = sparse_bounds d content line in (b.ok ≡ true) × LineAt content line b.start b.end
  unfolding sparse_bounds
  sparse-LineAt d line t h =
      let k = line / sparse_line_stride in
      let has = checkpoint-le content k (omega arith) in
      let from = checkpoint-LineStart {content = content} k has in
      let (to, found, at) =
        skip_lines-LineStart (line - k * sparse_line_stride) (k * sparse_line_stride) _ from
          (omega arith) in
      let seam : k * sparse_line_stride + (line - k * sparse_line_stride) ≡ line = omega arith in
      let whole = end_of_line-LineAt (subst (λ l. LineStart content l to) seam at) in
      let inside : leb (suc (length (line_starts true 0 0 content))) k ≡ false = ground arith in
      rw (t, inside, found) (refl, whole)

  dense_bounds-LineAt :
      (d : Document) (line : ℕ)
      → d.lines ≡ 0 ∷ line_starts false 0 0 content
      → line ≤ newlines content
      → let b = dense_bounds d content line in (b.ok ≡ true) × LineAt content line b.start b.end
  unfolding dense_bounds
  dense_bounds-LineAt d line t h =
      rw t (refl, rw zero-add at (dense-LineAt content 0 0 0 line (Walk-begin content) h))

-- Every line that the document has is found whole; any other is refused.
pub line_bounds_bytes-LineAt :
    (d : Document) (content : Bytes) (line : ℕ)
    → HasTable content d
    → line < d.line_count
    → let b = line_bounds_bytes d (pos line) content in
      (b.ok ≡ true) × LineAt content line b.start b.end
unfolding line_bounds_bytes sparse_bounds dense_bounds
line_bounds_bytes-LineAt d content line t h = elim (Bool-cases d.sparse) [
  | inl s ↦
      let table = rw s at t.tabulated in rw (outside, s) (sparse-LineAt d line table (omega arith))
  | inr s ↦
      let table = rw s at t.tabulated in
      rw (outside, s) (dense_bounds-LineAt d line table (omega arith))
]
  where
    outside : (ltb_ℤ (pos line) (pos 0) || leb_ℤ (pos d.line_count) (pos line)) ≡ false
    outside = ground arith

pub line_bounds_bytes_outside :
    (d : Document) (content : Bytes) (line : ℤ)
    → ((ltb_ℤ line (pos 0)) ≡ true) ⊎ (leb_ℤ (pos d.line_count) line ≡ true)
    → line_bounds_bytes d line content ≡ no_bounds
unfolding line_bounds_bytes
line_bounds_bytes_outside d content line h = ground arith
