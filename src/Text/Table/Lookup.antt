-- ===== src/Text/Table/Lookup.antt =====
-- `byteLineAtBytes` finds the line of an offset, with a dense table and with a sparse one.
use kotlsp.Prelude.{
  ℕ, zero, suc, ◌+◌, ◌-◌, ◌*◌, ◌/◌, ◌≤◌, ◌<◌, ◌≡◌, sym, ap, subst, ◌⊎◌, List, [], ◌∷◌, ◌++◌, arith,
  length, length-append, get_or, drop, drop-append, true, false, Bool, ◌==◌, if◌then◌else◌, Bytes,
  inl, inr, ==_iff,
}
use native.Mathlib.Nat.{add-zero, zero-add}
use kotlsp.Text.Document.{Document, newline, line_starts, sparse_line_stride}
use kotlsp.Text.Lookup.{scan_lines, first_after, byte_line_at_bytes}
use kotlsp.Text.Table.Ascending.{
  Ascends, leading, leading-le, leading_none, first_after-leading, get_or-leading,
  line_starts-Ascends,
}
use kotlsp.Text.Table.Count.{
  newlines, newlines-nil, LineStart, AtLine, Walk, Walk-begin, Walk-LineStart, Walk-AtLine,
  Walk-newline, Walk-other,
}
use kotlsp.Text.Table.Entries.{line_starts-other, line_starts-dense, entry-LineStart}

-- The table and the line count are those of `content`.
pub record HasTable (content : Bytes) (d : Document) : Type 0 where
  pub tabulated : d.lines ≡ 0 ∷ line_starts d.sparse 0 0 content
  pub counted : d.line_count ≡ 1 + newlines content

pub newline-cases : (b : ℕ) → (b ≡ newline) ⊎ ((b == newline) ≡ false)
newline-cases b = ground (arith, ==_iff b newline)

pub compare-cases : (a b : ℕ) → a ≤ b → (a ≡ b) ⊎ (a < b)
compare-cases a b h = ground arith

-- The entry in force at `at`, in a table that goes on from line `line`.
abbrev Found : Bytes → ℕ → ℕ → ℕ → List ℕ → Type 0
Found content at line start ls =
    AtLine content at (line + leading at ls) (get_or (start ∷ ls) (leading at ls) 0)

Found-here :
    (content : Bytes) (at line start : ℕ) (ls : List ℕ)
    → Ascends (suc at) ls
    → AtLine content at line start
    → Found content at line start ls
Found-here content at line start ls a here =
    rw (leading_none at (suc at) ls a (omega arith), add-zero) here

Found-later :
    (content : Bytes) (at line start l : ℕ) (ls : List ℕ)
    → l ≤ at
    → Found content at (suc line) l ls
    → Found content at line start (l ∷ ls)
Found-later content at line start l ls h f =
    let e : line + suc (leading at ls) ≡ suc line + leading at ls = omega arith in
    ground (arith, subst (λ k. AtLine content at k (get_or (l ∷ ls) (leading at ls) 0)) (sym e) f)

module _ {content : Bytes} where
  pub Walk-length :
      {rest : Bytes} {index line start : ℕ}
      → Walk content rest index line start
      → length content ≡ index + length rest
  Walk-length {rest} w = omega (
    arith,
    w.index_is,
    ap length w.splits,
    length-append w.before (w.part ++ rest),
    length-append w.part rest,
  )

  pub LineStart-Walk :
      {line start : ℕ}
      → LineStart content line start
      → Walk content (drop start content) start line start
  LineStart-Walk {line} {start} s = record {
    before = s.before;
    part = [];
    splits = rw cut s.splits;
    start_is = s.start_is;
    index_is = omega (arith, s.start_is);
    line_is = s.line_is;
    one_line = newlines-nil;
    ends = s.ends;
  }
    where
      cut : drop start content ≡ s.rest
      cut = rw s.splits (drop-append s.before s.rest start (sym s.start_is))

  -- A scan that starts from a line start.
  pub scan-AtLine :
      (at : ℕ) (rest : Bytes) (index line start : ℕ)
      → Walk content rest index line start
      → index ≤ at
      → at ≤ length content
      → AtLine content at
          (scan_lines rest index at line start).0
          (scan_lines rest index at line start).1
  unfolding scan_lines
  scan-AtLine at [] index line start w p q =
      subst (λ k. AtLine content k line start) (omega (arith, Walk-length w)) (Walk-AtLine w)
  scan-AtLine at (b ∷ rest) index line start w p q = elim (compare-cases index at p) [
    | inl e ↦ ground (arith, subst (λ k. AtLine content k line start) e (Walk-AtLine w))
    | inr l ↦ elim (newline-cases b) [
      | inl e ↦
          let w' = Walk-newline (subst (λ c. Walk content (c ∷ rest) index line start) e w) in
          let next = scan-AtLine at rest (index + 1) (suc line) (index + 1) w' (omega arith) q in
          ground (arith, next)
      | inr n ↦
          let next = scan-AtLine at rest (index + 1) line start (Walk-other n w) (omega arith) q in
          ground (arith, next)
    ]
  ]

  pub dense-AtLine :
      (at : ℕ) (rest : Bytes) (index line start : ℕ)
      → Walk content rest index line start
      → index ≤ at
      → at ≤ length content
      → AtLine content at (line + leading at (line_starts false index line rest)) (
          get_or
            (start ∷ line_starts false index line rest)
            (leading at (line_starts false index line rest))
            0)
  dense-AtLine at [] index line start w p q =
      let e : index ≡ at = omega (arith, Walk-length w) in
      Found-here content at line start _ (unfold line_starts in tt)
        (subst (λ k. AtLine content k line start) e (Walk-AtLine w))
  dense-AtLine at (b ∷ rest) index line start w p q = elim (compare-cases index at p) [
    | inl e ↦
        Found-here content at line start _
          (rw (← e) (line_starts-Ascends false index line (b ∷ rest)))
          (subst (λ k. AtLine content k line start) e (Walk-AtLine w))
    | inr l ↦ elim (newline-cases b) [
      | inl e ↦
          let w' = Walk-newline (subst (λ c. Walk content (c ∷ rest) index line start) e w) in
          rw (e, line_starts-dense index line rest)
            (Found-later content at line start (index + 1) _ (omega arith)
              (dense-AtLine at rest (index + 1) (suc line) (index + 1) w' (omega arith) q))
      | inr n ↦
          rw (line_starts-other false index line b rest n)
            (dense-AtLine at rest (index + 1) line start (Walk-other n w) (omega arith) q)
    ]
  ]

  -- The checkpoint of a sparse table is the start of its line.
  pub checkpoint-LineStart :
      (k : ℕ)
      → k ≤ length (line_starts true 0 0 content)
      → LineStart content (k * sparse_line_stride) (get_or (0 ∷ line_starts true 0 0 content) k 0)
  checkpoint-LineStart zero h = Walk-LineStart (Walk-begin content)
  checkpoint-LineStart (suc k) h =
      let e : (0 / sparse_line_stride + 1 + k) * sparse_line_stride ≡ suc k * sparse_line_stride =
        omega arith in
      subst (λ l. LineStart content l (get_or (line_starts true 0 0 content) k 0)) e
        (entry-LineStart content true content 0 0 0 k (Walk-begin content) h)

-- The checkpoint that the lookup uses.
checkpoint :
    (content : Bytes) (at : ℕ) (sparse : Bool)
    → first_after (0 ∷ line_starts sparse 0 0 content) at - 1
      ≡ leading at (line_starts sparse 0 0 content)
checkpoint content at sparse =
    let table = line_starts sparse 0 0 content in
    let up = line_starts-Ascends sparse 0 0 content in
    rw (first_after-leading at 0 (0 ∷ table) (omega arith, up)) (ground arith)

-- Whatever the mode of the table, `byteLineAtBytes` returns the line in which an offset lies and
-- the offset at which that line begins.
pub byte_line_at_bytes-AtLine :
    (d : Document) (content : Bytes) (at : ℕ)
    → HasTable content d
    → at ≤ length content
    → AtLine content at (byte_line_at_bytes d content at).0 (byte_line_at_bytes d content at).1
unfolding byte_line_at_bytes
byte_line_at_bytes-AtLine d content at t h =
    rw (t.tabulated, checkpoint content at d.sparse) (by_mode d.sparse)
  where
    by_mode :
        (sparse : Bool)
        → let table = line_starts sparse 0 0 content in
          let start = get_or (0 ∷ table) (leading at table) 0 in
          let found =
            if sparse
            then scan_lines
                (drop start content)
                start
                at
                (leading at table * sparse_line_stride)
                start
            else (leading at table, start) in
          AtLine content at found.0 found.1
    by_mode true =
        let table = line_starts true 0 0 content in
        scan-AtLine at _ _ _ _
          (LineStart-Walk
            (checkpoint-LineStart {content = content} (leading at table) (leading-le at table)))
          (get_or-leading at 0 table (omega arith)) h
    by_mode false =
        rw zero-add at (dense-AtLine at content 0 0 0 (Walk-begin content) (omega arith) h)
