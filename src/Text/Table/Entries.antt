-- ===== src/Text/Table/Entries.antt =====
-- Each entry of the table that `reindexLineBytes` builds is the start of a line: of every line
-- in a dense table, of every 256th in a sparse one.
use kotlsp.Prelude.{
  ℕ, zero, suc, ◌+◌, ◌*◌, ◌/◌, ◌%◌, ◌≤◌, ◌<◌, ◌≡◌, refl, subst, [], ◌∷◌, arith, length, get_or,
  true, false, Bool, not, ◌||◌, ◌==◌, Bytes, Bool-cases, inl, inr, ==_iff,
}
use kotlsp.Text.Document.{newline, line_starts, sparse_line_stride}
use kotlsp.Text.Table.Count.{
  newlines, newlines-nil, newlines-cons_newline, newlines-cons_other, LineStart, Walk,
  Walk-LineStart, Walk-newline, Walk-other,
}

-- Lines from one entry to the next.
abbrev pub stride : Bool → ℕ
stride true = sparse_line_stride
stride false = 1

-- The line of entry `k` of a table that goes on from line `line`.
abbrev pub line_of_entry : Bool → ℕ → ℕ → ℕ
line_of_entry sparse line k = (line / stride sparse + 1 + k) * stride sparse

abbrev keeps : Bool → ℕ → Bool
keeps sparse line = not sparse || line % sparse_line_stride == 0

-- What the loop does with one byte.
pub line_starts-other :
    (sparse : Bool) (index line b : ℕ) (bs : Bytes)
    → (b == newline) ≡ false
    → line_starts sparse index line (b ∷ bs) ≡ line_starts sparse (index + 1) line bs
unfolding line_starts
line_starts-other sparse index line b bs h = ground arith

line_starts_kept :
    (sparse : Bool) (index line : ℕ) (bs : Bytes)
    → keeps sparse (suc line) ≡ true
    → line_starts sparse index line (newline ∷ bs)
      ≡ (index + 1) ∷ line_starts sparse (index + 1) (suc line) bs
unfolding line_starts
line_starts_kept sparse index line bs h = ground arith

line_starts_skipped :
    (sparse : Bool) (index line : ℕ) (bs : Bytes)
    → keeps sparse (suc line) ≡ false
    → line_starts sparse index line (newline ∷ bs) ≡ line_starts sparse (index + 1) (suc line) bs
unfolding line_starts
line_starts_skipped sparse index line bs h = ground arith

pub line_starts-dense :
    (index line : ℕ) (bs : Bytes)
    → line_starts false index line (newline ∷ bs)
      ≡ (index + 1) ∷ line_starts false (index + 1) (suc line) bs
line_starts-dense index line bs = line_starts_kept false index line bs refl

line_of_entry_kept :
    (sparse : Bool) (line k : ℕ)
    → keeps sparse (suc line) ≡ true
    → (line_of_entry sparse line 0 ≡ suc line)
      × (line_of_entry sparse line (suc k) ≡ line_of_entry sparse (suc line) k)
line_of_entry_kept true line k h = let e = (==_iff (suc line % 256) 0).0 h in omega arith
line_of_entry_kept false line k h = omega arith

line_of_entry_skipped :
    (sparse : Bool) (line k : ℕ)
    → keeps sparse (suc line) ≡ false
    → (line_of_entry sparse line k ≡ line_of_entry sparse (suc line) k)
      × (suc line < line_of_entry sparse line 0)
line_of_entry_skipped true line k h = ground arith
line_of_entry_skipped false line k h = absurd (ground arith)

line-lt-line_of_entry : (sparse : Bool) (line k : ℕ) → line < line_of_entry sparse line k
line-lt-line_of_entry true line k = omega arith
line-lt-line_of_entry false line k = omega arith

-- The three things that a byte can be to the loop.
data Byte (sparse : Bool) (line b : ℕ) : Type 0 where
  other : (b == newline) ≡ false → Byte sparse line b
  kept : b ≡ newline → keeps sparse (suc line) ≡ true → Byte sparse line b
  skipped : b ≡ newline → keeps sparse (suc line) ≡ false → Byte sparse line b

byte : (sparse : Bool) (line b : ℕ) → Byte sparse line b
byte sparse line b = elim (Bool-cases (b == newline)) [
  | inr n ↦ other n
  | inl e ↦ elim (Bool-cases (keeps sparse (suc line))) [
    | inl k ↦ kept ((==_iff b newline).0 e) k
    | inr k ↦ skipped ((==_iff b newline).0 e) k
  ]
]

-- The table goes on as long as there are lines for it.
pub table-length :
    (sparse : Bool) (index line : ℕ) (bs : Bytes) (k : ℕ)
    → line_of_entry sparse line k ≤ line + newlines bs
    → k < length (line_starts sparse index line bs)
table-length sparse index line [] k h =
    absurd (omega (arith, newlines-nil, line-lt-line_of_entry sparse line k))
table-length sparse index line (b ∷ bs) k h = elim (byte sparse line b) [
  | other n ↦
      rw (line_starts-other sparse index line b bs n)
        (table-length sparse (index + 1) line bs k (omega (arith, newlines-cons_other b bs n, h)))
  | skipped e s ↦
      let h' = rw (e, newlines-cons_newline bs) at h in
      rw (e, line_starts_skipped sparse index line bs s)
        (table-length sparse (index + 1) (suc line) bs k
          (omega (arith, (line_of_entry_skipped sparse line k s).0, h')))
  | kept e t ↦
      let h' = rw (e, newlines-cons_newline bs) at h in
      rw (e, line_starts_kept sparse index line bs t)
        (behind k (λ j. table-length sparse (index + 1) (suc line) bs j) t h')
]
  where
    behind :
        (k : ℕ)
        → ((j : ℕ)
            → line_of_entry sparse (suc line) j ≤ suc line + newlines bs
            → j < length (line_starts sparse (index + 1) (suc line) bs))
        → keeps sparse (suc line) ≡ true
        → line_of_entry sparse line k ≤ line + suc (newlines bs)
        → k < length ((index + 1) ∷ line_starts sparse (index + 1) (suc line) bs)
    behind zero later t h = omega arith
    behind (suc k) later t h =
        let fits = later k (omega (arith, h, (line_of_entry_kept sparse line k t).1)) in
        omega (arith, fits)

module _ (content : Bytes) where
  pub entry-LineStart :
      (sparse : Bool) (rest : Bytes) (index line start k : ℕ)
      → Walk content rest index line start
      → k < length (line_starts sparse index line rest)
      → LineStart content
          (line_of_entry sparse line k)
          (get_or (line_starts sparse index line rest) k 0)
  entry-LineStart sparse [] index line start k w h = absurd (unfold line_starts in omega arith)
  entry-LineStart sparse (b ∷ rest) index line start k w h = elim (byte sparse line b) [
    | other n ↦ rw (line_starts-other sparse index line b rest n) (
        entry-LineStart sparse rest (index + 1) line start k (Walk-other n w)
          (rw (line_starts-other sparse index line b rest n) at h))
    | skipped e s ↦
        let w' = Walk-newline (subst (λ c. Walk content (c ∷ rest) index line start) e w) in
        rw
          (
            e,
            line_starts_skipped sparse index line rest s,
            (line_of_entry_skipped sparse line k s).0,
          )
          (entry-LineStart sparse rest (index + 1) (suc line) (index + 1) k w'
            (rw (e, line_starts_skipped sparse index line rest s) at h))
    | kept e t ↦
        let w' = Walk-newline (subst (λ c. Walk content (c ∷ rest) index line start) e w) in
        rw (e, line_starts_kept sparse index line rest t)
          (behind k w' (λ j. entry-LineStart sparse rest (index + 1) (suc line) (index + 1) j w') t
            (rw (e, line_starts_kept sparse index line rest t) at h))
  ]
    where
      behind :
          (k : ℕ)
          → Walk content rest (index + 1) (suc line) (index + 1)
          → ((j : ℕ)
              → j < length (line_starts sparse (index + 1) (suc line) rest)
              → LineStart content
                  (line_of_entry sparse (suc line) j)
                  (get_or (line_starts sparse (index + 1) (suc line) rest) j 0))
          → keeps sparse (suc line) ≡ true
          → k < length ((index + 1) ∷ line_starts sparse (index + 1) (suc line) rest)
          → LineStart content
              (line_of_entry sparse line k)
              (get_or ((index + 1) ∷ line_starts sparse (index + 1) (suc line) rest) k 0)
      behind zero w' later t h = rw ((line_of_entry_kept sparse line 0 t).0) (Walk-LineStart w')
      behind (suc k) w' later t h =
          rw ((line_of_entry_kept sparse line k t).1) (later k (omega (arith, h)))
