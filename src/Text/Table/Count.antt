-- ===== src/Text/Table/Count.antt =====
-- Counting newlines in pieces of a text, and the pieces that an offset cuts a text into.
use kotlsp.Prelude.{
  ℕ, suc, ◌+◌, ◌≡◌, refl, sym, ◌∙◌, ◌⊎◌, inl, inr, [], ◌∷◌, ◌++◌, Bytes, arith, length,
  length-append, append_assoc, false, ◌==◌,
}
use kotlsp.Text.Document.{newline, strings_count_byte}

abbrev pub newlines : Bytes → ℕ
newlines bs = strings_count_byte bs newline

pub newlines-nil : newlines [] ≡ 0
unfolding strings_count_byte
newlines-nil = refl

pub newlines-append : (xs ys : Bytes) → newlines (xs ++ ys) ≡ newlines xs + newlines ys
unfolding strings_count_byte
newlines-append [] ys = omega arith
newlines-append (x ∷ xs) ys = omega (arith, newlines-append xs ys)

pub newlines-cons_newline : (xs : Bytes) → newlines (newline ∷ xs) ≡ suc (newlines xs)
unfolding strings_count_byte
newlines-cons_newline xs = omega arith

pub newlines-cons_other :
    (b : ℕ) (xs : Bytes) → (b == newline) ≡ false → newlines (b ∷ xs) ≡ newlines xs
unfolding strings_count_byte
newlines-cons_other b xs h = ground arith

-- A text after which a line begins.
abbrev pub EndsLine : Bytes → Type 0
EndsLine bs = (bs ≡ []) ⊎ ((cs : Bytes) × (bs ≡ cs ++ newline ∷ []))

-- Line `line` of `content` begins at `start`.
pub record LineStart (content : Bytes) (line start : ℕ) : Type 0 where
  pub before : Bytes
  pub rest : Bytes
  pub splits : content ≡ before ++ rest
  pub start_is : length before ≡ start
  pub line_is : newlines before ≡ line
  pub ends : EndsLine before

-- Offset `at` of `content` lies in line `line`, which begins at `start`.
pub record AtLine (content : Bytes) (at line start : ℕ) : Type 0 where
  pub before : Bytes
  pub part : Bytes
  pub after : Bytes
  pub splits : content ≡ before ++ (part ++ after)
  pub start_is : length before ≡ start
  pub at_is : length before + length part ≡ at
  pub line_is : newlines before ≡ line
  pub one_line : newlines part ≡ 0
  pub ends : EndsLine before

-- A whole line, with its newline if it is not the last.
abbrev pub IsLine : Bytes → Bytes → Type 0
IsLine body after =
    ((after ≡ []) × (newlines body ≡ 0))
    ⊎ ((cs : Bytes) × (body ≡ cs ++ newline ∷ []) × (newlines cs ≡ 0))

-- Line `line` of `content` is the bytes from `start` up to `end`.
pub record LineAt (content : Bytes) (line start end : ℕ) : Type 0 where
  pub before : Bytes
  pub body : Bytes
  pub after : Bytes
  pub splits : content ≡ before ++ (body ++ after)
  pub start_is : length before ≡ start
  pub end_is : length before + length body ≡ end
  pub line_is : newlines before ≡ line
  pub whole : IsLine body after
  pub ends : EndsLine before

-- A walk through `content`: `before` is a number of whole lines, `part` what has been read of
-- the next, and `rest` is to come.
pub record Walk (content rest : Bytes) (index line start : ℕ) : Type 0 where
  pub before : Bytes
  pub part : Bytes
  pub splits : content ≡ before ++ (part ++ rest)
  pub start_is : length before ≡ start
  pub index_is : length before + length part ≡ index
  pub line_is : newlines before ≡ line
  pub one_line : newlines part ≡ 0
  pub ends : EndsLine before

pub Walk-begin : (content : Bytes) → Walk content content 0 0 0
Walk-begin content = record {
  before = [];
  part = [];
  splits = refl;
  start_is = refl;
  index_is = omega arith;
  line_is = newlines-nil;
  one_line = newlines-nil;
  ends = inl refl;
}

module _ {content : Bytes} {index line start : ℕ} where
  pub Walk-LineStart :
      {rest : Bytes} → Walk content rest index line start → LineStart content line start
  Walk-LineStart {rest} w = record {
    before = w.before;
    rest = w.part ++ rest;
    splits = w.splits;
    start_is = w.start_is;
    line_is = w.line_is;
    ends = w.ends;
  }

  pub Walk-AtLine :
      {rest : Bytes} → Walk content rest index line start → AtLine content index line start
  Walk-AtLine {rest} w = record {
    before = w.before;
    part = w.part;
    after = rest;
    splits = w.splits;
    start_is = w.start_is;
    at_is = w.index_is;
    line_is = w.line_is;
    one_line = w.one_line;
    ends = w.ends;
  }

  pub Walk-newline :
      {rest : Bytes}
      → Walk content (newline ∷ rest) index line start
      → Walk content rest (index + 1) (suc line) (index + 1)
  Walk-newline {rest} w = record {
    before = w.before ++ (w.part ++ newline ∷ []);
    part = [];
    splits = w.splits ∙ rw (append_assoc, append_assoc);
    start_is = omega (arith, longer);
    index_is = omega (arith, longer);
    line_is = omega (
      arith,
      w.line_is,
      w.one_line,
      newlines-append w.before (w.part ++ newline ∷ []),
      newlines-append w.part (newline ∷ []),
      newlines-cons_newline [],
      newlines-nil,
    );
    one_line = newlines-nil;
    ends = inr (w.before ++ w.part, sym (append_assoc w.before w.part (newline ∷ [])));
  }
    where
      longer : length (w.before ++ (w.part ++ newline ∷ [])) ≡ index + 1
      longer = omega (
        arith,
        w.index_is,
        length-append w.before (w.part ++ newline ∷ []),
        length-append w.part (newline ∷ []),
      )

  pub Walk-other :
      {b : ℕ} {rest : Bytes}
      → (b == newline) ≡ false
      → Walk content (b ∷ rest) index line start
      → Walk content rest (index + 1) line start
  Walk-other {b} {rest} ne w = record {
    before = w.before;
    part = w.part ++ b ∷ [];
    splits = w.splits ∙ rw append_assoc;
    start_is = w.start_is;
    index_is = omega (arith, w.index_is, length-append w.part (b ∷ []));
    line_is = w.line_is;
    one_line = omega (
      arith,
      w.one_line,
      newlines-append w.part (b ∷ []),
      newlines-cons_other b [] ne,
      newlines-nil,
    );
    ends = w.ends;
  }

  pub Walk-append :
      (p : Bytes) {rest : Bytes}
      → newlines p ≡ 0
      → Walk content (p ++ rest) index line start
      → Walk content rest (index + length p) line start
  Walk-append p {rest} z w = record {
    before = w.before;
    part = w.part ++ p;
    splits = w.splits ∙ rw append_assoc;
    start_is = w.start_is;
    index_is = omega (arith, w.index_is, length-append w.part p);
    line_is = w.line_is;
    one_line = omega (arith, w.one_line, newlines-append w.part p);
    ends = w.ends;
  }
