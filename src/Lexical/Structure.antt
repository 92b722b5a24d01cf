-- ===== src/Lexical/Structure.antt =====
-- internal/lexical/scan.go: `State.ScanStructure`, the braces of one line.
pub mod Invariant
use kotlsp.Prelude.{
  ℕ, zero, suc, ◌+◌, ◌-◌, ◌*◌, ◌≤◌, ◌≡◌, refl, Bool, true, false, not, ◌&&◌, ◌||◌, [], ◌∷◌, Option,
  none, some, Bytes, codes, ℤ, pos, ltb, ◌==◌, if◌then◌else◌, length, length-drop, drop, arith,
  Bool-cases, Option-cases, inl, inr,
}
use kotlsp.Prelude.Int.{◌+ℤ◌, ◌-ℤ◌}
use kotlsp.Std.Strings.{has_prefix, index_byte}

-- `State`
pub record State : Type 0 where
  pub block_comment_depth : ℕ
  pub triple : Bool
  pub quote : ℕ
  pub escaped : Bool

-- `opens, closes, parenDelta`
pub record Counts : Type 0 where
  pub opens : ℕ
  pub closes : ℕ
  pub paren_delta : ℤ

abbrev pub no_counts : Counts
no_counts = record { opens = 0; closes = 0; paren_delta = pos 0 }

-- The switch on a byte of code.
unfoldable pub counted : Counts → ℕ → Counts
counted c b =
    if b == 0x7b
    then record c { opens = suc c.opens }
    else if b == 0x7d
    then record c { closes = suc c.closes }
    else if b == 0x28 || b == 0x5b
    then record c { paren_delta = c.paren_delta +ℤ pos 1 }
    else if b == 0x29 || b == 0x5d
    then record c { paren_delta = c.paren_delta -ℤ pos 1 }
    else c

-- A round of the loop: it breaks, or passes over some bytes.
pub data Round : Type 0 where
  stop : Round
  move : ℕ → State → Counts → Round

unfoldable pub comment_round : State → Bool → Bytes → Counts → Round
comment_round s kotlin rest c =
    if kotlin && has_prefix rest (codes "/*")
    then move 2 (record s { block_comment_depth = suc s.block_comment_depth }) c
    else if has_prefix rest (codes "*/")
    then move 2 (record s { block_comment_depth = s.block_comment_depth - 1 }) c
    else move 1 s c

unfoldable pub quote_round : State → ℕ → Counts → Round
quote_round s b c =
    if s.escaped
    then move 1 (record s { escaped = false }) c
    else if b == 0x5c
    then move 1 (record s { escaped = true }) c
    else if b == s.quote
    then move 1 (record s { quote = 0 }) c
    else move 1 s c

-- A name in backticks, or a backtick alone.
abbrev pub backtick_width : Bytes → ℕ
backtick_width bs = elim (index_byte bs 0x60) [ none ↦ 1 | some close ↦ close + 2 ]

unfoldable pub code_round : State → Bool → ℕ → Bytes → Counts → Round
code_round s kotlin b bs c =
    if has_prefix (b ∷ bs) (codes "\"\"\"")
    then move 3 (record s { triple = true }) c
    else if has_prefix (b ∷ bs) (codes "//")
    then stop
    else if has_prefix (b ∷ bs) (codes "/*")
    then move 2 (record s { block_comment_depth = 1 }) c
    else if kotlin && b == 0x60
    then move (backtick_width bs) s c
    else if b == 0x27 || b == 0x22
    then move 1 (record s { quote = b }) c
    else move 1 s (counted c b)

unfoldable pub structure_round : State → Bool → ℕ → Bytes → Counts → Round
structure_round s kotlin b bs c =
    if ltb 0 s.block_comment_depth
    then comment_round s kotlin (b ∷ bs) c
    else if s.triple
    then (if has_prefix (b ∷ bs) (codes "\"\"\"")
        then move 3 (record s { triple = false }) c
        else move 1 s c)
    else if not (s.quote == 0)
    then quote_round s b c
    else code_round s kotlin b bs c

-- The loop, on fuel; a round passes over at least one byte.
unfoldable pub structure_loop : ℕ → State → Bool → Bytes → Counts → State × Counts
structure_loop zero s kotlin rest c = (s, c)
structure_loop (suc fuel) s kotlin [] c = (s, c)
structure_loop (suc fuel) s kotlin (b ∷ bs) c = elim (structure_round s kotlin b bs c) [
  | stop ↦ (s, c)
  | move n t d ↦ structure_loop fuel t kotlin (drop n (b ∷ bs)) d
]

-- `ScanStructure`: the state behind the line, and what it counts.
unfoldable pub scan_structure : State → Bytes → Bool → State × Counts
scan_structure s line kotlin =
    let (t, c) = structure_loop (length line) s kotlin line no_counts in
    (record t { quote = 0; escaped = false }, c)
