-- ===== src/Lexical/Regions.antt =====
-- internal/lexical/scan.go: `ScanRegionsBounded`, the literals, comments and interpolations.
pub mod Fits
pub mod Bounds
pub mod Scan
pub mod Fuel
use kotlsp.Prelude.{
  ℕ, zero, suc, ◌+◌, ◌-◌, min, Bool, true, false, not, ◌&&◌, ◌||◌, List, [], ◌∷◌, ◌++◌, Option,
  none, some, Bytes, codes, ltb, leb, ◌==◌, within, if◌then◌else◌, length, drop,
}
use kotlsp.Std.Strings.{has_prefix}

-- `Kind`
pub data Kind : Type 0 where
  code : Kind
  literal : Kind
  line_comment : Kind
  block_comment : Kind
  doc_comment : Kind

-- `Region`
pub record Region : Type 0 where
  pub start : ℕ
  pub end : ℕ
  pub outer_start : ℕ
  pub outer_end : ℕ
  pub kind : Kind
  pub nested : Bool

-- The byte `kind` of a frame: '"', 't' or '{'.
pub data FrameKind : Type 0 where
  quoted : FrameKind
  triple : FrameKind
  braces : FrameKind

-- `frame`
pub record Frame : Type 0 where
  pub kind : FrameKind
  pub body_start : ℕ
  pub brace_depth : ℕ

abbrev pub opened : FrameKind → ℕ → Frame
opened kind body_start = record { kind = kind; body_start = body_start; brace_depth = 0 }

-- `identifierByte`
abbrev pub identifier_byte : ℕ → Bool
identifier_byte b =
    b == 0x5f || b == 0x24 || within 0x61 0x7a b || within 0x41 0x5a b || within 0x30 0x39 b

-- `identifierStart`, on the text from an offset on.
unfoldable pub identifier_start : Bytes → Bool
identifier_start [] = false
identifier_start (b ∷ bs) = identifier_byte b && not (within 0x30 0x39 b)

-- `for end < len(text) && identifierByte(text[end])`: how many bytes.
unfoldable pub identifier_run : Bytes → ℕ
identifier_run [] = 0
identifier_run (b ∷ bs) = let rest = identifier_run bs in if identifier_byte b then suc rest else 0

-- `for end < len(text) && text[end] != '\n'`
unfoldable pub line_run : Bytes → ℕ
line_run [] = 0
line_run (b ∷ bs) = let rest = line_run bs in if b == 0x0a then 0 else suc rest

-- What the loop over a block comment does at some bytes: with `none` it breaks in front of
-- the last `*/`.
unfoldable pub depth_round : Bool → ℕ → Bytes → Option (ℕ × ℕ)
depth_round kotlin depth rest =
    if kotlin && has_prefix rest (codes "/*")
    then some (2, suc depth)
    else if has_prefix rest (codes "*/")
    then (if depth - 1 == 0 then none else some (2, depth - 1))
    else some (1, depth)

-- That loop from `depth` on, on fuel: how many bytes it passes over.
unfoldable pub comment_run : ℕ → Bool → ℕ → Bytes → ℕ
comment_run zero kotlin depth rest = 0
comment_run (suc fuel) kotlin depth [] = 0
comment_run (suc fuel) kotlin depth (b ∷ bs) = elim (depth_round kotlin depth (b ∷ bs)) [
  | none ↦ 0
  | some r ↦ r.0 + comment_run fuel kotlin r.1 (drop r.0 (b ∷ bs))
]

-- The loop over a character literal; an escape at the end of the text passes over one more.
unfoldable pub character_run : ℕ → Bytes → ℕ
character_run zero rest = 0
character_run (suc fuel) [] = 0
character_run (suc fuel) (b ∷ bs) =
    let n = if b == 0x5c then 2 else 1 in
    let later = n + character_run fuel (drop n (b ∷ bs)) in
    if b == 0x27 || b == 0x0a then 0 else later

-- A round of the loop: the bytes that `at` advances, the stack behind it and what it emits; or
-- the nesting is too deep.
pub data Move : Type 0 where
  too_deep : Move
  emit : ℕ → List Frame → Region → Move
  next : ℕ → List Frame → Move

abbrev pub push : ℕ → FrameKind → ℕ → List Frame → Move
push n kind body_start stack =
    if leb 1024 (length stack) then too_deep else next n (opened kind body_start ∷ stack)

-- The branch `kotlin && value == '$' && at+1 < len(text)`; `rest` is the text behind the dollar.
unfoldable pub dollar : ℕ → Bytes → List Frame → Move
dollar at rest stack =
    let width = identifier_run rest in
    if has_prefix rest (codes "{")
    then push 2 braces (at + 1) stack
    else if identifier_start rest
    then emit (1 + width) stack (record {
      start = at + 1;
      end = at + 1 + width;
      outer_start = at + 1;
      outer_end = at + 1 + width;
      kind = code;
      nested = true;
    })
    else next 1 stack

abbrev pub literal_of : ℕ → ℕ → ℕ → ℕ → Region
literal_of start end outer_start outer_end = record {
  start = start;
  end = end;
  outer_start = outer_start;
  outer_end = outer_end;
  kind = literal;
  nested = false;
}

-- The rounds inside a string; `stack` is what lies below its frame.
unfoldable pub quoted_move : Bool → ℕ → ℕ → Bytes → Frame → List Frame → Move
quoted_move kotlin at b bs top stack =
    if b == 0x5c
    then next 2 (top ∷ stack)
    else if b == 0x22 || b == 0x0a
    then emit 1 stack (literal_of top.body_start at (top.body_start - 1) (at + 1))
    else if kotlin && b == 0x24
    then dollar at bs (top ∷ stack)
    else next 1 (top ∷ stack)

unfoldable pub triple_move : Bool → ℕ → ℕ → Bytes → Frame → List Frame → Move
triple_move kotlin at b bs top stack =
    if has_prefix (b ∷ bs) (codes "\"\"\"")
    then emit 3 stack (literal_of top.body_start at (top.body_start - 3) (at + 3))
    else if kotlin && b == 0x24
    then dollar at bs (top ∷ stack)
    else next 1 (top ∷ stack)

abbrev pub comment_of : Kind → ℕ → ℕ → ℕ → ℕ → Region
comment_of kind start end outer_start outer_end = record {
  start = start;
  end = end;
  outer_start = outer_start;
  outer_end = outer_end;
  kind = kind;
  nested = false;
}

unfoldable pub is_doc : Bytes → Bool
is_doc rest = has_prefix rest (codes "/**") && not (has_prefix rest (codes "/**/"))

-- The branch for `/*`; `rest` begins with it.
unfoldable pub block_move : Bool → ℕ → Bytes → List Frame → Move
block_move kotlin at rest stack =
    let size = at + length rest in
    let end = at + 2 + comment_run (length rest) kotlin 1 (drop 2 rest) in
    let body_start = if is_doc rest then at + 3 else at + 2 in
    emit (end + 2 - at) stack (
      comment_of (if is_doc rest then doc_comment else block_comment) (min body_start end) end at
        (min (end + 2) size))

-- The last branch, where `value` is a brace of an interpolation or another byte.
unfoldable pub brace_move : ℕ → ℕ → List Frame → Move
brace_move at b [] = next 1 []
brace_move at b (top ∷ stack) =
    if b == 0x7b
    then next 1 (record top { brace_depth = suc top.brace_depth } ∷ stack)
    else if b == 0x7d
    then (if top.brace_depth == 0
        then emit 1 stack (record {
          start = top.body_start;
          end = at + 1;
          outer_start = top.body_start;
          outer_end = at + 1;
          kind = code;
          nested = true;
        })
        else next 1 (record top { brace_depth = top.brace_depth - 1 } ∷ stack))
    else next 1 (top ∷ stack)

-- The rounds outside of strings.
unfoldable pub code_move : Bool → ℕ → ℕ → Bytes → List Frame → Move
code_move kotlin at b bs stack =
    let size = at + suc (length bs) in
    let line_end = at + 2 + line_run (drop 1 bs) in
    let character_end = at + 1 + character_run (length bs) bs in
    if has_prefix (b ∷ bs) (codes "//")
    then emit (line_end + 1 - at) stack
        (comment_of line_comment (at + 2) line_end at (min (line_end + 1) size))
    else if has_prefix (b ∷ bs) (codes "/*")
    then block_move kotlin at (b ∷ bs) stack
    else if has_prefix (b ∷ bs) (codes "\"\"\"")
    then push 3 triple (at + 3) stack
    else if b == 0x22
    then push 1 quoted (at + 1) stack
    else if b == 0x27
    then emit (character_end + 1 - at) stack
        (literal_of (at + 1) (min character_end size) at (min (character_end + 1) size))
    else brace_move at b stack

unfoldable pub region_move : Bool → ℕ → ℕ → Bytes → List Frame → Move
region_move kotlin at b bs [] = code_move kotlin at b bs []
region_move kotlin at b bs (top ∷ stack) = elim top.kind [
  | quoted ↦ quoted_move kotlin at b bs top stack
  | triple ↦ triple_move kotlin at b bs top stack
  | braces ↦ code_move kotlin at b bs (top ∷ stack)
]

-- The region of a frame that the text leaves open.
unfoldable pub unfinished : ℕ → Frame → Region
unfinished size top = record {
  start = top.body_start;
  end = size;
  outer_start = top.body_start;
  outer_end = size;
  kind = elim top.kind [ braces ↦ code | _ ↦ literal ];
  nested = elim top.kind [ braces ↦ true | _ ↦ false ];
}

-- The regions visited, and whether the scan has come to its end. `emit` refuses a region where
-- `regions` has reached the limit; `left` is how many it still takes.
unfoldable pub finish : ℕ → ℕ → List Frame → List Region × Bool
finish size left [] = ([], true)
finish size zero (top ∷ stack) = ([], false)
finish size (suc left) (top ∷ stack) =
    let later = finish size left stack in (unfinished size top ∷ later.0, later.1)

-- The loop, on fuel; a round advances `at` by at least one.
unfoldable pub regions_loop : ℕ → Bool → ℕ → ℕ → ℕ → Bytes → List Frame → List Region × Bool
regions_loop zero kotlin size left at rest stack = finish size left stack
regions_loop (suc fuel) kotlin size left at [] stack = finish size left stack
regions_loop (suc fuel) kotlin size left at (b ∷ bs) stack =
    elim (region_move kotlin at b bs stack) [
      | too_deep ↦ ([], false)
      | next n later ↦ regions_loop fuel kotlin size left (at + n) (drop n (b ∷ bs)) later
      | emit n later region ↦ elim left [
        | zero ↦ ([], false)
        | suc fewer ↦
            let result = regions_loop fuel kotlin size fewer (at + n) (drop n (b ∷ bs)) later in
            (region ∷ result.0, result.1)
      ]
    ]

-- `ScanRegionsBounded`: the regions handed to `visit`, and what it returns.
unfoldable pub scan_regions_bounded : Bytes → Bool → ℕ → List Region × Bool
scan_regions_bounded text kotlin max_regions =
    regions_loop (length text) kotlin (length text) max_regions 0 text []
