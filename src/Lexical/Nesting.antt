-- ===== src/Lexical/Nesting.antt =====
-- internal/lexical/scan.go: `MatchingDelimiter`, `TopLevelTokenIndex` and the decision whether `<`
-- opens type arguments.
use kotlsp.Prelude.{
  ℕ, zero, suc, ◌-◌, min, Bool, true, false, not, ◌&&◌, ◌||◌, List, [], ◌∷◌, Option, none, some,
  Bytes, codes, same, ℤ, pos, ltb, ◌==◌, if◌then◌else◌, length, drop, get_elem?,
}
use kotlsp.Prelude.Int.{ltb_ℤ, leb_ℤ, ◌+ℤ◌, ◌-ℤ◌}
use kotlsp.Lexical.{Unicode, Token, TokenKind, identifier}
use kotlsp.Lexical.Tokenize.{tokenize_bounded}
use kotlsp.Std.Strings.{trim, contains, count}
use kotlsp.Std.Utf8.{decode_rune}

abbrev pub is_identifier : TokenKind → Bool
is_identifier identifier = true
is_identifier _ = false

abbrev pub equals : ℤ → ℤ → Bool
equals a b = leb_ℤ a b && leb_ℤ b a

-- `depth` behind a token of `genericAngleOpens`.
unfoldable pub angle_depth : ℤ → Bytes → ℤ
angle_depth depth text =
    if same text (codes "<")
    then depth +ℤ pos 1
    else if same text (codes ">")
    then depth -ℤ pos 1
    else if same (trim text (codes ">")) []
    then depth -ℤ pos (length text)
    else depth

-- The texts that may follow type arguments.
unfoldable pub follows_types : Bytes → Bool
follows_types text =
    same text (codes "(")
    || same text (codes ")")
    || same text (codes "[")
    || same text (codes "]")
    || same text (codes "{")
    || same text (codes "}")
    || same text (codes ".")
    || same text (codes "?.")
    || same text (codes "::")
    || same text (codes ",")
    || same text (codes ";")
    || same text (codes "?")
    || same text (codes "!")
    || same text (codes ":")

-- The decision behind the token that closes the list.
unfoldable pub closed_angles : Unicode → Token → List Token → Bool
closed_angles u previous [] = true
closed_angles u previous (next ∷ rest) =
    follows_types next.text
    || is_identifier next.kind && u.is_upper (decode_rune (trim previous.text (codes "`"))).0

-- The loop of `genericAngleOpens`.
unfoldable pub angle_loop : Unicode → Token → ℤ → List Token → Bool
angle_loop u previous depth [] = false
angle_loop u previous depth (t ∷ ts) =
    let after = angle_depth depth t.text in
    let later = angle_loop u previous after ts in
    if ltb_ℤ (pos 0) after
    then later
    else if ltb_ℤ after (pos 0)
    then false
    else closed_angles u previous ts

-- What may stand in front of type arguments.
unfoldable pub precedes_types : Token → Bool
precedes_types previous =
    is_identifier previous.kind
    || same previous.text (codes ">")
    || same previous.text (codes "]")
    || same previous.text (codes ")")

-- `genericAngleOpens`. An index below 0 is refused as 0 is.
unfoldable pub generic_angle_opens : Unicode → List Token → ℕ → Bool
generic_angle_opens u tokens zero = false
generic_angle_opens u tokens (suc before) = elim (get_elem? tokens (suc before)) [
  | none ↦ false
  | some t ↦ elim (get_elem? tokens before) [
    | none ↦ false
    | some previous ↦
        same t.text (codes "<")
        && precedes_types previous
        && angle_loop u previous (pos 0) (drop (suc before) tokens)
  ]
]

-- `parens`, `brackets`, `braces` and `angles`.
pub record Depths : Type 0 where
  pub parens : ℤ
  pub brackets : ℤ
  pub braces : ℤ
  pub angles : ℕ

abbrev pub no_depths : Depths
no_depths = record { parens = pos 0; brackets = pos 0; braces = pos 0; angles = 0 }

abbrev pub at_top : Depths → Bool
at_top d =
    equals d.parens (pos 0)
    && equals d.brackets (pos 0)
    && equals d.braces (pos 0)
    && (d.angles == 0)

-- A token such as `>>`, `?>` or `*>`.
unfoldable pub closes_angles : Bytes → Bool
closes_angles text = same (trim text (codes "?*>")) [] && contains text (codes ">")

-- The switch of `TopLevelTokenIndex`; `opens` is the answer of `genericAngleOpens`.
unfoldable pub nested : Depths → Bytes → Bool → Depths
nested d text opens =
    if same text (codes "(")
    then record d { parens = d.parens +ℤ pos 1 }
    else if same text (codes ")")
    then record d { parens = d.parens -ℤ pos 1 }
    else if same text (codes "[")
    then record d { brackets = d.brackets +ℤ pos 1 }
    else if same text (codes "]")
    then record d { brackets = d.brackets -ℤ pos 1 }
    else if same text (codes "{")
    then record d { braces = d.braces +ℤ pos 1 }
    else if same text (codes "}")
    then record d { braces = d.braces -ℤ pos 1 }
    else if same text (codes "<")
    then (if ltb 0 d.angles || opens then record d { angles = suc d.angles } else d)
    else if same text (codes ">")
    then (if ltb 0 d.angles then record d { angles = d.angles - 1 } else d)
    else if closes_angles text
    then record d { angles = d.angles - min d.angles (count text 0x3e) }
    else d

-- The loop of `TopLevelTokenIndex` from a token on.
unfoldable pub top_level_loop : Unicode → List Token → Bytes → Depths → ℕ → List Token → Option ℕ
top_level_loop u tokens wanted d i [] = none
top_level_loop u tokens wanted d i (t ∷ ts) =
    let opens = generic_angle_opens u tokens i in
    let later = top_level_loop u tokens wanted (nested d t.text opens) (suc i) ts in
    if at_top d && same t.text wanted then some t.start else later

-- `TopLevelTokenIndex`, with `none` for its -1.
unfoldable pub top_level_token_index : Unicode → Bytes → Bytes → Bool → Option ℕ
top_level_token_index u text wanted kotlin = elim (tokenize_bounded u text kotlin (pos 100_000)) [
  | none ↦ none
  | some tokens ↦ top_level_loop u tokens wanted no_depths 0 tokens
]

-- The loop over the bytes of a token such as `>>`: where the depth comes to 0, or the depth
-- that is left.
pub data Closing : Type 0 where
  closed_at : ℕ → Closing
  open_at : ℕ → Closing

unfoldable pub close_each : Bytes → ℕ → ℕ → Closing
close_each [] at depth = open_at depth
close_each (b ∷ bs) at depth =
    let closes = b == 0x3e in
    let left = if closes then depth - 1 else depth in
    let later = close_each bs (suc at) left in if closes && (left == 0) then closed_at at else later

-- What a token does to `depth`, which is at least 1 behind the opening token.
unfoldable pub closing_step : Bytes → Bytes → ℕ → Token → Closing
closing_step opening closing depth t =
    if same t.text opening
    then open_at (suc depth)
    else if same t.text closing
    then (if depth - 1 == 0 then closed_at t.start else open_at (depth - 1))
    else if same closing (codes ">") && closes_angles t.text
    then close_each t.text t.start depth
    else open_at depth

-- The loop of `MatchingDelimiter` behind its opening token.
unfoldable pub closing_loop : Bytes → Bytes → ℕ → List Token → Option ℕ
closing_loop opening closing depth [] = none
closing_loop opening closing depth (t ∷ ts) = elim (closing_step opening closing depth t) [
  | closed_at at ↦ some at
  | open_at left ↦ closing_loop opening closing left ts
]

-- The loop up to its opening token, which is the first round behind `started`.
unfoldable pub opening_loop : ℤ → Bytes → Bytes → List Token → Option ℕ
opening_loop start opening closing [] = none
opening_loop start opening closing (t ∷ ts) =
    let later = opening_loop start opening closing ts in
    if ltb_ℤ (pos t.start) start
    then later
    else if not (equals (pos t.start) start) || not (same t.text opening)
    then none
    else closing_loop opening closing 0 (t ∷ ts)

-- `MatchingDelimiter`, with `none` for its -1.
unfoldable pub matching_delimiter : Unicode → Bytes → ℤ → Bytes → Bytes → Bool → Option ℕ
matching_delimiter u text start opening closing kotlin =
    elim (tokenize_bounded u text kotlin (pos 100_000)) [
      | none ↦ none
      | some tokens ↦ opening_loop start opening closing tokens
    ]
