-- ===== src/Lexical/Scan.antt =====
-- internal/lexical/scan.go: the loops of `TokenizeBounded` inside one token or comment.
use kotlsp.Prelude.{
  ℕ, zero, suc, ◌+◌, min, max, Bool, true, false, not, ◌&&◌, ◌||◌, List, [], ◌∷◌, Option, none,
  some, Bytes, codes, ◌==◌, within, if◌then◌else◌, length, drop,
}
use kotlsp.Lexical.{Unicode}
use kotlsp.Std.Strings.{has_prefix}
use kotlsp.Std.Utf8.{decode_rune}

-- `for at < len(text) { … }` on a state: a round consumes some bytes or ends the loop. On fuel;
-- a round consumes at least one byte.
unfoldable pub scan_while : {S : Type 0} → ℕ → (S → Bytes → Option (ℕ × S)) → S → Bytes → ℕ
scan_while zero round s rest = 0
scan_while (suc fuel) round s [] = 0
scan_while (suc fuel) round s (b ∷ bs) = elim (round s (b ∷ bs)) [
  | none ↦ 0
  | some r ↦ r.0 + scan_while fuel round r.1 (drop r.0 (b ∷ bs))
]

abbrev pub slash_star : Bytes
slash_star = codes "/*"

abbrev pub star_slash : Bytes
star_slash = codes "*/"

-- The size of the next rune, and at least 1.
abbrev pub rune_step : Bytes → ℕ
rune_step rest = max (decode_rune rest).1 1

-- The loop over a block comment, whose state is `depth`.
unfoldable pub comment_round : Bool → ℕ → Bytes → Option (ℕ × ℕ)
comment_round kotlin zero rest = none
comment_round kotlin (suc depth) rest =
    if kotlin && has_prefix rest slash_star
    then some (2, suc (suc depth))
    else if has_prefix rest star_slash
    then some (2, depth)
    else some (rune_step rest, suc depth)

unfoldable pub comment_width : Bool → Bytes → ℕ
unfolding scan_while
comment_width kotlin rest = scan_while (length rest) (comment_round kotlin) 1 rest

-- The loop over a literal behind its opening quote; its state says that it goes on.
unfoldable pub quote_round : ℕ → Bool → Bytes → Option (ℕ × Bool)
quote_round quote false rest = none
quote_round quote true [] = none
quote_round quote true (b ∷ bs) =
    if b == 0x5c
    then some (min 2 (length (b ∷ bs)), true)
    else some (1, not (b == quote || b == 0x0a))

unfoldable pub quote_width : ℕ → Bytes → ℕ
unfolding scan_while
quote_width quote rest = scan_while (length rest) (quote_round quote) true rest

-- The loop over a name in backticks, which stops in front of the second backtick.
unfoldable pub backtick_round : Unit {0} → Bytes → Option (ℕ × Unit {0})
backtick_round tt [] = none
backtick_round tt (b ∷ bs) = if b == 0x60 || b == 0x0a then none else some (rune_step (b ∷ bs), tt)

unfoldable pub backtick_width : Bytes → ℕ
unfolding scan_while
backtick_width rest =
    let n = scan_while (length rest) backtick_round tt rest in
    if has_prefix (drop n rest) (codes "`") then n + 1 else n

-- The loop over runes that go on with a name or a number.
unfoldable pub rune_round : (ℕ → Bool) → Unit {0} → Bytes → Option (ℕ × Unit {0})
rune_round part tt rest =
    if part (decode_rune rest).0 then some ((decode_rune rest).1, tt) else none

unfoldable pub runes_width : (ℕ → Bool) → Bytes → ℕ
unfolding scan_while
runes_width part rest = scan_while (length rest) (rune_round part) tt rest

-- `unicode.IsSpace` on a byte.
abbrev pub is_space : ℕ → Bool
is_space b = within 0x09 0x0d b || b == 0x20 || b == 0x85 || b == 0xa0

-- `identifierRuneStart`
abbrev pub identifier_rune_start : Unicode → ℕ → Bool → Bool
identifier_rune_start u value kotlin = value == 0x5f || kotlin && value == 0x24 || u.is_letter value

-- `identifierRunePart`
abbrev pub identifier_rune_part : Unicode → ℕ → Bool → Bool
identifier_rune_part u value kotlin =
    identifier_rune_start u value kotlin || u.is_digit value || u.is_mark value

abbrev pub number_rune_part : Unicode → ℕ → Bool
number_rune_part u r = u.is_digit r || u.is_letter r || r == 0x5f || r == 0x2e

-- `multiCharacterOperators`
abbrev pub multi_character_operators : List Bytes
multi_character_operators =
    codes ">>>="
    ∷ codes "==="
    ∷ codes "!=="
    ∷ codes "<<="
    ∷ codes ">>="
    ∷ codes ">>>"
    ∷ codes "..."
    ∷ codes "..<"
    ∷ codes "!!."
    ∷ codes "?."
    ∷ codes "?:"
    ∷ codes "!!"
    ∷ codes "::"
    ∷ codes "->"
    ∷ codes ".."
    ∷ codes "++"
    ∷ codes "--"
    ∷ codes "&&"
    ∷ codes "||"
    ∷ codes "=="
    ∷ codes "!="
    ∷ codes "<="
    ∷ codes ">="
    ∷ codes "+="
    ∷ codes "-="
    ∷ codes "*="
    ∷ codes "/="
    ∷ codes "%="
    ∷ codes "&="
    ∷ codes "|="
    ∷ codes "^="
    ∷ codes "<<"
    ∷ codes ">>"
    ∷ []

-- The width of the first operator that the text begins with, or of its rune.
unfoldable pub operator_width : List Bytes → ℕ → Bytes → ℕ
operator_width [] size rest = size
operator_width (o ∷ os) size rest =
    let later = operator_width os size rest in if has_prefix rest o then length o else later
