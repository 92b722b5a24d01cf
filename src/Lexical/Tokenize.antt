-- ===== src/Lexical/Tokenize.antt =====
-- internal/lexical/scan.go: `TokenizeBounded`.
use kotlsp.Prelude.{
  ℕ, zero, suc, ◌+◌, Bool, true, false, ◌&&◌, ◌||◌, List, [], ◌∷◌, ◌++◌, Option, none, some, Bytes,
  codes, ℤ, pos, leb, ◌==◌, if◌then◌else◌, length, drop, take,
}
use kotlsp.Prelude.Int.{leb_ℤ, pos_part}
use kotlsp.Lexical.{
  Unicode, Token, TokenKind, identifier, number, string, character, operator, delimiter,
}
use kotlsp.Lexical.Scan.{
  comment_width, quote_width, backtick_width, runes_width, operator_width, slash_star, is_space,
  identifier_rune_start, identifier_rune_part, number_rune_part, multi_character_operators,
}
use kotlsp.Std.Strings.{has_prefix, index, index_byte, contains_rune}
use kotlsp.Std.Utf8.{decode_rune}

-- What a round of the loop does at the head of the remaining text: it passes over some bytes,
-- breaks, or appends a token of some width.
pub data Piece : Type 0 where
  passed : ℕ → Piece
  break : Piece
  lexeme : ℕ → TokenKind → Piece

abbrev pub line_comment : Bytes → Piece
line_comment rest = elim (index_byte (drop 2 rest) 0x0a) [
  | none ↦ break
  | some end ↦ passed (end + 3)
]

abbrev pub raw_string_width : Bytes → ℕ
raw_string_width rest = elim (index (drop 3 rest) (codes "\"\"\"")) [
  | none ↦ length rest
  | some end ↦ 3 + (end + 3)
]

abbrev pub quote_kind : ℕ → TokenKind
quote_kind quote = if quote == 0x27 then character else string

-- The branches for names, numbers, delimiters and operators.
unfoldable pub word_piece : Unicode → Bool → Bytes → Piece
word_piece u kotlin rest =
    let (r, size) = decode_rune rest in
    if identifier_rune_start u r kotlin
    then lexeme (size + runes_width (λ r. identifier_rune_part u r kotlin) (drop size rest))
        identifier
    else if u.is_digit r
    then lexeme (size + runes_width (number_rune_part u) (drop size rest)) number
    else if contains_rune (codes "()[]{};,") r
    then lexeme size delimiter
    else lexeme (operator_width multi_character_operators size rest) operator

unfoldable pub next_piece : Unicode → Bool → ℕ → Bytes → Piece
next_piece u kotlin b bs =
    let rest = b ∷ bs in
    if is_space b
    then passed 1
    else if has_prefix rest (codes "//")
    then line_comment rest
    else if has_prefix rest slash_star
    then passed (2 + comment_width kotlin (drop 2 rest))
    else if has_prefix rest (codes "\"\"\"")
    then lexeme (raw_string_width rest) string
    else if b == 0x22 || b == 0x27
    then lexeme (1 + quote_width b bs) (quote_kind b)
    else if kotlin && b == 0x60
    then lexeme (1 + backtick_width bs) identifier
    else word_piece u kotlin rest

-- The loop, over the text from `at` on; `none` where `appendToken` refuses. On fuel; a round
-- consumes at least one byte.
unfoldable pub tokenize_loop : Unicode → ℕ → Bool → ℕ → ℕ → Bytes → List Token → Option (List Token)
tokenize_loop u zero kotlin limit at rest tokens = some tokens
tokenize_loop u (suc fuel) kotlin limit at [] tokens = some tokens
tokenize_loop u (suc fuel) kotlin limit at (b ∷ bs) tokens = elim (next_piece u kotlin b bs) [
  | passed n ↦ tokenize_loop u fuel kotlin limit (at + n) (drop n (b ∷ bs)) tokens
  | break ↦ some tokens
  | lexeme n kind ↦ elim (leb limit (length tokens)) [
    | true ↦ none
    | false ↦
        tokenize_loop u fuel kotlin limit (at + n) (drop n (b ∷ bs)) (
          tokens ++ (record { start = at; end = at + n; kind = kind; text = take n (b ∷ bs) } ∷ []))
  ]
]

-- `TokenizeBounded`
unfoldable pub tokenize_bounded : Unicode → Bytes → Bool → ℤ → Option (List Token)
tokenize_bounded u text kotlin limit =
    if leb_ℤ limit (pos 0)
    then none
    else tokenize_loop u (length text) kotlin (pos_part limit) 0 text []

-- `Tokenize`, whose nil is the empty list.
unfoldable pub tokenize : Unicode → Bytes → Bool → List Token
tokenize u text kotlin = elim (tokenize_bounded u text kotlin (pos 100_000)) [
  | none ↦ []
  | some tokens ↦ tokens
]
