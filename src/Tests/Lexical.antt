-- ===== src/Tests/Lexical.antt =====
-- internal/lexical/scan.go on short pieces of Kotlin, with the ASCII part of the Unicode tables.
use kotlsp.Prelude.{
  ◌≤◌, ◌≡◌, ◌↔◌, refl, true, false, ◌||◌, List, [], ◌∷◌, some, Bytes, codes, pos, arith, length,
  within, map,
}
use kotlsp.Lexical.{Unicode, Token}
use kotlsp.Prelude.Int.{◌+ℤ◌, ◌-ℤ◌}
use kotlsp.Lexical.Matching.{IsMatch, matching_delimiter_iff}
use kotlsp.Lexical.Nesting.{
  opening_loop, closing_loop, closing_step, closes_angles, matching_delimiter,
  top_level_token_index, top_level_loop, nested, generic_angle_opens, angle_loop, angle_depth,
  closed_angles, precedes_types, follows_types, no_depths,
}
use kotlsp.Lexical.Ordered.{
  Ordered, lexemes, limited, tokenize_bounded-lexemes, tokenize_bounded-Ordered,
}
use kotlsp.Lexical.Split.{split_loop, keep, split_top_level_of}
use kotlsp.Lexical.Split.Lossless.{Parts, split_top_level_of-Parts}
use kotlsp.Std.Space.{trim_space, decode_last_rune}
use kotlsp.Lexical.Scan.{
  scan_while, comment_round, comment_width, quote_round, quote_width, backtick_round,
  backtick_width, rune_round, runes_width, operator_width,
}
use kotlsp.Lexical.Tokenize.{tokenize_loop, tokenize_bounded, next_piece, word_piece}
use kotlsp.Std.Strings.{index, index_byte, trim, contains, count}
use kotlsp.Std.Utf8.{decode_rune}

abbrev ascii : Unicode
ascii = record {
  is_letter = λ r. within 0x41 0x5a r || within 0x61 0x7a r;
  is_digit = within 0x30 0x39;
  is_mark = λ r. false;
  is_upper = within 0x41 0x5a;
}

abbrev call : Bytes
call = codes "f(x1, /* /* */ */ 'a') // end"

abbrev texts : List Token → List Bytes
texts = map (λ t. t.text)

abbrev call_tokens : List Token
call_tokens = lexemes ascii 29 true 0 call

call_texts :
    texts call_tokens
    ≡ codes "f" ∷ codes "(" ∷ codes "x1" ∷ codes "," ∷ codes "'a'" ∷ codes ")" ∷ []
unfolding lexemes next_piece word_piece scan_while comment_round comment_width quote_round
    quote_width backtick_round backtick_width rune_round runes_width operator_width index index_byte
    decode_rune
call_texts = refl

found : tokenize_bounded ascii call true (pos 6) ≡ some call_tokens
unfolding tokenize_bounded tokenize_loop lexemes next_piece word_piece scan_while comment_round
    comment_width quote_round quote_width backtick_round backtick_width rune_round runes_width
    operator_width index index_byte decode_rune
found = refl

tokenize_bounded-Ordered_example : Ordered call 0 call_tokens × (length call_tokens ≤ 6)
tokenize_bounded-Ordered_example =
    tokenize_bounded-Ordered ascii call true (pos 6) call_tokens found

tokenize_bounded-lexemes_example : tokenize_bounded ascii call true (pos 5) ≡ limited 5 call_tokens
tokenize_bounded-lexemes_example = tokenize_bounded-lexemes ascii call true 5 (omega arith)

found_all : tokenize_bounded ascii call true (pos 100_000) ≡ some call_tokens
unfolding tokenize_bounded tokenize_loop lexemes next_piece word_piece scan_while comment_round
    comment_width quote_round quote_width backtick_round backtick_width rune_round runes_width
    operator_width index index_byte decode_rune
found_all = refl

matched : opening_loop (pos 1) (codes "(") (codes ")") call_tokens ≡ some 21
unfolding opening_loop closing_loop closing_step closes_angles lexemes next_piece word_piece
    scan_while comment_round comment_width quote_round quote_width backtick_round backtick_width
    rune_round runes_width operator_width index index_byte decode_rune
matched = refl

matching_delimiter_iff_example :
    (matching_delimiter ascii call (pos 1) (codes "(") (codes ")") true ≡ some 21)
    ↔ IsMatch (codes "(") (codes ")") 1 21 call_tokens
matching_delimiter_iff_example =
    matching_delimiter_iff (codes "(") (codes ")") refl refl ascii call 1 true 21 call_tokens
      found_all

top : top_level_token_index ascii call (codes "(") true ≡ some 1
unfolding top_level_token_index top_level_loop nested generic_angle_opens angle_loop angle_depth
    closed_angles precedes_types closes_angles tokenize_bounded tokenize_loop next_piece word_piece
    scan_while comment_round comment_width quote_round quote_width backtick_round backtick_width
    rune_round runes_width operator_width index index_byte decode_rune trim
top = refl

-- `List<Map<K, V>>` is a type, `a < b` is not.
types_open :
    generic_angle_opens ascii (lexemes ascii 17 true 0 (codes "List<Map<K, V>>()")) 1 ≡ true
unfolding generic_angle_opens angle_loop angle_depth closed_angles precedes_types closes_angles
    follows_types trim contains count lexemes next_piece word_piece scan_while comment_round
    comment_width quote_round quote_width backtick_round backtick_width rune_round runes_width
    operator_width index index_byte decode_rune ◌+ℤ◌ ◌-ℤ◌
types_open = refl

comparison_does_not : generic_angle_opens ascii (lexemes ascii 5 true 0 (codes "a < b")) 1 ≡ false
unfolding generic_angle_opens angle_loop angle_depth closed_angles precedes_types closes_angles
    follows_types trim contains count lexemes next_piece word_piece scan_while comment_round
    comment_width quote_round quote_width backtick_round backtick_width rune_round runes_width
    operator_width index index_byte decode_rune ◌+ℤ◌ ◌-ℤ◌
comparison_does_not = refl

abbrev arguments : Bytes
arguments = codes "a < b, f(c, d) ,"

abbrev argument_tokens : List Token
argument_tokens = lexemes ascii 16 true 0 arguments

argued : tokenize_bounded ascii arguments true (pos 100_000) ≡ some argument_tokens
unfolding tokenize_bounded tokenize_loop lexemes next_piece word_piece scan_while comment_round
    comment_width quote_round quote_width backtick_round backtick_width rune_round runes_width
    operator_width index index_byte decode_rune
argued = refl

-- The comma of the call and the smaller-than sign do not split.
values :
    split_loop ascii argument_tokens arguments (codes ",") false 0 no_depths 0 argument_tokens
    ≡ codes "a < b" ∷ codes "f(c, d)" ∷ []
unfolding split_loop keep lexemes next_piece word_piece scan_while comment_round comment_width
    quote_round quote_width backtick_round backtick_width rune_round runes_width operator_width
    index index_byte decode_rune nested generic_angle_opens angle_loop angle_depth closed_angles
    precedes_types follows_types closes_angles trim contains count trim_space decode_last_rune ◌+ℤ◌
    ◌-ℤ◌
values = refl

split_top_level_of-Parts_example :
    Parts arguments (codes ",") 0 (split_top_level_of ascii arguments (codes ",") true false)
split_top_level_of-Parts_example =
    split_top_level_of-Parts ascii arguments (codes ",") true false argument_tokens argued
