-- ===== src/Lexical/Widths.antt =====
-- internal/lexical/scan.go: every round of `TokenizeBounded` moves on, within the text.
use kotlsp.Prelude.{
  ℕ, zero, suc, ◌+◌, ◌≤◌, ◌≡◌, refl, Bool, true, false, ◌&&◌, List, [], ◌∷◌, Option, some, Bytes,
  codes, ltb, if◌then◌else◌, length, drop, length-drop, arith, Bool-cases, Option-cases, inl, inr,
}
use kotlsp.Lexical.{Unicode, TokenKind, identifier, number, delimiter}
use kotlsp.Lexical.Scan.{
  scan_while, comment_round, comment_width, quote_round, quote_width, backtick_round,
  backtick_width, rune_round, runes_width, operator_width, slash_star, star_slash,
  identifier_rune_part, number_rune_part, multi_character_operators,
}
use kotlsp.Lexical.Tokenize.{
  Piece, passed, break, lexeme, line_comment, raw_string_width, word_piece, next_piece, quote_kind,
}
use kotlsp.Std.Strings.{has_prefix, has_prefix-le, index, index-le, index_byte}
use kotlsp.Std.Utf8.{decode_rune, decode_rune-Fits}

-- A round consumes at least one byte and no more than there are.
abbrev pub Advances : {S : Type 0} → (S → Bytes → Option (ℕ × S)) → Type 0
Advances {S = S} round =
    (s : S) (b : ℕ) (bs : Bytes) (n : ℕ) (t : S)
    → round s (b ∷ bs) ≡ some (n, t)
    → (1 ≤ n) × (n ≤ suc (length bs))

module _ {S : Type 0} (round : S → Bytes → Option (ℕ × S)) (advances : Advances round) where
  scan_while-le : (fuel : ℕ) (s : S) (rest : Bytes) → scan_while fuel round s rest ≤ length rest
  unfolding scan_while
  scan_while-le zero s rest = omega arith
  scan_while-le (suc fuel) s [] = omega arith
  scan_while-le (suc fuel) s (b ∷ bs) = elim (Option-cases (round s (b ∷ bs))) [
    | inl e ↦ rw (e, scan_while) (omega arith)
    | inr ((n, t), e) ↦
        let a = advances s b bs n t e in
        let ih = scan_while-le fuel t (drop n (b ∷ bs)) in
        let d = length-drop n (b ∷ bs) in rw (e, scan_while) (omega arith)
  ]

  -- A round for each byte is enough: more fuel gives the same.
  pub scan_while_enough :
      (fuel more : ℕ) (s : S) (rest : Bytes)
      → length rest ≤ fuel
      → length rest ≤ more
      → scan_while fuel round s rest ≡ scan_while more round s rest
  unfolding scan_while
  scan_while_enough zero zero s [] h k = refl
  scan_while_enough zero (suc more) s [] h k = refl
  scan_while_enough (suc fuel) zero s [] h k = refl
  scan_while_enough (suc fuel) (suc more) s [] h k = refl
  scan_while_enough zero more s (b ∷ bs) h k = absurd (omega arith)
  scan_while_enough (suc fuel) zero s (b ∷ bs) h k = absurd (omega arith)
  scan_while_enough (suc fuel) (suc more) s (b ∷ bs) h k = elim (Option-cases (round s (b ∷ bs))) [
    | inl e ↦ rw (e, scan_while) refl
    | inr ((n, t), e) ↦
        let a = advances s b bs n t e in
        let d = length-drop n (b ∷ bs) in
        let ih = scan_while_enough fuel more t (drop n (b ∷ bs)) (omega arith) (omega arith) in
        rw (e, scan_while, ih) refl
  ]

comment-Advances : (kotlin : Bool) → Advances (comment_round kotlin)
unfolding comment_round
comment-Advances kotlin zero b bs n t e = cc
comment-Advances kotlin (suc depth) b bs n t e =
    let f = decode_rune-Fits b bs in
    let l = has_prefix-le (b ∷ bs) slash_star in
    let r = has_prefix-le (b ∷ bs) star_slash in
    elim (Bool-cases (kotlin && has_prefix (b ∷ bs) slash_star)) [
      | inl q ↦ ground arith
      | inr q ↦ ground arith
    ]

quote-Advances : (quote : ℕ) → Advances (quote_round quote)
unfolding quote_round
quote-Advances quote false b bs n t e = cc
quote-Advances quote true b bs n t e = ground arith

backtick-Advances : Advances backtick_round
unfolding backtick_round
backtick-Advances tt b bs n t e = let f = decode_rune-Fits b bs in ground arith

rune-Advances : (part : ℕ → Bool) → Advances (rune_round part)
unfolding rune_round
rune-Advances part tt b bs n t e = let f = decode_rune-Fits b bs in ground arith

operator_width-le :
    (os : List Bytes) (size : ℕ) (rest : Bytes)
    → size ≤ length rest
    → operator_width os size rest ≤ length rest
unfolding operator_width
operator_width-le [] size rest h = h
operator_width-le (o ∷ os) size rest h =
    let ih = operator_width-le os size rest h in
    elim (Bool-cases (has_prefix rest o)) [
      | inl q ↦ let l = has_prefix-le rest o q in ground arith
      | inr q ↦ ground arith
    ]

abbrev no_empty : List Bytes → Bool
no_empty [] = true
no_empty (o ∷ os) = ltb 0 (length o) && no_empty os

operator_width-positive :
    (os : List Bytes) (size : ℕ) (rest : Bytes)
    → no_empty os ≡ true
    → 1 ≤ size
    → 1 ≤ operator_width os size rest
unfolding operator_width
operator_width-positive [] size rest e h = h
operator_width-positive (o ∷ os) size rest e h =
    let q : no_empty os ≡ true = ground arith in
    let ih = operator_width-positive os size rest q h in ground arith

comment_width-le : (kotlin : Bool) (rest : Bytes) → comment_width kotlin rest ≤ length rest
unfolding comment_width
comment_width-le kotlin rest =
    scan_while-le (comment_round kotlin) (comment-Advances kotlin) _ 1 rest

quote_width-le : (quote : ℕ) (rest : Bytes) → quote_width quote rest ≤ length rest
unfolding quote_width
quote_width-le quote rest = scan_while-le (quote_round quote) (quote-Advances quote) _ true rest

runes_width-le : (part : ℕ → Bool) (rest : Bytes) → runes_width part rest ≤ length rest
unfolding runes_width
runes_width-le part rest = scan_while-le (rune_round part) (rune-Advances part) _ tt rest

backtick_width-le : (rest : Bytes) → backtick_width rest ≤ length rest
unfolding backtick_width
backtick_width-le rest =
    let n = scan_while (length rest) backtick_round tt rest in
    let w = scan_while-le backtick_round backtick-Advances (length rest) tt rest in
    let l = has_prefix-le (drop n rest) (codes "`") in let d = length-drop n rest in ground arith

raw_string_width-Fits :
    (rest : Bytes)
    → 3 ≤ length rest
    → (1 ≤ raw_string_width rest) × (raw_string_width rest ≤ length rest)
raw_string_width-Fits rest h =
    let d = length-drop 3 rest in
    elim (Option-cases (index (drop 3 rest) (codes "\"\"\""))) [
      | inl e ↦ rw (e, raw_string_width) (omega arith, omega arith)
      | inr (i, e) ↦
          let l = index-le (drop 3 rest) (codes "\"\"\"") i e in
          rw (e, raw_string_width) (omega arith, omega arith)
    ]

-- What a piece takes of a text of some length.
pub data PieceFits (size : ℕ) : Piece → Type 0 where
  passes : {n : ℕ} → 1 ≤ n → n ≤ size → PieceFits size (passed n)
  breaks : PieceFits size break
  appends : {n : ℕ} {kind : TokenKind} → 1 ≤ n → n ≤ size → PieceFits size (lexeme n kind)

line_comment-Fits : (rest : Bytes) → 2 ≤ length rest → PieceFits (length rest) (line_comment rest)
unfolding index_byte
line_comment-Fits rest h =
    let d = length-drop 2 rest in
    elim (Option-cases (index_byte (drop 2 rest) 0x0a)) [
      | inl e ↦ rw (e, line_comment) breaks
      | inr (i, e) ↦
          let l = index-le (drop 2 rest) (0x0a ∷ []) i e in
          rw (e, line_comment) (passes (omega arith) (omega arith))
    ]

if_Fits :
    (size : ℕ) (test : Bool) (p q : Piece)
    → (test ≡ true → PieceFits size p)
    → PieceFits size q
    → PieceFits size (if test then p else q)
if_Fits size true p q f g = f refl
if_Fits size false p q f g = g

word_piece-Fits :
    (u : Unicode) (kotlin : Bool) (b : ℕ) (bs : Bytes)
    → PieceFits (suc (length bs)) (word_piece u kotlin (b ∷ bs))
unfolding word_piece
word_piece-Fits u kotlin b bs =
    let f = decode_rune-Fits b bs in
    let r = (decode_rune (b ∷ bs)).0 in
    let size = (decode_rune (b ∷ bs)).1 in
    let d = length-drop size (b ∷ bs) in
    let i = runes_width-le (λ r. identifier_rune_part u r kotlin) (drop size (b ∷ bs)) in
    let n = runes_width-le (number_rune_part u) (drop size (b ∷ bs)) in
    let o = operator_width-le multi_character_operators size (b ∷ bs) (omega arith) in
    let p = operator_width-positive multi_character_operators size (b ∷ bs) refl (omega arith) in
    let name : PieceFits (suc (length bs)) (
        lexeme (size + runes_width (λ r. identifier_rune_part u r kotlin) (drop size (b ∷ bs)))
          identifier) =
      appends (omega arith) (omega arith) in
    let digits : PieceFits (suc (length bs))
        (lexeme (size + runes_width (number_rune_part u) (drop size (b ∷ bs))) number) =
      appends (omega arith) (omega arith) in
    let mark : PieceFits (suc (length bs)) (lexeme size delimiter) = appends f.0 f.1 in
    if_Fits _ _ _ _ (λ _. name)
      (if_Fits _ _ _ _ (λ _. digits) (if_Fits _ _ _ _ (λ _. mark) (appends p o)))

pub next_piece-Fits :
    (u : Unicode) (kotlin : Bool) (b : ℕ) (bs : Bytes)
    → PieceFits (suc (length bs)) (next_piece u kotlin b bs)
unfolding next_piece
next_piece-Fits u kotlin b bs =
    let c = comment_width-le kotlin (drop 2 (b ∷ bs)) in
    let d = length-drop 2 (b ∷ bs) in
    let q = quote_width-le b bs in
    let t = backtick_width-le bs in
    let starts = has_prefix-le (b ∷ bs) in
    let space : PieceFits (suc (length bs)) (passed 1) = passes (omega arith) (omega arith) in
    let comment : has_prefix (b ∷ bs) slash_star ≡ true
        → PieceFits (suc (length bs)) (passed (2 + comment_width kotlin (drop 2 (b ∷ bs)))) =
      λ e. let l = starts slash_star e in passes (omega arith) (omega arith) in
    let quoted : PieceFits (suc (length bs)) (lexeme (1 + quote_width b bs) (quote_kind b)) =
      appends (omega arith) (omega arith) in
    let name : PieceFits (suc (length bs)) (lexeme (1 + backtick_width bs) identifier) =
      appends (omega arith) (omega arith) in
    if_Fits _ _ _ _ (λ _. space)
      (if_Fits _ _ _ _ (λ e. line_comment-Fits (b ∷ bs) (starts (codes "//") e))
        (if_Fits _ _ _ _ comment (
          if_Fits _ _ _ _
            (λ e.
              let (l, m) = raw_string_width-Fits (b ∷ bs) (starts (codes "\"\"\"") e) in
              appends l m)
            (if_Fits _ _ _ _ (λ _. quoted)
              (if_Fits _ _ _ _ (λ _. name) (word_piece-Fits u kotlin b bs))))))
