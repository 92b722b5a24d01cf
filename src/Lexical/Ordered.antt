-- ===== src/Lexical/Ordered.antt =====
-- internal/lexical/scan.go: the tokens of `TokenizeBounded` are slices of the text, in order.
use kotlsp.Prelude.{
  ℕ, zero, suc, ◌+◌, ◌-◌, ◌≤◌, ◌<◌, ◌≡◌, refl, sym, ap, subst, ◌∙◌, Bool, false, List, [], ◌∷◌,
  ◌++◌, append_assoc, append-nil, Option, none, some, Bytes, ℤ, pos, leb, leb→le, if◌then◌else◌,
  length, drop, take, length-drop, length-append, drop-drop, arith, Bool-cases, inl, inr,
}
use mathlib.Core.Option.{some-injective}
use kotlsp.Prelude.Int.{leb_ℤ, pos_part}
use kotlsp.Lexical.{Unicode, Token, TokenKind}
use kotlsp.Lexical.Tokenize.{
  Piece, passed, break, lexeme, next_piece, tokenize_loop, tokenize_bounded,
}
use kotlsp.Lexical.Widths.{PieceFits, passes, breaks, appends, next_piece-Fits}
use kotlsp.Text.Position.{slice}

abbrev pub token : ℕ → ℕ → TokenKind → Bytes → Token
token at n kind rest = record { start = at; end = at + n; kind = kind; text = take n rest }

-- The tokens of a text without a limit on their number.
unfoldable pub lexemes : Unicode → ℕ → Bool → ℕ → Bytes → List Token
lexemes u zero kotlin at rest = []
lexemes u (suc fuel) kotlin at [] = []
lexemes u (suc fuel) kotlin at (b ∷ bs) = elim (next_piece u kotlin b bs) [
  | passed n ↦ lexemes u fuel kotlin (at + n) (drop n (b ∷ bs))
  | break ↦ []
  | lexeme n kind ↦ token at n kind (b ∷ bs) ∷ lexemes u fuel kotlin (at + n) (drop n (b ∷ bs))
]

-- A piece, with the equation and what it consumes.
data Round (u : Unicode) (kotlin : Bool) (b : ℕ) (bs : Bytes) : Type 0 where
  pass :
      (n : ℕ)
      → next_piece u kotlin b bs ≡ passed n
      → 1 ≤ n
      → n ≤ suc (length bs)
      → Round u kotlin b bs
  halt : next_piece u kotlin b bs ≡ break → Round u kotlin b bs
  emit :
      (n : ℕ) (kind : TokenKind)
      → next_piece u kotlin b bs ≡ lexeme n kind
      → 1 ≤ n
      → n ≤ suc (length bs)
      → Round u kotlin b bs

next_piece-Round : (u : Unicode) (kotlin : Bool) (b : ℕ) (bs : Bytes) → Round u kotlin b bs
next_piece-Round u kotlin b bs =
    split (next_piece u kotlin b bs) refl (next_piece-Fits u kotlin b bs)
  where
    split :
        (p : Piece)
        → next_piece u kotlin b bs ≡ p
        → PieceFits (suc (length bs)) p
        → Round u kotlin b bs
    split (passed n) e (passes l m) = pass n e l m
    split break e breaks = halt e
    split (lexeme n kind) e (appends l m) = emit n kind e l m

lexemes_enough :
    (u : Unicode) (fuel more : ℕ) (kotlin : Bool) (at : ℕ) (rest : Bytes)
    → length rest ≤ fuel
    → length rest ≤ more
    → lexemes u fuel kotlin at rest ≡ lexemes u more kotlin at rest
unfolding lexemes
lexemes_enough u zero zero kotlin at [] h k = refl
lexemes_enough u zero (suc more) kotlin at [] h k = refl
lexemes_enough u (suc fuel) zero kotlin at [] h k = refl
lexemes_enough u (suc fuel) (suc more) kotlin at [] h k = refl
lexemes_enough u zero more kotlin at (b ∷ bs) h k = absurd (omega arith)
lexemes_enough u (suc fuel) zero kotlin at (b ∷ bs) h k = absurd (omega arith)
lexemes_enough u (suc fuel) (suc more) kotlin at (b ∷ bs) h k =
    elim (next_piece-Round u kotlin b bs) [
      | pass n e l m ↦
          let d = length-drop n (b ∷ bs) in
          rw (e, lexemes)
            (lexemes_enough u fuel more kotlin (at + n) (drop n (b ∷ bs)) (omega arith)
              (omega arith))
      | halt e ↦ rw (e, lexemes) refl
      | emit n kind e l m ↦
          let d = length-drop n (b ∷ bs) in
          rw (e, lexemes)
            (ap (◌∷◌ (token at n kind (b ∷ bs))) (
              lexemes_enough u fuel more kotlin (at + n) (drop n (b ∷ bs)) (omega arith)
                (omega arith)))
    ]

-- The tokens stand one behind the other, each is not empty, and its text is its slice.
abbrev pub Ordered : Bytes → ℕ → List Token → Type 0
Ordered text at [] = at ≤ length text
Ordered text at (t ∷ ts) =
    (at ≤ t.start) × (t.start < t.end) × (t.text ≡ slice text t.start t.end) × Ordered text t.end ts

Ordered-mono :
    (text : Bytes) (at from : ℕ) (ts : List Token)
    → at ≤ from
    → Ordered text from ts
    → Ordered text at ts
Ordered-mono text at from [] l o = omega arith
Ordered-mono text at from (t ∷ ts) l (a, n, e, o) = (omega arith, n, e, o)

lexemes-Ordered :
    (u : Unicode) (text : Bytes) (fuel : ℕ) (kotlin : Bool) (at : ℕ) (rest : Bytes)
    → rest ≡ drop at text
    → at ≤ length text
    → Ordered text at (lexemes u fuel kotlin at rest)
unfolding lexemes
lexemes-Ordered u text zero kotlin at rest e h = h
lexemes-Ordered u text (suc fuel) kotlin at [] e h = h
lexemes-Ordered u text (suc fuel) kotlin at (b ∷ bs) e h =
    let size = ap length e in
    let d = length-drop at text in
    let later = λ (n : ℕ). ap (drop n) e ∙ drop-drop at n text in
    elim (next_piece-Round u kotlin b bs) [
      | pass n p l m ↦
          let ih =
            lexemes-Ordered u text fuel kotlin (at + n) (drop n (b ∷ bs)) (later n) (omega arith) in
          rw (p, lexemes) (Ordered-mono text at (at + n) _ (omega arith) ih)
      | halt p ↦ rw (p, lexemes) h
      | emit n kind p l m ↦
          let ih =
            lexemes-Ordered u text fuel kotlin (at + n) (drop n (b ∷ bs)) (later n) (omega arith) in
          let q : n ≡ at + n - at = omega arith in
          rw (p, lexemes)
            (omega arith, omega arith, ap (take n) e ∙ ap (λ k. take k (drop at text)) q, ih)
    ]

abbrev pub limited : ℕ → List Token → Option (List Token)
limited limit ts = if leb (length ts) limit then some ts else none

limited_within : (limit : ℕ) (ts : List Token) → length ts ≤ limit → limited limit ts ≡ some ts
limited_within limit ts h = ground arith

limited_over : (limit : ℕ) (ts : List Token) → limit < length ts → limited limit ts ≡ none
limited_over limit ts h = ground arith

limited-eq-some :
    (limit : ℕ) (xs ts : List Token) → limited limit xs ≡ some ts → (xs ≡ ts) × (length xs ≤ limit)
limited-eq-some limit xs ts e = elim (Bool-cases (leb (length xs) limit)) [
  | inl q ↦ (some-injective _ _ (rw (q) at e), leb→le (length xs) limit q)
  | inr q ↦ let f : none ≡ some ts = rw (q) at e in cc
]

-- The loop with its limit, behind the tokens found so far.
tokenize_loop-lexemes :
    (u : Unicode) (fuel : ℕ) (kotlin : Bool) (limit at : ℕ) (rest : Bytes) (tokens : List Token)
    → length tokens ≤ limit
    → tokenize_loop u fuel kotlin limit at rest tokens
      ≡ limited limit (tokens ++ lexemes u fuel kotlin at rest)
unfolding tokenize_loop lexemes
tokenize_loop-lexemes u zero kotlin limit at rest tokens h =
    rw (append-nil tokens) (sym (limited_within limit tokens h))
tokenize_loop-lexemes u (suc fuel) kotlin limit at [] tokens h =
    rw (append-nil tokens) (sym (limited_within limit tokens h))
tokenize_loop-lexemes u (suc fuel) kotlin limit at (b ∷ bs) tokens h =
    elim (next_piece-Round u kotlin b bs) [
      | pass n e l m ↦
          rw (e, tokenize_loop, lexemes)
            (tokenize_loop-lexemes u fuel kotlin limit (at + n) (drop n (b ∷ bs)) tokens h)
      | halt e ↦
          rw (e, tokenize_loop, lexemes, append-nil tokens) (sym (limited_within limit tokens h))
      | emit n kind e l m ↦
          let t = token at n kind (b ∷ bs) in
          let later = lexemes u fuel kotlin (at + n) (drop n (b ∷ bs)) in
          let more = length-append tokens (t ∷ later) in
          let one = length-append tokens (t ∷ []) in
          elim (Bool-cases (leb limit (length tokens))) [
            | inl q ↦
                rw (e, q, tokenize_loop, lexemes)
                  (let full = leb→le limit (length tokens) q in
                    sym (limited_over limit (tokens ++ (t ∷ later)) (omega arith)))
            | inr q ↦
                let room : length (tokens ++ (t ∷ [])) ≤ limit = ground arith in
                rw (e, q, tokenize_loop, lexemes)
                  (tokenize_loop-lexemes u fuel kotlin limit (at + n) (drop n (b ∷ bs))
                      (tokens ++ (t ∷ [])) room
                    ∙ ap (limited limit) (append_assoc tokens (t ∷ []) later))
          ]
    ]

-- A round for each remaining byte is enough: with more fuel the loop returns the same.
tokenize_loop_enough :
    (u : Unicode) (fuel more : ℕ) (kotlin : Bool) (limit at : ℕ) (rest : Bytes)
    (tokens : List Token)
    → length rest ≤ fuel
    → length rest ≤ more
    → length tokens ≤ limit
    → tokenize_loop u fuel kotlin limit at rest tokens
      ≡ tokenize_loop u more kotlin limit at rest tokens
tokenize_loop_enough u fuel more kotlin limit at rest tokens h k room =
    tokenize_loop-lexemes u fuel kotlin limit at rest tokens room
    ∙ ap (λ later. limited limit (tokens ++ later)) (lexemes_enough u fuel more kotlin at rest h k)
    ∙ sym (tokenize_loop-lexemes u more kotlin limit at rest tokens room)

-- With a positive limit, the tokens are those without a limit, all of them or, where they are
-- too many, none.
pub tokenize_bounded-lexemes :
    (u : Unicode) (text : Bytes) (kotlin : Bool) (limit : ℕ)
    → 0 < limit
    → tokenize_bounded u text kotlin (pos limit)
      ≡ limited limit (lexemes u (length text) kotlin 0 text)
unfolding tokenize_bounded
tokenize_bounded-lexemes u text kotlin limit h =
    let q : leb_ℤ (pos limit) (pos 0) ≡ false = ground arith in
    rw (q, tokenize_bounded)
      (tokenize_loop-lexemes u (length text) kotlin limit 0 text [] (omega arith))

-- The tokens of a text are not empty, stand in order and apart within it, each holds its own
-- slice, and there are no more of them than the limit.
pub tokenize_bounded-Ordered :
    (u : Unicode) (text : Bytes) (kotlin : Bool) (limit : ℤ) (ts : List Token)
    → tokenize_bounded u text kotlin limit ≡ some ts
    → Ordered text 0 ts × (length ts ≤ pos_part limit)
unfolding tokenize_bounded
tokenize_bounded-Ordered u text kotlin limit ts e = elim (Bool-cases (leb_ℤ limit (pos 0))) [
  | inl q ↦ let f : none ≡ some ts = sym (rw (q, tokenize_bounded) refl) ∙ e in cc
  | inr q ↦
      let f : tokenize_loop u (length text) kotlin (pos_part limit) 0 text [] ≡ some ts =
        sym (rw (q, tokenize_bounded) refl) ∙ e in
      let found = lexemes u (length text) kotlin 0 text in
      let (same_list, room) = limited-eq-some (pos_part limit) found ts (
        sym (tokenize_loop-lexemes u (length text) kotlin (pos_part limit) 0 text [] (omega arith))
        ∙ f) in
      (
        subst (Ordered text 0) same_list
            (lexemes-Ordered u text (length text) kotlin 0 text refl (omega arith)),
        subst (λ xs. length xs ≤ pos_part limit) same_list room,
      )
]
