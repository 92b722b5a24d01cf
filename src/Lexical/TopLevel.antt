-- ===== src/Lexical/TopLevel.antt =====
-- internal/lexical/scan.go: what `TopLevelTokenIndex` returns is an occurrence of its token.
use kotlsp.Prelude.{
  ℕ, suc, ◌+◌, ◌-◌, ◌≤◌, ◌≡◌, sym, ap, subst, ◌∙◌, Bool, true, ◌&&◌, List, [], ◌∷◌, none, some,
  Bytes, same, same→eq, pos, length, length-take, length-drop, drop, arith, Bool-cases,
  Option-cases, inl, inr,
}
use mathlib.Core.Option.{some-injective}
use kotlsp.Lexical.{Unicode, Token}
use kotlsp.Lexical.Nesting.{
  Depths, no_depths, at_top, nested, generic_angle_opens, top_level_loop, top_level_token_index,
}
use kotlsp.Lexical.Ordered.{Ordered, tokenize_bounded-Ordered}
use kotlsp.Lexical.Tokenize.{tokenize_bounded}
use kotlsp.Text.Position.{slice}

Ordered-le : (text : Bytes) (at : ℕ) (ts : List Token) → Ordered text at ts → at ≤ length text
Ordered-le text at [] o = o
Ordered-le text at (t ∷ ts) (a, n, e, o) = let h = Ordered-le text t.end ts o in omega arith

-- The text holds a string at an offset.
pub record Holds (text part : Bytes) (at : ℕ) : Type 0 where
  pub fits : at + length part ≤ length text
  pub part_is : slice text at (at + length part) ≡ part

token-Holds :
    (text : Bytes) (from : ℕ) (t : Token) (ts : List Token)
    → Ordered text from (t ∷ ts)
    → Holds text t.text t.start
token-Holds text from t ts (a, n, e, o) =
    let h = Ordered-le text t.end ts o in
    let size = ap length e in
    let cut = length-take (t.end - t.start) (drop t.start text) in
    let left = length-drop t.start text in
    let q : t.start + length t.text ≡ t.end = omega arith in
    record { fits = omega arith; part_is = ap (slice text t.start) q ∙ sym e }

top_level_loop-Holds :
    (u : Unicode) (text : Bytes) (tokens : List Token) (wanted : Bytes) (d : Depths) (i from : ℕ)
    (ts : List Token) (at : ℕ)
    → Ordered text from ts
    → top_level_loop u tokens wanted d i ts ≡ some at
    → Holds text wanted at
unfolding top_level_loop
top_level_loop-Holds u text tokens wanted d i from [] at o e = cc
top_level_loop-Holds u text tokens wanted d i from (t ∷ ts) at o e =
    elim (Bool-cases (at_top d && same t.text wanted)) [
      | inl q ↦
          let r : same t.text wanted ≡ true = ground arith in
          subst (Holds text wanted) (some-injective _ _ (rw (q, top_level_loop) at e)) (
            subst (λ w. Holds text w t.start) (same→eq t.text wanted r)
              (token-Holds text from t ts o))
      | inr q ↦
          top_level_loop-Holds u text tokens wanted
            (nested d t.text (generic_angle_opens u tokens i)) (suc i) t.end ts at o.3
            (rw (q, top_level_loop) at e)
    ]

-- An offset that `TopLevelTokenIndex` returns is one at which the text holds the wanted token.
top_level_token_index-Holds :
    (u : Unicode) (text wanted : Bytes) (kotlin : Bool) (at : ℕ)
    → top_level_token_index u text wanted kotlin ≡ some at
    → Holds text wanted at
unfolding top_level_token_index
top_level_token_index-Holds u text wanted kotlin at e =
    elim (Option-cases (tokenize_bounded u text kotlin (pos 100_000))) [
      | inl q ↦ let f : none ≡ some at = rw (q, top_level_token_index) at e in cc
      | inr (ts, q) ↦
          top_level_loop-Holds u text ts wanted no_depths 0 0 ts at
            (tokenize_bounded-Ordered u text kotlin (pos 100_000) ts q).0
            (rw (q, top_level_token_index) at e)
    ]
