-- ===== src/Lexical/Split/Lossless.antt =====
-- internal/lexical/scan.go: `splitTopLevel` takes a text apart at separators, and loses none of it.
use kotlsp.Prelude.{
  ℕ, suc, ◌+◌, ◌-◌, ◌≤◌, ◌≡◌, refl, sym, ap, ◌∙◌, Bool, ◌&&◌, ◌||◌, List, [], ◌∷◌, ◌++◌, some,
  Bytes, same, same→eq, pos, drop, take-append-drop, drop-drop, arith, Bool-cases, inl, inr,
}
use kotlsp.Lexical.{Unicode, Token}
use kotlsp.Lexical.Nesting.{Depths, no_depths, at_top, nested, generic_angle_opens}
use kotlsp.Lexical.Ordered.{Ordered, tokenize_bounded-Ordered}
use kotlsp.Lexical.Split.{keep, split_loop, split_top_level_of}
use kotlsp.Lexical.Tokenize.{tokenize_bounded}
use kotlsp.Std.Strings.{join}
use kotlsp.Text.Position.{slice}

-- What is left of values, without those that are white space.
abbrev pub kept : List Bytes → List Bytes
kept [] = []
kept (v ∷ vs) = keep v (kept vs)

-- Values that a text from an offset on joins at the separators.
pub record Parts (text separator : Bytes) (start : ℕ) (values : List Bytes) : Type 0 where
  pub first : Bytes
  pub later : List Bytes
  pub joined : join (first ∷ later) separator ≡ drop start text
  pub trimmed : values ≡ kept (first ∷ later)

slice_apart : (text : Bytes) (a b : ℕ) → a ≤ b → slice text a b ++ drop b text ≡ drop a text
slice_apart text a b l =
    let e : a + (b - a) ≡ b = omega arith in
    ap (λ k. slice text a b ++ drop k text) (sym e)
    ∙ ap (λ s. slice text a b ++ s) (sym (drop-drop a (b - a) text))
    ∙ take-append-drop (b - a) (drop a text)

split_loop-Parts :
    (u : Unicode) (tokens : List Token) (text separator : Bytes) (type_grammar : Bool)
    (start at : ℕ) (d : Depths) (i : ℕ) (ts : List Token)
    → start ≤ at
    → Ordered text at ts
    → Parts text separator start (split_loop u tokens text separator type_grammar start d i ts)
unfolding split_loop join
split_loop-Parts u tokens text separator type_grammar start at d i [] l o = record {
  first = drop start text;
  later = [];
  joined = refl;
  trimmed = refl;
}
split_loop-Parts u tokens text separator type_grammar start at d i (t ∷ ts) l (a, n, e, o) =
    elim (Bool-cases (at_top d && same t.text separator)) [
      | inr q ↦
          rw (split_loop, q)
            (split_loop-Parts u tokens text separator type_grammar start t.end
              (nested d t.text (type_grammar || generic_angle_opens u tokens i)) (suc i) ts
              (omega arith) o)
      | inl q ↦
          let p =
            split_loop-Parts u tokens text separator type_grammar t.end t.end d (suc i) ts
              (omega arith) o in
          let s : separator ≡ slice text t.start t.end =
            sym (same→eq t.text separator (ground arith)) ∙ e in
          rw (split_loop, q)
            (record {
              first = slice text start t.start;
              later = p.first ∷ p.later;
              joined =
                  ap (λ x. slice text start t.start ++ (separator ++ x)) p.joined
                  ∙ ap (λ x. slice text start t.start ++ (x ++ drop t.end text)) s
                  ∙ ap (λ x. slice text start t.start ++ x)
                      (slice_apart text t.start t.end (omega arith))
                  ∙ slice_apart text start t.start (omega arith);
              trimmed = ap (keep (slice text start t.start)) p.trimmed;
            })
    ]

-- For a text whose tokens are within the limit, splitTopLevel returns values that, before they are
-- trimmed and the empty ones left out, make up the text with a separator between each two.
pub split_top_level_of-Parts :
    (u : Unicode) (text separator : Bytes) (kotlin type_grammar : Bool) (tokens : List Token)
    → tokenize_bounded u text kotlin (pos 100_000) ≡ some tokens
    → Parts text separator 0 (split_top_level_of u text separator kotlin type_grammar)
unfolding split_top_level_of
split_top_level_of-Parts u text separator kotlin type_grammar tokens e =
    rw (split_top_level_of, e)
      (split_loop-Parts u tokens text separator type_grammar 0 0 no_depths 0 tokens (omega arith)
        (tokenize_bounded-Ordered u text kotlin (pos 100_000) tokens e).0)
