-- ===== src/Lexical/Split.antt =====
-- internal/lexical/scan.go: `splitTopLevel`.
pub mod Lossless
use kotlsp.Prelude.{
  ℕ, zero, suc, ◌-◌, Bool, true, false, ◌&&◌, ◌||◌, List, [], ◌∷◌, ◌++◌, Option, none, some, Bytes,
  same, pos, if◌then◌else◌, drop,
}
use kotlsp.Lexical.{Unicode, Token}
use kotlsp.Lexical.Nesting.{Depths, no_depths, at_top, nested, generic_angle_opens}
use kotlsp.Lexical.Tokenize.{tokenize_bounded}
use kotlsp.Std.Space.{trim_space}
use kotlsp.Text.Position.{slice}

-- A value is kept if anything of it is left.
unfoldable pub keep : Bytes → List Bytes → List Bytes
keep value values = if same (trim_space value) [] then values else trim_space value ∷ values

-- The loop from a token on, with the start of the value that goes on there.
unfoldable pub split_loop :
    Unicode → List Token → Bytes → Bytes → Bool → ℕ → Depths → ℕ → List Token → List Bytes
split_loop u tokens text separator type_grammar start d i [] = keep (drop start text) []
split_loop u tokens text separator type_grammar start d i (t ∷ ts) =
    elim (at_top d && same t.text separator) [
      | true ↦
          keep (slice text start t.start)
            (split_loop u tokens text separator type_grammar t.end d (suc i) ts)
      | false ↦
          split_loop u tokens text separator type_grammar start
            (nested d t.text (type_grammar || generic_angle_opens u tokens i)) (suc i) ts
    ]

-- `splitTopLevel`; a nil slice is empty.
unfoldable pub split_top_level_of : Unicode → Bytes → Bytes → Bool → Bool → List Bytes
split_top_level_of u text separator kotlin type_grammar =
    elim (tokenize_bounded u text kotlin (pos 100_000)) [
      | none ↦ []
      | some tokens ↦ split_loop u tokens text separator type_grammar 0 no_depths 0 tokens
    ]

-- `SplitTopLevel` and `SplitTopLevelTypes`
unfoldable pub split_top_level : Unicode → Bytes → Bytes → Bool → List Bytes
split_top_level u text separator kotlin = split_top_level_of u text separator kotlin false

unfoldable pub split_top_level_types : Unicode → Bytes → Bytes → Bool → List Bytes
split_top_level_types u text separator kotlin = split_top_level_of u text separator kotlin true
