-- ===== src/Tests/Structure.antt =====
-- internal/lexical/scan.go: the structure and the regions of short Kotlin lines.
use kotlsp.Prelude.{
  ℕ, ◌+◌, ◌≤◌, ◌≡◌, refl, true, false, List, [], ◌∷◌, Bytes, codes, pos, arith, map,
}
use kotlsp.Prelude.Int.{◌+ℤ◌, ◌-ℤ◌}
use kotlsp.Lexical.Regions.{
  Region, regions_loop, region_move, quoted_move, triple_move, code_move, brace_move, block_move,
  dollar, is_doc, finish, unfinished, identifier_run, identifier_start, line_run, comment_run,
  depth_round, character_run, scan_regions_bounded,
}
use kotlsp.Lexical.Regions.Scan.{Visits, scan_regions_bounded-Visits}
use kotlsp.Lexical.Structure.{
  State, counted, comment_round, quote_round, code_round, structure_round, structure_loop,
  scan_structure,
}
use kotlsp.Lexical.Structure.Invariant.{IsState, scan_structure-IsState}
use kotlsp.Std.Strings.{index, index_byte}

abbrev fresh : State
fresh = record { block_comment_depth = 0; triple = false; quote = 0; escaped = false }

fresh-IsState : IsState true fresh
fresh-IsState = record {
  comment_alone = λ l. absurd (omega arith);
  triple_alone = λ l. refl;
  escape_quoted = λ l. cc;
  java_flat = λ l. omega arith;
}

abbrev line : Bytes
line = codes "if (x) { s = \"}\" /* {"

comment_left_open : scan_structure fresh line true ≡ (
  record { block_comment_depth = 1; triple = false; quote = 0; escaped = false },
  record { opens = 1; closes = 0; paren_delta = pos 0 },
)
unfolding scan_structure structure_loop structure_round comment_round quote_round code_round counted
    index_byte index ◌+ℤ◌ ◌-ℤ◌
comment_left_open = refl

scan_structure-IsState_example :
    IsState true (scan_structure fresh line true).0
    × ((scan_structure fresh line true).0.quote ≡ 0)
    × ((scan_structure fresh line true).1.opens + (scan_structure fresh line true).1.closes ≤ 21)
scan_structure-IsState_example = scan_structure-IsState fresh line true fresh-IsState

abbrev greeting : Bytes
greeting = codes "f(\"a$b{${c}\") // d"

abbrev ends_of : List Region → List (ℕ × ℕ)
ends_of = map (λ r. (r.start, r.end))

greeting_regions :
    ends_of (scan_regions_bounded greeting true 9).0 ≡ (5, 6) ∷ (8, 11) ∷ (3, 11) ∷ (16, 18) ∷ []
unfolding scan_regions_bounded regions_loop region_move quoted_move triple_move code_move brace_move
    block_move dollar is_doc finish unfinished identifier_run identifier_start line_run comment_run
    depth_round character_run
greeting_regions = refl

scan_regions_bounded-Visits_example : Visits 18 9 (scan_regions_bounded greeting true 9)
scan_regions_bounded-Visits_example = scan_regions_bounded-Visits greeting true 9
