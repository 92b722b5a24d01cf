-- ===== src/Tests/Budget.antt =====
-- internal/resourcebudget/memory.go on two hosts, a build that waits, and a release.
use kotlsp.Prelude.{◌≡◌, refl, List, [], ◌∷◌, Bytes, codes, pos}
use kotlsp.Budget.{reserve, charge, admit}
use kotlsp.Budget.Invariant.{IsSound, initial-IsSound, run-IsSound}
use kotlsp.Budget.Run.{Event, call, initial, acquire, attempt, step, run}
use kotlsp.Budget.Waiting.{NoneFits, run-NoneFits}

abbrev host : Bytes
host = codes "kotlin-host"

abbrev one_shot : Bytes
one_shot = codes "kotlinc"

abbrev build : Bytes
build = codes "gradle"

-- The build does not fit beside both compilers, and waits until the second is released.
abbrev contended : List Event
contended =
    call host (pos 805_306_368)
    ∷ call one_shot (pos 805_306_368)
    ∷ call build (pos 536_870_912)
    ∷ []

blocked :
    (run initial contended).waiting
    ≡ record { component = build; bytes = 536_870_912; seen = 0 } ∷ []
unfolding run step acquire attempt admit reserve charge
blocked = refl

run-IsSound_example : IsSound (run initial contended)
run-IsSound_example = run-IsSound initial contended initial-IsSound

run-NoneFits_example : NoneFits (run initial contended)
run-NoneFits_example = run-NoneFits initial contended tt
