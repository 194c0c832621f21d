-- ===== src/Tests/ExampleRuns.antt =====
-- An episode of the counter.
use uenv_design.Base.{ℕ, suc, ◌≡◌, refl, false, none, [], ◌∷◌, List, string_eq, nat_eq, option_eq}
use uenv_design.Result.{Result, ok}
use uenv_design.Value.{pos, negsuc}
use uenv_design.Wire.{ArtifactRef}
use uenv_design.Modeling.{Datum, int, null, instance_of, attribute, end, Classes}
use uenv_design.Examples.Counter.{Counter, state_class, goal_of, increment, advance, refuses, reset}
use uenv_design.Examples.Counter.Bounds.{Act, increase, restart, acts, InBounds, acts-InBounds}

abbrev put : ℕ → Result ArtifactRef × ℕ
put w =
    (ok (record { uri = "a"; digest = "d"; size_bytes = 1; media_type = "image/svg+xml" }), suc w)

abbrev classes : Classes
classes = ("CounterState", state_class) ∷ []

abbrev start : Counter
start = record { goal = none; value = pos 0; image = none; closed = false }

abbrev goal_2 : Datum
goal_2 = instance_of "CounterInput" (attribute "goal" (int (pos 2)) (attribute "note" null end))

abbrev episode : List Act
episode =
    restart goal_2
    ∷ increase (pos 1)
    ∷ increase (negsuc 0)
    ∷ increase (pos 1)
    ∷ increase (pos 1)
    ∷ []

two : (acts put classes episode (start, 0)).0.value ≡ pos 2
unfolding acts reset increment advance refuses goal_of string_eq nat_eq
two = refl

acts-InBounds_example : InBounds (acts put classes episode (start, 0)).0
unfolding goal_of string_eq
acts-InBounds_example =
    acts-InBounds put classes episode start 0 ((2, refl), (tt, (tt, (tt, (tt, tt))))) tt
