-- ===== src/Examples/Counter.antt =====
-- reference/examples/counter_environment.py and tools.py: a counter that is increased to its goal, its
-- tool and its scorer. The store of artifacts is a parameter over an unknown state `W`.
pub mod Bounds
use uenv_design.Base.{
  ◌+◌, ℕ, suc, zero, String, Bool, true, false, not, ◌||◌, Option, none, some, List, [], ◌∷◌,
}
use uenv_design.Base.{◌==◌, leb, string_eq, if◌then◌else◌}
use uenv_design.Base.Dict
use uenv_design.Base.Dict.{Dict}
use uenv_design.Result.{
  Error, Result, ok, err, value_error, type_error, attribute_error, zero_division_error, ◌>>=◌,
  ◌>>◌,
}
use uenv_design.Value.{Value, ℤ, pos, negsuc}
use uenv_design.Value
use uenv_design.Wire.{ArtifactRef}
use uenv_design.Modeling.{
  Datum, null, int, str, instance_of, Attributes, attribute, end, dict_of, ModelClass, Classes,
  int_type, text_type, optional,
}
use uenv_design.Scoring.{Metric, ScoreInput, ModelInstance, ScoreResult}
use uenv_design.Strings.{integer}
use uenv_design.Datasets.Annotations.{at_least, plain}
use uenv_design.Datasets.Prompts.{ContentPart, text_part, artifact, structured_part}

abbrev pub input_class : ModelClass
input_class = record {
  name = "CounterInput";
  doc = "";
  hints =
      ("goal", at_least 1 "Target counter value")
      ∷ ("note", plain (optional text_type) "Optional task note")
      ∷ [];
  defaults = ("note", null) ∷ [];
  schema_id = some "urn:example:counter:input:v1";
}

abbrev pub state_class : ModelClass
state_class = record {
  name = "CounterState";
  doc = "";
  hints =
      ("value", at_least 0 "Current counter value")
      ∷ ("goal", at_least 1 "Target counter value")
      ∷ [];
  defaults = [];
  schema_id = some "urn:example:counter:state:v1";
}

-- `a >= b` on integers.
abbrev pub geb : ℤ → ℤ → Bool
geb (pos a) (pos b) = leb b a
geb (pos a) (negsuc b) = true
geb (negsuc a) (pos b) = false
geb (negsuc a) (negsuc b) = leb a b

-- `a - b` on natural numbers.
abbrev pub difference : ℕ → ℕ → ℤ
difference a zero = pos a
difference zero (suc b) = negsuc b
difference (suc a) (suc b) = difference a b

-- `a + b` on integers.
abbrev pub plus : ℤ → ℤ → ℤ
plus (pos a) (pos b) = pos (a + b)
plus (pos a) (negsuc b) = difference a (suc b)
plus (negsuc a) (pos b) = difference b (suc a)
plus (negsuc a) (negsuc b) = negsuc (suc (a + b))

-- `CounterEnvironment`: `goal` and `image` are attributes that `reset` sets.
pub record Counter : Type 0 where
  pub goal : Option ℤ
  pub value : ℤ
  pub image : Option ArtifactRef
  pub closed : Bool

-- `CounterEnvironment.__init__`, with the check of `Environment.__init__`.
unfoldable pub new_counter : Value → Result Counter
new_counter (Value.obj config) =
    ok (record { goal = none; value = pos 0; image = none; closed = false })
new_counter v = err (type_error "Environment config must be an object")

-- What the environment shows.
pub record CounterObservation : Type 0 where
  pub content : List ContentPart
  pub terminated : Bool

abbrev pub attribute_value {ℓ} : {A : Type ℓ} → String → Option A → Result A
attribute_value name none = err (attribute_error name)
attribute_value name (some a) = ok a

abbrev pub state_of : ℤ → ℤ → Datum
state_of value goal =
    instance_of "CounterState" (attribute "value" (int value) (attribute "goal" (int goal) end))

-- `state_snapshot`
unfoldable pub counter_snapshot : Counter → Result Datum
counter_snapshot c = do goal ← attribute_value "goal" c.goal; ok (state_of c.value goal)

-- `observe`
unfoldable pub observe : Classes → Counter → Result CounterObservation
observe classes c = do
  goal ← attribute_value "goal" c.goal
  image ← attribute_value "image" c.image
  state ← structured_part classes (state_of c.value goal)
  ok (record {
    content = text_part (str "Increase the counter to its goal.") ∷ artifact image ∷ state ∷ [];
    terminated = geb c.value goal;
  })

-- `task.input.goal`, of a `CounterInput`. It is a number, since the schema has been checked.
abbrev number_of : Option Datum → Result ℤ
number_of (some (int n)) = ok n
number_of _ = err (attribute_error "goal")

unfoldable pub goal_of : Datum → Result ℤ
goal_of (instance_of name fields) =
    if name == "CounterInput"
    then number_of (Dict.lookup "goal" (dict_of fields))
    else err (type_error "CounterEnvironment requires CounterInput")
goal_of v = err (type_error "CounterEnvironment requires CounterInput")

abbrev pub is_one : ℤ → Bool
is_one (pos (suc zero)) = true
is_one amount = false

-- `amount != 1` is looked at first, then the goal.
unfoldable pub refuses : ℤ → ℤ → ℤ → Bool
refuses amount value goal = not (is_one amount) || geb value goal

-- What `increment` does, with the goal if there is one. Without one only the amount 1 gets as far as
-- reading it.
unfoldable pub advance : Classes → ℤ → Counter → Option ℤ → Result CounterObservation × Counter
advance classes amount c none = (
  err (if is_one amount then attribute_error "goal" else value_error "INVALID_COUNTER_INCREMENT"),
  c,
)
advance classes amount c (some goal) =
    if refuses amount c.value goal
    then (err (value_error "INVALID_COUNTER_INCREMENT"), c)
    else let next = record c { value = plus c.value amount } in (observe classes next, next)

-- `increment`
unfoldable pub increment : Classes → ℤ → Counter → Result CounterObservation × Counter
increment classes amount c = advance classes amount c c.goal

-- `CounterEnvironment.close`
unfoldable pub close : Counter → Counter
close c = record c { closed = true; value = negsuc 0 }

module _ {W : Type 0} (put : W → Result ArtifactRef × W) where
  -- What `reset` does once the image is stored, or was refused.
  abbrev with_image : Classes → Counter → Result ArtifactRef → Result CounterObservation × Counter
  with_image classes c (err e) = (err e, c)
  with_image classes c (ok image) =
      let next = record c { image = some image } in (observe classes next, next)

  -- `CounterEnvironment.reset`, on `task.input`
  unfoldable pub reset : Classes → Datum → Counter × W → Result CounterObservation × Counter × W
  reset classes input (c, w) = elim (goal_of input) [
    | err e ↦ (err e, c, w)
    | ok goal ↦
        let (stored, w') = put w in
        let (r, next) = with_image classes (record c { goal = some goal; value = pos 0 }) stored in
        (r, next, w')
  ]

-- A field of the state, which the schema has found to be a number.
abbrev number : String → Attributes → Result ℤ
number name fields = number_of (Dict.lookup name (dict_of fields))

abbrev both_numbers : Attributes → Result (ℤ × ℤ)
both_numbers fields = do
  value ← number "value" fields
  goal ← number "goal" fields
  ok (value, goal)

-- The value and the goal of the state, if it is a `CounterState`.
unfoldable pub counter_state : Option ModelInstance → Result (ℤ × ℤ)
counter_state none = err (type_error "ProgressScorer requires CounterState")
counter_state (some m) =
    if m.model.name == "CounterState"
    then both_numbers m.fields
    else err (type_error "ProgressScorer requires CounterState")

abbrev progress_score : (ℤ → String) → ℤ → ℤ → Option String → Result ScoreResult
progress_score text value goal none = err (zero_division_error "division by zero")
progress_score text value goal (some progress) = ok (record {
  success = some (geb value goal);
  metrics =
      record { name = "progress"; value = progress; unit = "ratio"; direction = "higher" }
      ∷ record { name = "actions"; value = text value; unit = "count"; direction = "lower" }
      ∷ [];
  reward = some progress;
  evidence = [];
})

-- `ProgressScorer.score`. `divide` is Python's `/`, by the text of the quotient, with `none` for
-- `ZeroDivisionError`.
unfoldable pub score_progress : (ℤ → ℤ → Option String) → ScoreInput → Result ScoreResult
score_progress divide request = do
  state ← counter_state request.state
  progress_score integer state.0 state.1 (divide state.0 state.1)
