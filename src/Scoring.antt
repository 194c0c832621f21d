-- ===== src/Scoring.antt =====
-- reference/sdk/src/uenv/sdk/__init__.py: what a scorer works with. A scorer runs in a process of its own.
-- Its state is a parameter `W`, and every look at the clock may move it on.
pub mod Lines
pub mod Trajectory
pub mod Harness
use uenv_design.Base.{
  ℕ, String, Bool, true, false, not, ◌-◌, ◌/◌, Option, none, some, List, [], ◌∷◌,
}
use uenv_design.Base.{leb, any, ◌<>◌, if◌then◌else◌}
use uenv_design.Base.Dict
use uenv_design.Base.Dict.{Dict}
use uenv_design.Result.{
  Error, Result, ok, err, value_error, type_error, runtime_error, timeout_error,
}
use uenv_design.Exec.{Exec, pure, raise, lift, raise_if, ◌>>=◌, ◌>>◌}
use uenv_design.Result
use uenv_design.Value.{Value, bool}
use uenv_design.Wire.{ArtifactRef, Part, text}
use uenv_design.Modeling.{Datum, Attributes, attribute, end, ModelClass, dump_attributes}

-- A float is kept by the text of its `repr`.
pub record Metric : Type 0 where
  pub name : String
  pub value : String
  pub unit : String
  pub direction : String

-- `ScoreResult`, the fields that a scorer may fill. `evidence` has references to artifacts.
pub record ScoreResult : Type 0 where
  pub success : Option Bool
  pub metrics : List Metric
  pub reward : Option String
  pub evidence : List ArtifactRef

-- `float(passed)`
abbrev pub float_of : Bool → String
float_of true = "1.0"
float_of false = "0.0"

abbrev pub ratio : String → Bool → Metric
ratio name passed = record {
  name = name;
  value = float_of passed;
  unit = "ratio";
  direction = "higher";
}

-- `ScoreResult.binary`
unfoldable pub binary_score : Value → Result ScoreResult
binary_score (bool passed) = ok (record {
  success = some passed;
  metrics = ratio "accuracy" passed ∷ [];
  reward = some (float_of passed);
  evidence = [];
})
binary_score v = err (type_error "Binary score requires an actual bool")

-- A package-owned model: its class and its attributes.
pub record ModelInstance : Type 0 where
  pub model : ModelClass
  pub fields : Attributes

-- `ScoreInput`, with the `task_id` of its `TaskSpec`.
pub record ScoreInput : Type 0 where
  pub task_id : String
  pub final_answer : List Part
  pub trajectory_ref : ArtifactRef
  pub state : Option ModelInstance
  pub private_data : Option ModelInstance

-- `EnvironmentContext` and `ScoringContext`: the part that they share. Times are microseconds.
pub record Clock (W : Type 0) : Type 0 where
  pub deadline : ℕ
  pub cancelled : W → Bool × W
  pub monotonic : W → ℕ × W

module _ {W : Type 0} (k : Clock W) where
  abbrev read_cancelled : Exec W Bool
  read_cancelled w = let (b, w') = k.cancelled w in (ok b, w')

  abbrev now : Exec W ℕ
  now w = let (n, w') = k.monotonic w in (ok n, w')

  -- `check`, with the code of the context: `EPISODE_TIMEOUT` or `SCORER_TIMEOUT`.
  unfoldable pub check : String → Exec W Unit
  check code = do
    stopped ← read_cancelled
    raise_if stopped (runtime_error "EPISODE_CANCELLED")
    t ← now
    raise_if (leb k.deadline t) (timeout_error code)

  -- `ScoringContext.remaining_timeout_ms`. What is left may be gone at the second look: `max` lifts it.
  unfoldable pub remaining_timeout_ms : Exec W ℕ
  remaining_timeout_ms = do
    check "SCORER_TIMEOUT"
    t ← now
    let left = (k.deadline - t) / 1000
    pure (if leb 1 left then left else 1)

abbrev is_text : Part → Bool
is_text (text s) = true
is_text p = false

-- `''.join(part['text'] for part in parts)`, for parts that are text.
abbrev pub joined : List Part → String
joined [] = ""
joined (text s ∷ parts) = s <> joined parts
joined (p ∷ parts) = joined parts

-- `read_reference_text`
unfoldable pub read_reference_text : ScoreInput → Result (String × Attributes)
read_reference_text request = elim request.private_data [
  | none ↦ err (value_error "This scoring rule requires reference material")
  | some private ↦
      if any (λ p. not (is_text p)) request.final_answer
      then err (value_error "Text-only scorer cannot discard non-text answer parts")
      else ok (joined request.final_answer, dump_attributes private.fields)
]
