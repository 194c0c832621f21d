-- ===== src/ScorerHost.antt =====
-- reference/sdk/src/uenv/sdk/scorer_host.py: the process that scores one attempt. A request is one step, since
-- the Worker's `call_with` (reference-control/src/rpc.rs) waits for the answer before it sends another.
pub mod Once
use uenv_design.Base.{
  ℕ, ◌+◌, ◌*◌, String, Bool, true, false, not, ◌||◌, Option, none, some, List, [], ◌∷◌,
}
use uenv_design.Base.{◌==◌, option_eq, string_eq}
use uenv_design.Result.{Error, Result, ok, err, rpc_error, validation_error, raise_if, ◌>>=◌, ◌>>◌}
use uenv_design.Value.{Value}
use uenv_design.Wire.{ComponentRef, component_eq, TypedConfig, ArtifactRef, Part}
use uenv_design.Modeling.{Datum, ModelClass, Classes, Envelope, model_from_envelope}
use uenv_design.Task.{WireTask, TaskSpec, task_from_wire, expected_schema}
use uenv_design.Scoring.{ScoreResult}

-- The models of the package.
pub record ScorerPackage : Type 0 where
  pub component : ComponentRef
  pub input_model : ModelClass
  pub scorer_config_model : Option ModelClass
  pub private_data_model : Option ModelClass
  pub state_model : Option ModelClass

-- The request `scorer.score`.
pub record ScoreParams : Type 0 where
  pub dataset_package : ComponentRef
  pub config : TypedConfig
  pub task : WireTask
  pub final_answer : List Part
  pub trajectory_ref : ArtifactRef
  pub private_data : Option Envelope
  pub state : Option Envelope
  pub remaining_timeout_ms : ℕ

-- What the scorer of the package is made with and called with.
pub record ScoreCall : Type 0 where
  pub config : Value
  pub task : TaskSpec
  pub final_answer : List Part
  pub trajectory_ref : ArtifactRef
  pub private_data : Option Datum
  pub state : Option Datum

pub record ScorerHost : Type 0 where
  pub called : Bool
  pub closed : Bool

abbrev pub new_host : ScorerHost
new_host = record { called = false; closed = false }

-- The registry, the limit and the classes for models, the clock in microseconds, and the scorer of the
-- package, which gets the call and the deadline.
pub record ScorerWorld (W : Type 0) : Type 0 where
  pub models : ScorerPackage
  pub valid_config : TypedConfig → Bool
  pub valid_request : ScoreParams → Bool
  pub depth : ℕ
  pub classes : Classes
  pub monotonic : W → ℕ × W
  pub scorer : ScoreCall → ℕ → W → Result ScoreResult × W

module _ {W : Type 0} (world : ScorerWorld W) where
  -- The loop body over `private_data` and `state`.
  abbrev material : Option ModelClass → Option Envelope → Result (Option Datum)
  material model none = ok none
  material none (some e) = err (rpc_error "SCORER_INPUT_SCHEMA_MISMATCH")
  material (some model) (some e) = do
    v ← model_from_envelope world.depth world.classes model e
    ok (some v)

  -- What `score` does before it sets `called`.
  unfoldable pub accept : ScorerHost → ScoreParams → Result ScoreCall
  accept h params = do
    raise_if (h.called || h.closed || not (params.dataset_package == world.models.component))
        (rpc_error "SCORER_CALL_STATE_INVALID")
    raise_if
        (not (some params.config.schema_ref == expected_schema world.models.scorer_config_model))
        (rpc_error "SCORER_CONFIG_SCHEMA_MISMATCH")
    raise_if (not (world.valid_config params.config)) (validation_error "TypedConfig")
    raise_if (not (world.valid_request params)) (validation_error "ScoreInput")
    task ← task_from_wire world.depth world.classes params.task world.models.input_model
    private_data ← material world.models.private_data_model params.private_data
    state ← material world.models.state_model params.state
    ok (record {
      config = params.config.content;
      task = task;
      final_answer = params.final_answer;
      trajectory_ref = params.trajectory_ref;
      private_data = private_data;
      state = state;
    })

  -- What `score` does from there: it looks at the clock and calls the scorer.
  unfoldable pub call_scorer : ScoreCall → ℕ → W → Result ScoreResult × W
  call_scorer call remaining_timeout_ms w =
      let (t, w') = world.monotonic w in world.scorer call (t + remaining_timeout_ms * 1000) w'

  abbrev pub score_accepted :
      Result ScoreCall → ℕ → ScorerHost × W → Result ScoreResult × ScorerHost × W
  score_accepted (err e) remaining (h, w) = (err e, h, w)
  score_accepted (ok call) remaining (h, w) =
      let (r, w') = call_scorer call remaining w in (r, record h { called = true }, w')

  -- `score`
  unfoldable pub score : ScoreParams → ScorerHost × W → Result ScoreResult × ScorerHost × W
  score params (h, w) = score_accepted (accept h params) params.remaining_timeout_ms (h, w)

-- `close`
unfoldable pub close : ScorerHost → ScorerHost
close h = record h { closed = true }
