-- ===== src/Scoring/Harness.antt =====
-- `evaluate_harness`: a test harness of the Worker, and what its report becomes.
pub mod Reports
use uenv_design.Base.{ℕ, String, Bool, true, false, not, ◌||◌, Option, none, some, List, [], ◌∷◌}
use uenv_design.Base.{◌==◌, leb, ltb, string_eq, option_eq, if◌then◌else◌}
use uenv_design.Base.Dict
use uenv_design.Result.{Error, Result, ok, err, value_error, runtime_error, type_error, required}
use uenv_design.Result.{timeout_error, validation_error}
use uenv_design.Result
use uenv_design.Exec.{Exec, pure, raise, lift, raise_if, ◌>>=◌, ◌>>◌}
use uenv_design.Value.{ℤ, pos, negsuc}
use uenv_design.Wire.{ArtifactRef, Part}
use uenv_design.Modeling.{Datum, obj, int, dict_of, Envelope, model_to_envelope}
use uenv_design.Scoring.{Clock, check, remaining_timeout_ms, ScoreInput, ScoreResult, Metric, ratio}
use uenv_design.Scoring.{float_of, ModelInstance}

-- `HarnessRequest`
pub record HarnessRequest : Type 0 where
  pub final_answer : List Part
  pub private_data : Envelope
  pub remaining_timeout_ms : ℕ
  pub state : Option Envelope

-- `HarnessResult`. `success` is `none` where it is missing or no bool.
pub record HarnessResult : Type 0 where
  pub tests_run : ℕ
  pub tests_passed : ℕ
  pub status : Option String
  pub success : Option Bool
  pub metrics : Option (List Metric)
  pub report_ref : ArtifactRef

-- `registry.validate` on what goes to the harness and what comes from it.
pub record Contract : Type 0 where
  pub valid_plan : Datum → Bool
  pub valid_request : HarnessRequest → Bool
  pub valid_result : HarnessResult → Bool

abbrev pub envelope_of : ModelInstance → Result Envelope
envelope_of m = model_to_envelope m.model m.fields

abbrev pub optional_envelope : Option ModelInstance → Result (Option Envelope)
optional_envelope none = ok none
optional_envelope (some m) = Result.◌>>=◌ (envelope_of m) (λ e. ok (some e))

-- `evaluation_plan['timeout_ms']`, which the schema of plans wants to be an integer. A negative one is no more
-- than 0, which `evaluate_harness` refuses alike. A float, such as 5.0, is not modelled: it is refused
-- here, where Python would go on with it if the contract takes it for an integer.
abbrev timeout_of : Option Datum → Result ℕ
timeout_of (some (int (pos n))) = ok n
timeout_of (some (int (negsuc n))) = ok 0
timeout_of (some v) = err (type_error "timeout_ms")
timeout_of none = err (Error.key_error "timeout_ms")

unfoldable pub timeout_ms : Datum → Result ℕ
timeout_ms (obj fields) = timeout_of (Dict.lookup "timeout_ms" (dict_of fields))
timeout_ms v = err (type_error "evaluation_plan")

abbrev pub smaller : ℕ → ℕ → ℕ
smaller a b = if leb a b then a else b

-- `request.private_data`, if it has a plan, and the plan.
unfoldable pub plan_of : Option ModelInstance → Result (ModelInstance × Datum)
plan_of none = err (value_error "Missing evaluation_plan")
plan_of (some private) = elim (Dict.lookup "evaluation_plan" (dict_of private.fields)) [
  | none ↦ err (value_error "Missing evaluation_plan")
  | some plan ↦ ok (private, plan)
]

abbrev metrics_or : Option (List Metric) → List Metric → List Metric
metrics_or none ms = ms
metrics_or (some given) ms = given

abbrev pub explicit_score : HarnessResult → Option Bool → Result ScoreResult
explicit_score report none = err (value_error "Harness must complete and provide explicit success")
explicit_score report (some success) = ok (record {
  success = some success;
  metrics = metrics_or report.metrics (ratio "resolved" success ∷ []);
  reward = some (float_of success);
  evidence = report.report_ref ∷ [];
})

-- What the report becomes.
unfoldable pub score_of : HarnessResult → Result ScoreResult
score_of report =
    if ltb report.tests_run report.tests_passed
    then err (value_error "Passed tests exceed executed tests")
    else if not (report.status == some "ok")
    then err (value_error "Harness must complete and provide explicit success")
    else explicit_score report report.success

abbrev pub command_of : ScoreInput → ℕ → Envelope → Option Envelope → HarnessRequest
command_of request limit private state = record {
  final_answer = request.final_answer;
  private_data = private;
  remaining_timeout_ms = limit;
  state = state;
}

module _ {W : Type 0} (c : Contract) (k : Clock W) where
  -- `evaluate_harness` with a harness.
  unfoldable pub evaluate_bound :
      (HarnessRequest → Exec W HarnessResult) → ScoreInput → Exec W ScoreResult
  evaluate_bound run_harness request = do
    found ← lift (plan_of request.private_data)
    raise_if (not (c.valid_plan found.1)) (validation_error "EvaluationPlan")
    allowed ← lift (timeout_ms found.1)
    left ← remaining_timeout_ms k
    raise_if (leb (smaller allowed left) 0) (timeout_error "HARNESS_TIMEOUT")
    private ← lift (envelope_of found.0)
    state ← lift (optional_envelope request.state)
    let command = command_of request (smaller allowed left) private state
    raise_if (not (c.valid_request command)) (validation_error "HarnessRequest")
    report ← run_harness command
    raise_if (not (c.valid_result report)) (validation_error "HarnessResult")
    lift (score_of report)

  -- `evaluate_harness`
  unfoldable pub evaluate_harness :
      Option (HarnessRequest → Exec W HarnessResult) → ScoreInput → Exec W ScoreResult
  evaluate_harness harness request = do
    check k "SCORER_TIMEOUT"
    elim harness [
      | none ↦ raise (runtime_error "Worker-bound official harness is unavailable")
      | some run_harness ↦ evaluate_bound run_harness request
    ]
