-- ===== src/Tests/ScoreRuns.antt =====
-- A trajectory of one segment with two events, and a harness that passed.
use uenv_design.Base.{
  ℕ, ◌+◌, ◌==◌, if◌then◌else◌, String, true, false, none, some, ◌≡◌, refl, [], ◌∷◌,
}
use uenv_design.Base.{string_eq, nat_eq, option_eq}
use uenv_design.Result.{Error, Result, ok, err, value_error}
use uenv_design.Exec.{Exec}
use uenv_design.Value.{pos, Value}
use uenv_design.Wire.{ArtifactRef, text}
use uenv_design.Modeling.{int, obj, attribute, end, any_type, model_to_envelope, dump}
use uenv_design.Scoring.{
  Clock, check, remaining_timeout_ms, ScoreInput, ScoreResult, binary_score, ratio,
}
use uenv_design.Scoring.Lines.{Bytes, Identity, identity_eq, Event, Decoder, splitlines}
use uenv_design.Scoring.Lines.{lines_from, read_lines}
use uenv_design.Scoring.Trajectory.{read, read_segments, read_bound, read_scoring_trajectory}
use uenv_design.Scoring.Trajectory.Complete.{IsComplete, read_scoring_trajectory-IsComplete}
use uenv_design.Scoring.Harness.{HarnessRequest, HarnessResult, Contract, evaluate_harness}
use uenv_design.Scoring.Harness.{evaluate_bound, plan_of, timeout_ms, score_of}
use uenv_design.Scoring.Harness.Reports.{IsReported, evaluate_harness-IsReported}

lines_of_both :
    splitlines (1 ∷ 13 ∷ 10 ∷ 2 ∷ 10 ∷ 10 ∷ 3 ∷ []) ≡ (1 ∷ []) ∷ (2 ∷ []) ∷ [] ∷ (3 ∷ []) ∷ []
unfolding lines_from nat_eq
lines_of_both = refl

abbrev identity : Identity
identity = record { run_id = "r"; episode_id = "e"; attempt_id = "a"; task_id = "t" }

abbrev segment : ArtifactRef
segment = record { uri = "segment"; digest = "sha256:s"; size_bytes = 3; media_type = "" }

abbrev trajectory : ArtifactRef
trajectory = record { uri = "manifest"; digest = "sha256:m"; size_bytes = 1; media_type = "" }

abbrev hash : Bytes → String
hash (x ∷ y ∷ rest) = "s"
hash _ = "m"

abbrev event_of : Bytes → Result Event
event_of (n ∷ []) = ok (record { identity = identity; sequence = n })
event_of _ = err (value_error "json")

abbrev decoder : Decoder
decoder = record {
  sha256 = hash;
  manifest = λ content. ok (record {
    trajectory_status = "scoring_checkpoint";
    identity = identity;
    event_segments = segment ∷ [];
    event_count = 2;
  });
  event = event_of;
}

-- The world counts the looks at the clock.
abbrev clock : Clock ℕ
clock = record { deadline = 9000; cancelled = λ n. (false, n); monotonic = λ n. (n, n + 1) }

abbrev reader : ArtifactRef → Exec ℕ Bytes
reader r n = if r.uri == "segment" then (ok (0 ∷ 10 ∷ 1 ∷ []), n) else (ok (7 ∷ []), n)

abbrev request : ScoreInput
request = record {
  task_id = "t";
  final_answer = text "a" ∷ text "b" ∷ [];
  trajectory_ref = trajectory;
  state = none;
  private_data = some (record {
    model = record {
      name = "Private";
      doc = "";
      hints = ("evaluation_plan", any_type) ∷ [];
      defaults = [];
      schema_id = some "urn:private";
    };
    fields = attribute "evaluation_plan" (obj (attribute "timeout_ms" (int (pos 60)) end)) end;
  });
}

abbrev event : ℕ → Event
event n = record { identity = identity; sequence = n }

trajectory_read :
    read_scoring_trajectory decoder clock (some reader) request 0 ≡ (ok (event 0 ∷ event 1 ∷ []), 3)
unfolding read_scoring_trajectory read_bound read_segments read read_lines lines_from check
    string_eq nat_eq identity_eq
trajectory_read = refl

read_scoring_trajectory-IsComplete_example : IsComplete decoder request (event 0 ∷ event 1 ∷ [])
read_scoring_trajectory-IsComplete_example =
    read_scoring_trajectory-IsComplete decoder clock (some reader) request 0 3
      (event 0 ∷ event 1 ∷ []) trajectory_read

abbrev report : HarnessResult
report = record {
  tests_run = 3;
  tests_passed = 3;
  status = some "ok";
  success = some true;
  metrics = none;
  report_ref = trajectory;
}

-- The harness takes as long as it was given.
abbrev harness : HarnessRequest → Exec ℕ HarnessResult
harness command n = (ok report, n + command.remaining_timeout_ms)

abbrev contract : Contract
contract = record { valid_plan = λ p. true; valid_request = λ r. true; valid_result = λ r. true }

abbrev resolved : ScoreResult
resolved = record {
  success = some true;
  metrics = ratio "resolved" true ∷ [];
  reward = some "1.0";
  evidence = trajectory ∷ [];
}

harness_ran : evaluate_harness contract clock (some harness) request 0 ≡ (ok resolved, 11)
unfolding evaluate_harness evaluate_bound plan_of timeout_ms remaining_timeout_ms check score_of
    model_to_envelope dump string_eq option_eq
harness_ran = refl

evaluate_harness-IsReported_example : IsReported contract harness request resolved
evaluate_harness-IsReported_example =
    evaluate_harness-IsReported contract clock harness request 0 11 resolved harness_ran

no_number :
    binary_score (Value.int (pos 1)) ≡ err (Error.type_error "Binary score requires an actual bool")
unfolding binary_score
no_number = refl
