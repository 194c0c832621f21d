-- ===== src/Datasets/Swe.antt =====
-- reference/datasets/swe_lite, swe_pro, swe_smith and swe_verified: the four packages differ in their
-- names and in the benchmark variant that they take.
pub mod Lite
pub mod Pro
pub mod Smith
pub mod Verified
use uenv_design.Base.{ℕ, String, ◌<>◌, Option, none, some, List, [], ◌∷◌}
use uenv_design.Result.{Result}
use uenv_design.Exec.{Exec, pure, lift, ◌>>=◌, ◌>>◌}
use uenv_design.Modeling.{Datum, str, null, ModelClass, Classes, dump, text_type, list_of, optional}
use uenv_design.Task.{TaskSpec}
use uenv_design.Wire.{Part}
use uenv_design.Scoring.{Clock, check, ScoreInput, ScoreResult}
use uenv_design.Scoring.Harness.{Contract, HarnessRequest, HarnessResult, evaluate_harness}
use uenv_design.Rules.Numeric.{Floats}
use uenv_design.Rules.Scores.{score_olymmath}
use uenv_design.Rules.Labels.{score_pubmedqa, score_scitab}
use uenv_design.Json.{dumps}
use uenv_design.Datasets.Annotations.{
  plain, nonempty, at_least, one_of, artifact_ref, evaluation_plan,
}
use uenv_design.Datasets.Adapters.{Adapter, Column, column, or_empty}
use uenv_design.Datasets.Prompts.{
  ContentPart, attribute_of, text_part, structured_part, prefixed, join,
}
use uenv_design.Datasets.Answers.{score_text}

-- The input class of a package, by its name and its docstring.
abbrev pub input_of : String → String → ModelClass
input_of name doc = record {
  name = name;
  doc = doc;
  hints =
      ("instruction", nonempty "Repository repair request")
      ∷ ("repo", nonempty "Repository identity")
      ∷ ("base_commit", nonempty "Exact starting commit")
      ∷ ("workspace_path", nonempty "Sandbox workspace path")
      ∷ (
        "runtime_assets",
        plain (list_of artifact_ref) "Versioned repository and dependency inputs",
      )
      ∷ [];
  defaults = [];
  schema_id = none;
}

-- The class of the private data.
abbrev pub private_of : String → String → ModelClass
private_of name doc = record {
  name = name;
  doc = doc;
  hints =
      ("test_patch", plain artifact_ref "Hidden test patch")
      ∷ ("reference_patch", plain (optional artifact_ref) "Optional reference patch")
      ∷ ("fail_to_pass", plain (list_of text_type) "Tests that must change from failing to passing")
      ∷ ("pass_to_pass", plain (list_of text_type) "Tests that must remain passing")
      ∷ ("evaluation_plan", plain evaluation_plan "Only harness execution configuration")
      ∷ [];
  defaults = ("reference_patch", null) ∷ [];
  schema_id = none;
}

-- The adapter of a package, by its variant, the message of the refusal and its classes.
abbrev pub adapter_of : String → String → ModelClass → ModelClass → Adapter
adapter_of variant message input private = record {
  variant = some (variant, message);
  id_column = "instance_id";
  input_model = input;
  input_columns =
      ("instruction", column "problem_statement")
      ∷ ("repo", column "repo")
      ∷ ("base_commit", column "base_commit")
      ∷ ("workspace_path", column "workspace_path")
      ∷ ("runtime_assets", column "runtime_assets")
      ∷ [];
  private_model = private;
  private_columns =
      ("test_patch", column "test_patch")
      ∷ ("fail_to_pass", column "FAIL_TO_PASS")
      ∷ ("pass_to_pass", column "PASS_TO_PASS")
      ∷ ("evaluation_plan", column "evaluation_plan")
      ∷ [];
}

-- `reset` of each of the environments.
unfoldable pub show_task : {W : Type 0} → Clock W → Classes → TaskSpec → Exec W (List ContentPart)
show_task clock classes task = do
  check clock "EPISODE_TIMEOUT"
  problem ← lift (structured_part classes task.input)
  pure (problem ∷ [])
