-- ===== src/Datasets/Dscodebench.antt =====
-- reference/datasets/dscodebench.
use uenv_design.Base.{Option, none, List, [], ◌∷◌}
use uenv_design.Exec.{Exec, pure, lift, ◌>>=◌, ◌>>◌}
use uenv_design.Modeling.{str, null, ModelClass, Classes, text_type, optional}
use uenv_design.Task.{TaskSpec}
use uenv_design.Scoring.{Clock, check, ScoreInput, ScoreResult}
use uenv_design.Scoring.Harness.{Contract, HarnessRequest, HarnessResult, evaluate_harness}
use uenv_design.Datasets.Annotations.{plain, nonempty, at_least, artifact_ref, evaluation_plan}
use uenv_design.Datasets.Adapters.{Adapter, column}
use uenv_design.Datasets.Prompts.{ContentPart, text_part, structured_part}

abbrev pub input_class : ModelClass
input_class = record {
  name = "DscodebenchInput";
  doc = "Model-visible DSCodeBench problem.";
  hints =
      ("instruction", nonempty "Programming problem")
      ∷ ("library", plain text_type "Required library")
      ∷ ("entry_point", plain text_type "Required callable entry point")
      ∷ [];
  defaults = [];
  schema_id = none;
}

abbrev pub private_class : ModelClass
private_class = record {
  name = "DscodebenchPrivateData";
  doc = "Scorer-only DSCodeBench tests and evaluation plan.";
  hints =
      ("tests", plain artifact_ref "Versioned test artifact")
      ∷ ("reference_solution", plain (optional artifact_ref) "Optional reference solution")
      ∷ ("num_tests", at_least 1 "Number of tests")
      ∷ ("test_seed", at_least 0 "Test sampling seed")
      ∷ ("evaluation_plan", plain evaluation_plan "Only harness execution configuration")
      ∷ [];
  defaults = ("reference_solution", null) ∷ [];
  schema_id = none;
}

-- `DscodebenchAdapter`
abbrev pub adapter : Adapter
adapter = record {
  variant = none;
  id_column = "problem_id";
  input_model = input_class;
  input_columns =
      ("instruction", column "code_problem")
      ∷ ("library", column "library")
      ∷ ("entry_point", column "entry_point")
      ∷ [];
  private_model = private_class;
  private_columns =
      ("tests", column "tests")
      ∷ ("num_tests", column "num_tests")
      ∷ ("test_seed", column "test_seed")
      ∷ ("evaluation_plan", column "evaluation_plan")
      ∷ [];
}

-- `DscodebenchEnvironment.reset`
unfoldable pub reset : {W : Type 0} → Clock W → Classes → TaskSpec → Exec W (List ContentPart)
reset clock classes task = do
  check clock "EPISODE_TIMEOUT"
  problem ← lift (structured_part classes task.input)
  pure (text_part (str "Generate a Python solution.") ∷ problem ∷ [])

-- `DscodebenchScorer.score`
unfoldable pub score :
    {W : Type 0}
    → Contract
    → Clock W
    → Option (HarnessRequest → Exec W HarnessResult)
    → ScoreInput
    → Exec W ScoreResult
score contract clock harness request = evaluate_harness contract clock harness request
