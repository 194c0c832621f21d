-- ===== src/Datasets/Swe/Verified.antt =====
-- reference/datasets/swe_verified.
use uenv_design.Base.{Option, List}
use uenv_design.Exec.{Exec}
use uenv_design.Modeling.{ModelClass, Classes}
use uenv_design.Task.{TaskSpec}
use uenv_design.Scoring.{Clock, ScoreInput, ScoreResult}
use uenv_design.Scoring.Harness.{Contract, HarnessRequest, HarnessResult, evaluate_harness}
use uenv_design.Datasets.Adapters.{Adapter}
use uenv_design.Datasets.Prompts.{ContentPart}
use uenv_design.Datasets.Swe.{input_of, private_of, adapter_of, show_task}

abbrev pub input_class : ModelClass
input_class = input_of "SweVerifiedInput" "Model-visible SWE-bench Verified task."

abbrev pub private_class : ModelClass
private_class = private_of "SweVerifiedPrivateData" "Scorer-only SWE-bench Verified tests."

-- `SweVerifiedAdapter`
abbrev pub adapter : Adapter
adapter =
    adapter_of "verified" "SWE Verified package received another benchmark variant" input_class
      private_class

-- `SweVerifiedEnvironment.reset`
abbrev pub reset : {W : Type 0} → Clock W → Classes → TaskSpec → Exec W (List ContentPart)
reset clock classes task = show_task clock classes task

-- `SweVerifiedScorer.score`
unfoldable pub score :
    {W : Type 0}
    → Contract
    → Clock W
    → Option (HarnessRequest → Exec W HarnessResult)
    → ScoreInput
    → Exec W ScoreResult
score contract clock harness request = evaluate_harness contract clock harness request
