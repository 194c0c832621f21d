-- ===== src/Datasets/Swe/Smith.antt =====
-- reference/datasets/swe_smith.
use uenv_design.Base.{Option, List}
use uenv_design.Exec.{Exec}
use uenv_design.Modeling.{ModelClass, Classes}
use uenv_design.Task.{TaskSpec}
use uenv_design.Scoring.{Clock, ScoreInput, ScoreResult}
use uenv_design.Scoring.Harness.{Contract, HarnessRequest, HarnessResult, evaluate_harness}
use uenv_design.Datasets.Adapters.{Adapter}
use uenv_design.Datasets.Prompts.{ContentPart}
use uenv_design.Datasets.Swe.{input_of, private_of, adapter_of, show_task}

abbrev pub input_class : ModelClass
input_class = input_of "SweSmithInput" "Model-visible SWE-smith task."

abbrev pub private_class : ModelClass
private_class = private_of "SweSmithPrivateData" "Scorer-only SWE-smith tests."

-- `SweSmithAdapter`
abbrev pub adapter : Adapter
adapter =
    adapter_of "smith" "SWE Smith package received another benchmark variant" input_class
      private_class

-- `SweSmithEnvironment.reset`
abbrev pub reset : {W : Type 0} → Clock W → Classes → TaskSpec → Exec W (List ContentPart)
reset clock classes task = show_task clock classes task

-- `SweSmithScorer.score`
unfoldable pub score :
    {W : Type 0}
    → Contract
    → Clock W
    → Option (HarnessRequest → Exec W HarnessResult)
    → ScoreInput
    → Exec W ScoreResult
score contract clock harness request = evaluate_harness contract clock harness request
