-- ===== src/Datasets/Gsm8k.antt =====
-- reference/datasets/gsm8k.
pub mod Reference
use uenv_design.Base.{none, List, [], ◌∷◌}
use uenv_design.Result.{Result}
use uenv_design.Exec.{Exec, pure, lift, ◌>>=◌, ◌>>◌}
use uenv_design.Modeling.{ModelClass}
use uenv_design.Task.{TaskSpec}
use uenv_design.Scoring.{Clock, check, ScoreInput, ScoreResult}
use uenv_design.Rules.Numeric.{Floats}
use uenv_design.Rules.Scores.{score_gsm8k}
use uenv_design.Datasets.Annotations.{nonempty}
use uenv_design.Datasets.Adapters.{Adapter, column, last_answer}
use uenv_design.Datasets.Prompts.{ContentPart, attribute_of, text_part}
use uenv_design.Datasets.Answers.{score_text}

abbrev pub input_class : ModelClass
input_class = record {
  name = "Gsm8kInput";
  doc = "Model-visible GSM8K task data.";
  hints = ("instruction", nonempty "Task question") ∷ [];
  defaults = [];
  schema_id = none;
}

abbrev pub private_class : ModelClass
private_class = record {
  name = "Gsm8kPrivateData";
  doc = "Scorer-only GSM8K reference data.";
  hints = ("answer", nonempty "Reference answer") ∷ [];
  defaults = [];
  schema_id = none;
}

-- `Gsm8kAdapter`
abbrev pub adapter : Adapter
adapter = record {
  variant = none;
  id_column = "id";
  input_model = input_class;
  input_columns = ("instruction", column "question") ∷ [];
  private_model = private_class;
  private_columns = ("answer", last_answer "answer") ∷ [];
}

-- `Gsm8kEnvironment.reset`
unfoldable pub reset : {W : Type 0} → Clock W → TaskSpec → Exec W (List ContentPart)
reset clock task = do
  check clock "EPISODE_TIMEOUT"
  instruction ← lift (attribute_of "instruction" task.input)
  pure (text_part instruction ∷ [])

-- `Gsm8kScorer.score`
unfoldable pub score : {F : Type 0} → Floats F → ScoreInput → Result ScoreResult
score floats = score_text (score_gsm8k floats)
