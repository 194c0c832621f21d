-- ===== src/Datasets/Olymmath.antt =====
-- reference/datasets/olymmath.
use uenv_design.Base.{none, List, [], ◌∷◌}
use uenv_design.Result.{Result}
use uenv_design.Exec.{Exec, pure, lift, ◌>>=◌, ◌>>◌}
use uenv_design.Modeling.{str, ModelClass, text_type}
use uenv_design.Task.{TaskSpec}
use uenv_design.Scoring.{Clock, check, ScoreInput, ScoreResult}
use uenv_design.Rules.Numeric.{Floats}
use uenv_design.Rules.Scores.{score_olymmath}
use uenv_design.Datasets.Annotations.{plain, nonempty, one_of}
use uenv_design.Datasets.Adapters.{Adapter, column, or_empty}
use uenv_design.Datasets.Prompts.{ContentPart, attribute_of, text_part, prefixed}
use uenv_design.Datasets.Answers.{score_text}

abbrev pub input_class : ModelClass
input_class = record {
  name = "OlymmathInput";
  doc = "Model-visible OlymMATH problem.";
  hints =
      ("instruction", nonempty "Math problem")
      ∷ ("language", one_of ("en" ∷ "zh" ∷ []) "Problem language")
      ∷ ("difficulty", one_of ("easy" ∷ "hard" ∷ []) "Problem difficulty")
      ∷ ("subject", plain text_type "Math subject")
      ∷ [];
  defaults = [];
  schema_id = none;
}

abbrev pub private_class : ModelClass
private_class = record {
  name = "OlymmathPrivateData";
  doc = "Scorer-only OlymMATH reference answer.";
  hints = ("answer", nonempty "Reference answer") ∷ [];
  defaults = [];
  schema_id = none;
}

-- `OlymmathAdapter`
abbrev pub adapter : Adapter
adapter = record {
  variant = none;
  id_column = "unique_id";
  input_model = input_class;
  input_columns =
      ("instruction", column "problem")
      ∷ ("language", column "language")
      ∷ ("difficulty", column "difficulty")
      ∷ ("subject", or_empty "subject")
      ∷ [];
  private_model = private_class;
  private_columns = ("answer", column "answer") ∷ [];
}

-- `OlymmathEnvironment.reset`
unfoldable pub reset : {W : Type 0} → Clock W → TaskSpec → Exec W (List ContentPart)
reset clock task = do
  check clock "EPISODE_TIMEOUT"
  instruction ← lift (attribute_of "instruction" task.input)
  prompt ← lift (prefixed "Put the final answer in \\boxed{}.\n" instruction)
  pure (text_part (str prompt) ∷ [])

-- `OlymmathScorer.score`
unfoldable pub score : {F : Type 0} → Floats F → ScoreInput → Result ScoreResult
score floats = score_text (score_olymmath floats)
