-- ===== src/Datasets/Pubmedqa.antt =====
-- reference/datasets/pubmedqa.
use uenv_design.Base.{◌<>◌, none, List, [], ◌∷◌}
use uenv_design.Result.{Result}
use uenv_design.Exec.{Exec, pure, lift, ◌>>=◌, ◌>>◌}
use uenv_design.Modeling.{str, ModelClass, text_type, list_of}
use uenv_design.Task.{TaskSpec}
use uenv_design.Scoring.{Clock, check, ScoreInput, ScoreResult}
use uenv_design.Rules.Labels.{score_pubmedqa}
use uenv_design.Datasets.Annotations.{plain, nonempty}
use uenv_design.Datasets.Adapters.{Adapter, column}
use uenv_design.Datasets.Prompts.{ContentPart, attribute_of, text_part, prefixed, join}
use uenv_design.Datasets.Answers.{score_text}

abbrev pub input_class : ModelClass
input_class = record {
  name = "PubmedqaInput";
  doc = "Model-visible PubMedQA task data.";
  hints =
      ("instruction", nonempty "Question")
      ∷ ("contexts", plain (list_of text_type) "Abstract passages in source order")
      ∷ [];
  defaults = [];
  schema_id = none;
}

abbrev pub private_class : ModelClass
private_class = record {
  name = "PubmedqaPrivateData";
  doc = "Scorer-only PubMedQA label.";
  hints = ("answer", nonempty "Reference label") ∷ [];
  defaults = [];
  schema_id = none;
}

-- `PubmedqaAdapter`
abbrev pub adapter : Adapter
adapter = record {
  variant = none;
  id_column = "id";
  input_model = input_class;
  input_columns = ("instruction", column "QUESTION") ∷ ("contexts", column "CONTEXTS") ∷ [];
  private_model = private_class;
  private_columns = ("answer", column "final_decision") ∷ [];
}

-- `PubmedqaEnvironment.reset`
unfoldable pub reset : {W : Type 0} → Clock W → TaskSpec → Exec W (List ContentPart)
reset clock task = do
  check clock "EPISODE_TIMEOUT"
  contexts ← lift (attribute_of "contexts" task.input)
  passages ← lift (join "\n" contexts)
  instruction ← lift (attribute_of "instruction" task.input)
  prompt ← lift (
      prefixed (("Read the abstract and answer yes, no, or maybe.\n" <> passages) <> "\n")
        instruction)
  pure (text_part (str prompt) ∷ [])

-- `PubmedqaScorer.score`
unfoldable pub score : ScoreInput → Result ScoreResult
score = score_text score_pubmedqa
