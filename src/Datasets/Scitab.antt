-- ===== src/Datasets/Scitab.antt =====
-- reference/datasets/scitab.
use uenv_design.Base.{◌<>◌, none, List, [], ◌∷◌}
use uenv_design.Result.{Result}
use uenv_design.Exec.{Exec, pure, ◌>>◌}
use uenv_design.Modeling.{str, ModelClass, dump, text_type, list_of}
use uenv_design.Task.{TaskSpec}
use uenv_design.Scoring.{Clock, check, ScoreInput, ScoreResult}
use uenv_design.Rules.Labels.{score_scitab}
use uenv_design.Json.{dumps}
use uenv_design.Datasets.Annotations.{plain, nonempty}
use uenv_design.Datasets.Adapters.{Adapter, column, or_empty}
use uenv_design.Datasets.Prompts.{ContentPart, text_part}
use uenv_design.Datasets.Answers.{score_text}

abbrev pub input_class : ModelClass
input_class = record {
  name = "ScitabInput";
  doc = "Model-visible SciTab claim and table.";
  hints =
      ("claim", nonempty "Claim to verify")
      ∷ ("paper", plain text_type "Paper title")
      ∷ ("paper_id", plain text_type "Source paper identifier")
      ∷ ("table_id", plain text_type "Source table identifier")
      ∷ ("caption", plain text_type "Table caption")
      ∷ ("columns", plain (list_of text_type) "Table column names")
      ∷ ("rows", plain (list_of (list_of text_type)) "Table rows")
      ∷ [];
  defaults = [];
  schema_id = none;
}

abbrev pub private_class : ModelClass
private_class = record {
  name = "ScitabPrivateData";
  doc = "Scorer-only SciTab label.";
  hints = ("answer", nonempty "Reference label") ∷ [];
  defaults = [];
  schema_id = none;
}

-- `ScitabAdapter`
abbrev pub adapter : Adapter
adapter = record {
  variant = none;
  id_column = "id";
  input_model = input_class;
  input_columns =
      ("claim", column "claim")
      ∷ ("paper", or_empty "paper")
      ∷ ("paper_id", or_empty "paper_id")
      ∷ ("table_id", or_empty "table_id")
      ∷ ("caption", or_empty "table_caption")
      ∷ ("columns", column "table_column_names")
      ∷ ("rows", column "table_content_values")
      ∷ [];
  private_model = private_class;
  private_columns = ("answer", column "label") ∷ [];
}

-- `ScitabEnvironment.reset`
unfoldable pub reset : {W : Type 0} → Clock W → TaskSpec → Exec W (List ContentPart)
reset clock task = do
  check clock "EPISODE_TIMEOUT"
  let prompt = "Classify as supports, refutes, or not enough info.\n" <> dumps (dump task.input)
  pure (text_part (str prompt) ∷ [])

-- `ScitabScorer.score`
unfoldable pub score : ScoreInput → Result ScoreResult
score = score_text score_scitab
