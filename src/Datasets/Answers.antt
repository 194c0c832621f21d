-- ===== src/Datasets/Answers.antt =====
-- What a text scorer of a package hands to its rule: the answer of the model, and the reference.
use uenv_design.Base.{string_eq}
use uenv_design.Base.Dict
use uenv_design.Result.{Result, ok, err, attribute_error, required, ◌>>=◌}
use uenv_design.Modeling.{Datum, str, dict_of}
use uenv_design.Scoring.{ScoreInput, ScoreResult, read_reference_text}
use uenv_design.Rules.{Text}
use uenv_design.Rules.Labels.{codes}

-- `private_data["answer"].strip()`: only a `str` has it.
abbrev text_of : Datum → Result Text
text_of (str s) = ok (codes s)
text_of v = err (attribute_error "strip")

-- `read_reference_text`, and a rule that reads `private_data["answer"]`.
unfoldable pub score_text : (Text → Text → Result ScoreResult) → ScoreInput → Result ScoreResult
score_text rule request = do
  found ← read_reference_text request
  reference ← required "answer" (Dict.lookup "answer" (dict_of found.1))
  target ← text_of reference
  rule (codes found.0) target
