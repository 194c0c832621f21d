-- ===== src/Tests/DatasetRuns.antt =====
-- Rows of the data sets, from the source to the score.
use uenv_design.Base.{String, ◌≡◌, ◌≢◌, refl, true, false, none, some, [], ◌∷◌, string_eq}
use uenv_design.Base.{contains, arith, nat_eq, sym, ◌∙◌}
use uenv_design.Base.Dict
use uenv_design.Result.{ok, ◌>>=◌}
use uenv_design.Value.{pos, bool}
use uenv_design.Wire.{Part}
use uenv_design.Modeling.{
  Datum, int, str, arr, nil, cons, instance_of, attribute, end, restore, restore_bare, fill, init,
  envelope_of, model_from_envelope,
}
use uenv_design.Scoring.{ScoreInput, ModelInstance, binary_score}
use uenv_design.Strings.{strip, lstrip, rstrip, last_part, behind_last, digits}
use uenv_design.Strings
use uenv_design.Rules.{is_space}
use uenv_design.Datasets.Adapters.{
  Row, PreparedSample, read_column, read_columns, check_variant, text_of, normalize,
}
use uenv_design.Datasets.Samples.{adapter_for, gsm8k, pubmedqa}
use uenv_design.Datasets.Samples.Instances.{IsSample, normalize-IsSample, normalize-round}
use uenv_design.Datasets.Samples.Complete.{normalize-Present}
use uenv_design.Datasets.Privacy.{private_keys, normalize_private}
use uenv_design.Datasets.Gsm8k
use uenv_design.Datasets.Gsm8k.Reference.{score-normalize}
use uenv_design.Tests.NumberRuns.{floats}

abbrev written : Datum → String
written v = "..."

abbrev row : Row
row = ("id", int (pos 7)) ∷ ("question", str "2 + 2?") ∷ ("answer", str "It is 4.\n#### 4 ") ∷ []

abbrev hidden : PreparedSample
hidden = record {
  sample_id = "7";
  input = instance_of "Gsm8kInput" (attribute "instruction" (str "2 + 2?") end);
  private_data = instance_of "Gsm8kPrivateData" (attribute "answer" (str "4") end);
}

normalized : normalize written (restore 3 []) (adapter_for gsm8k) row ≡ ok hidden
unfolding normalize check_variant read_columns read_column text_of restore restore_bare fill init
    lstrip rstrip last_part behind_last Strings.after digits is_space string_eq nat_eq
normalized = refl

abbrev private_model : ModelInstance
private_model = record { model = Gsm8k.private_class; fields = attribute "answer" (str "4") end }

abbrev request : ScoreInput
request = record {
  task_id = "t";
  final_answer = Part.text "It is 4.\n#### 4 " ∷ [];
  trajectory_ref = record { uri = ""; digest = ""; size_bytes = 0; media_type = "" };
  state = none;
  private_data = some private_model;
}

last_is_4 : strip (last_part "####" "It is 4.\n#### 4 ") ≡ "4"
unfolding lstrip rstrip last_part behind_last Strings.after is_space nat_eq
last_is_4 = refl

four_is_given : ◌≢◌ {A = String} "4" ""
four_is_given same = cc

score-normalize_example : Gsm8k.score floats request ≡ binary_score (bool true)
unfolding string_eq
score-normalize_example =
    score-normalize floats written 2 [] row "It is 4.\n#### 4 " hidden request private_model refl
      (λ blank. four_is_given (sym last_is_4 ∙ blank)) normalized refl refl refl

normalize-round_example :
    ((envelope_of (some "urn:input") hidden.input
        >>= model_from_envelope 3 [] (record Gsm8k.input_class { schema_id = some "urn:input" }))
      ≡ ok hidden.input)
    × ((envelope_of (some "urn:answer") hidden.private_data
          >>= model_from_envelope 3 []
              (record Gsm8k.private_class { schema_id = some "urn:answer" }))
        ≡ ok hidden.private_data)
normalize-round_example =
    normalize-round written 0 [] gsm8k row hidden "urn:input" "urn:answer" (tt, (tt, (tt, tt)))
      normalized (λ same. cc) (λ same. cc)

normalize-IsSample_example : IsSample 3 (adapter_for gsm8k) hidden
normalize-IsSample_example =
    normalize-IsSample written 0 [] gsm8k row hidden (tt, (tt, (tt, tt))) normalized

-- A paper with two passages, and its label.
abbrev paper : String → Row
paper label =
    ("id", str "p1")
    ∷ ("QUESTION", str "Does it?")
    ∷ ("CONTEXTS", arr (cons (str "One.") (cons (str "Two.") nil)))
    ∷ ("final_decision", str label)
    ∷ []

abbrev passages : Datum
passages = instance_of "PubmedqaInput" (
    attribute "instruction" (str "Does it?")
      (attribute "contexts" (arr (cons (str "One.") (cons (str "Two.") nil))) end))

abbrev graded : String → PreparedSample
graded label = record {
  sample_id = "p1";
  input = passages;
  private_data = instance_of "PubmedqaPrivateData" (attribute "answer" (str label) end);
}

normalized_paper :
    (label : String)
    → normalize written (restore 3 []) (adapter_for pubmedqa) (paper label) ≡ ok (graded label)
unfolding normalize check_variant read_columns read_column text_of restore restore_bare fill init
    string_eq
normalized_paper label = refl

only_label :
    (key : String)
    → contains (private_keys (adapter_for pubmedqa)) key ≡ false
    → Dict.lookup key (paper "yes") ≡ Dict.lookup key (paper "no")
only_label key other = ground arith

normalize_private_example :
    ((graded "yes").sample_id ≡ (graded "no").sample_id)
    × ((graded "yes").input ≡ (graded "no").input)
normalize_private_example =
    normalize_private written (restore 3 []) pubmedqa (paper "yes") (paper "no") (graded "yes")
      (graded "no") only_label (normalized_paper "yes") (normalized_paper "no")

normalize-Present_example :
    (s : PreparedSample) × (normalize written (restore 3 []) (adapter_for pubmedqa) (paper "yes")
      ≡ ok s)
unfolding check_variant string_eq
normalize-Present_example =
    normalize-Present written 0 [] pubmedqa (paper "yes") (str "p1")
      (tt, (tt, ((tt, (tt, tt)), (tt, tt)))) refl refl
      ((str "Does it?", refl), ((arr (cons (str "One.") (cons (str "Two.") nil)), refl), tt))
      ((str "yes", refl), tt)
