-- ===== src/Datasets/Gsm8k/Reference.antt =====
-- The reference of GSM8K, from the row to the score.
use uenv_design.Base.{ℕ, suc, String, ◌≡◌, ◌≢◌, refl, sym, ap, ◌∙◌, true, some, none}
use uenv_design.Base.{[], ◌∷◌, string_eq}
use uenv_design.Base.Dict
use uenv_design.Result.{ok, ok_inj}
use uenv_design.Result.Holds.{Holds, Holds-return, Holds-bind, Holds-check, Holds-required}
use uenv_design.Value.{bool}
use uenv_design.Wire.{Part}
use uenv_design.Modeling.{
  Datum, str, instance_of, Attributes, attribute, end, dump, dump_attributes, Classes, restore,
  restore_bare, fill, init,
}
use uenv_design.Scoring.{ScoreInput, ModelInstance, binary_score, read_reference_text}
use uenv_design.Strings.{strip, last_part}
use uenv_design.Strings.Codes.{codes-strip, codes-last_part}
use uenv_design.Rules
use uenv_design.Rules.{Text}
use uenv_design.Rules.Labels.{codes}
use uenv_design.Rules.Numeric.{Floats}
use uenv_design.Rules.Scores.{score_gsm8k}
use uenv_design.Rules.Scores.Commands.{strip_idem, score_gsm8k_same}
use uenv_design.Datasets.Adapters.{
  Row, PreparedSample, read_column, read_columns, check_variant, normalize,
}
use text.Mathlib.TextLemmas.{append-nil}
use uenv_design.Datasets.Answers.{score_text}
use uenv_design.Datasets.Gsm8k.{adapter, private_class, score}

-- What the scorer gets of the answer of a row.
abbrev reference : String → String
reference a = strip (last_part "####" a)

abbrev kept : String → Attributes
kept a = attribute "answer" (str (reference a)) end

init_answer :
    (depth : ℕ) (classes : Classes) (a : String)
    → init (restore (suc depth) classes) private_class (("answer", str (reference a)) ∷ [])
      ≡ ok (instance_of "Gsm8kPrivateData" (kept a))
unfolding init fill restore restore_bare string_eq
init_answer depth classes a = refl

read_answer :
    (row : Row) (a : String)
    → Dict.lookup "answer" row ≡ some (str a)
    → read_columns row adapter.private_columns ≡ ok (("answer", str (reference a)) ∷ [])
unfolding read_columns read_column
read_answer row a h = rw h refl

private_answer :
    (repr : Datum → String) (depth : ℕ) (classes : Classes) (row : Row) (a : String)
    → Dict.lookup "answer" row ≡ some (str a)
    → Holds
        (λ s. s.private_data ≡ instance_of "Gsm8kPrivateData" (kept a))
        (normalize repr (restore (suc depth) classes) adapter row)
unfolding normalize
private_answer repr depth classes row a h =
    let recur = restore (suc depth) classes in
    Holds-check (check_variant none row) _ λ _.
      Holds-required adapter.id_column (Dict.lookup adapter.id_column row) _ λ id _.
        Holds-bind (read_columns row adapter.input_columns) _ λ given _.
          Holds-bind (init recur adapter.input_model given) _ λ input _.
            Holds-bind (read_columns row adapter.private_columns) _ λ hidden read.
              Holds-bind (init recur private_class hidden) _ λ private built. Holds-return _ (
                ok_inj private (instance_of "Gsm8kPrivateData" (kept a)) (
                  sym built
                  ∙ ap (init recur private_class) (ok_inj hidden _ (sym read ∙ read_answer row a h))
                  ∙ init_answer depth classes a))

codes-empty : (s : String) → codes s ≡ [] → s ≡ ""
codes-empty String.[] h = refl
codes-empty (String.◌∷◌ c s) h = cc

-- The code points of the reference: stripping it once more changes nothing.
codes-reference :
    (a : String)
    → Rules.strip (codes (reference a)) ≡ Rules.strip (Rules.last_part (codes "####") (codes a))
codes-reference a =
    ap Rules.strip (codes-strip (last_part "####" a) ∙ ap Rules.strip (codes-last_part "####" a))
    ∙ strip_idem (Rules.last_part (codes "####") (codes a))

score_reference :
    {F : Type 0} (floats : Floats F) (a : String)
    → reference a ≢ ""
    → score_gsm8k floats (codes a) (codes (reference a)) ≡ binary_score (bool true)
score_reference floats a given =
    score_gsm8k_same floats (codes a) (codes (reference a)) (sym (codes-reference a)) (λ blank.
      given (
        codes-empty (reference a) (
          codes-strip (last_part "####" a)
          ∙ sym (strip_idem (codes (last_part "####" a)))
          ∙ ap Rules.strip (sym (codes-strip (last_part "####" a)))
          ∙ blank)))

text_read :
    (request : ScoreInput) (m : ModelInstance) (a : String)
    → request.private_data ≡ some m
    → request.final_answer ≡ Part.text a ∷ []
    → read_reference_text request ≡ ok (a, dump_attributes m.fields)
unfolding read_reference_text
text_read request m a private answer = rw (private, answer, append-nil a) refl

fields_of : Datum → Attributes
fields_of (instance_of name fields) = fields
fields_of v = end

-- A row of GSM8K is graded by its own answer: where the adapter makes a sample of a row whose answer
-- is the string `a`, and what stands behind the last "####" of `a` is not blank, the scorer that gets
-- the sample's private data grades the answer `a` as right.
pub score-normalize :
    {F : Type 0} (floats : Floats F) (repr : Datum → String) (depth : ℕ) (classes : Classes)
    (row : Row) (a : String) (s : PreparedSample) (request : ScoreInput) (m : ModelInstance)
    → Dict.lookup "answer" row ≡ some (str a)
    → strip (last_part "####" a) ≢ ""
    → normalize repr (restore (suc depth) classes) adapter row ≡ ok s
    → s.private_data ≡ instance_of "Gsm8kPrivateData" m.fields
    → request.private_data ≡ some m
    → request.final_answer ≡ Part.text a ∷ []
    → score floats request ≡ binary_score (bool true)
unfolding score score_text dump string_eq fields_of
score-normalize floats repr depth classes row a s request m known given made private handed answer =
    let same : m.fields ≡ kept a =
      ap fields_of (sym private ∙ (private_answer repr depth classes row a known).at s made) in
    rw (text_read request m a handed answer, same) (score_reference floats a given)
