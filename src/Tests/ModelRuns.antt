-- ===== src/Tests/ModelRuns.antt =====
-- A model of one text field, to its envelope and back.
use uenv_design.Base.{◌≡◌, ◌≢◌, refl, some, [], ◌∷◌, arith, string_eq}
use uenv_design.Result.{ok, err, runtime_error, ◌>>=◌}
use uenv_design.Modeling.{str, instance_of, Attributes, end, attribute, text_type, optional, null}
use uenv_design.Modeling.{ModelClass, Classes, model_to_envelope, model_from_envelope, dump}
use uenv_design.Modeling.Schema.{model_schema}
use uenv_design.Modeling.Schema.Fuel.{model_schema-total, height}
use uenv_design.Modeling.RoundTrip.{Typed, TypedInstance, model_from_envelope-to_envelope}

abbrev answer_class : ModelClass
answer_class = record {
  name = "Answer";
  doc = "An answer.";
  hints = ("text", text_type) ∷ ("note", optional text_type) ∷ [];
  defaults = ("note", null) ∷ [];
  schema_id = some "urn:answer";
}

abbrev classes : Classes
classes = ("Answer", answer_class) ∷ []

abbrev fields : Attributes
fields = attribute "text" (str "42") (attribute "note" null end)

fields-TypedInstance : TypedInstance (Typed 2 classes) answer_class "Answer" fields
unfolding dump string_eq
fields-TypedInstance = record {
  named = refl;
  once = (refl, (refl, tt));
  fields_typed = (refl, refl, (refl, tt, tt));
}

model_from_envelope-to_envelope_example :
    (model_to_envelope answer_class fields >>= model_from_envelope 2 classes answer_class)
    ≡ ok (instance_of "Answer" fields)
model_from_envelope-to_envelope_example =
    model_from_envelope-to_envelope 2 classes answer_class "urn:answer" fields refl (λ h. cc)
      fields-TypedInstance

model_schema-total_example :
    model_schema 5 classes [] "Answer" ≢ err (runtime_error "RecursionError")
unfolding height
model_schema-total_example =
    model_schema-total 2 5 classes "Answer" (((omega arith, (omega arith, tt)), tt)) (omega arith)
