-- ===== src/Modeling/Schema.antt =====
-- modeling.py: the JSON Schema that is generated from a model class.
pub mod Fuel
use uenv_design.Base.{
  ℕ, zero, suc, String, Bool, true, false, Option, none, some, List, [], ◌∷◌, ◌++◌,
}
use uenv_design.Base.{◌==◌, contains, string_eq, if◌then◌else◌}
use uenv_design.Base.Dict
use uenv_design.Base.Dict.{Dict}
use uenv_design.Result.{Error, Result, ok, err, type_error, runtime_error, raise_if, required}
use uenv_design.Result.{◌>>=◌, ◌>>◌}
use uenv_design.Value.{ℤ, pos}
use uenv_design.Modeling.{
  Datum, null, bool, int, str, arr, obj, Items, nil, cons, attributes_of, Field,
}
use uenv_design.Modeling.{Annotation, any_type, text_type, int_type, float_type, bool_type, literal}
use uenv_design.Modeling.{list_of, mapping, optional, ambiguous, external, model, annotated}
use uenv_design.Modeling.{ModelClass, Classes, dump, bind_schema}

-- A JSON object under construction.
abbrev pub JsonSchema : Type 0
JsonSchema = Dict String Datum

abbrev pub object : JsonSchema → Datum
object d = obj (attributes_of d)

abbrev pub texts : List String → Items
texts [] = nil
texts (s ∷ ss) = cons (str s) (texts ss)

-- `type(values[0])` of a `Literal`.
abbrev scalar : Items → String
scalar (cons (int n) rest) = "integer"
scalar (cons (bool b) rest) = "boolean"
scalar _ = "string"

abbrev describe : String → JsonSchema → JsonSchema
describe text s = if text == "" then s else Dict.insert "description" (str text) s

abbrev put : String → Option Datum → JsonSchema → JsonSchema
put key none s = s
put key (some v) s = Dict.insert key v s

abbrev int_datum : Option ℕ → Option Datum
int_datum none = none
int_datum (some n) = some (int (pos n))

abbrev number : Option ℤ → Option Datum
number none = none
number (some n) = some (int n)

-- The loop over the metadata.
unfoldable pub add_metadata : List Field → JsonSchema → JsonSchema
add_metadata [] s = s
add_metadata (f ∷ fields) s = add_metadata fields (
    put "minLength" (int_datum f.min_length)
      (put "minimum" (number f.minimum) (describe f.description s)))

-- The property of one hint: a default is written into it.
abbrev pub with_default : Option Datum → JsonSchema → JsonSchema
with_default none s = s
with_default (some d) s = Dict.insert "default" (dump d) s

-- A name is required if it has no default.
abbrev pub needed : String → Option Datum → List String → List String
needed name none names = name ∷ names
needed name (some d) names = names

module _ (annotation_part : Annotation → Result JsonSchema)
    (model_part : String → Result JsonSchema) where
  -- One call of `_annotation_schema`. The schemas of a nested annotation and of a nested model are further
  -- calls; what is annotated is looked at in the same one.
  unfoldable pub annotation_schema : Annotation → Result JsonSchema
  annotation_schema text_type = ok (("type", str "string") ∷ [])
  annotation_schema int_type = ok (("type", str "integer") ∷ [])
  annotation_schema float_type = ok (("type", str "number") ∷ [])
  annotation_schema bool_type = ok (("type", str "boolean") ∷ [])
  annotation_schema (literal values) =
      ok (("type", str (scalar values)) ∷ ("enum", arr values) ∷ [])
  annotation_schema (list_of a) = do
    items ← annotation_part a
    ok (("type", str "array") ∷ ("items", object items) ∷ [])
  annotation_schema (mapping true a) = do
    values ← annotation_part a
    ok (("type", str "object") ∷ ("additionalProperties", object values) ∷ [])
  annotation_schema (mapping false a) = err (type_error "JSON object keys must be strings")
  annotation_schema (optional a) = do
    inner ← annotation_part a
    ok (("anyOf", arr (cons (object inner) (cons (object (("type", str "null") ∷ [])) nil))) ∷ [])
  annotation_schema ambiguous =
      err (type_error "Reference models support optional types, not ambiguous unions")
  annotation_schema (external ref) = ok (("$ref", str ref) ∷ [])
  annotation_schema (model name) = model_part name
  annotation_schema (annotated a fields) = do s ← annotation_schema a; ok (add_metadata fields s)
  annotation_schema any_type = err (type_error "Unsupported model annotation")

module _ (annotation_part : Annotation → Result JsonSchema) where
  -- The loop of `_model_schema`: the properties, and the names without a default.
  unfoldable pub properties_of :
      Dict String Annotation → Dict String Datum → Result (JsonSchema × List String)
  properties_of [] defaults = ok ([], [])
  properties_of ((name, a) ∷ hints) defaults = do
    s ← annotation_part a
    rest ← properties_of hints defaults
    ok (
      (name, object (with_default (Dict.lookup name defaults) s)) ∷ rest.0,
      needed name (Dict.lookup name defaults) rest.1,
    )

abbrev pub schema_of : ModelClass → JsonSchema × List String → JsonSchema
schema_of c (properties, names) =
    ("title", str c.name)
    ∷ ("description", str c.doc)
    ∷ ("type", str "object")
    ∷ ("properties", object properties)
    ∷ ("required", arr (texts names))
    ∷ ("additionalProperties", bool false)
    ∷ []

-- What a call of `_model_schema` or of `_annotation_schema` is for.
pub data Part : Type 0 where
  of_model : String → Part
  of_annotation : Annotation → Part

-- `_model_schema` and `_annotation_schema`, which call each other, within a number of nested calls of the
-- two. Beyond it Python raises `RecursionError`.
unfoldable pub part_schema : ℕ → Classes → List String → Part → Result JsonSchema
part_schema zero classes ancestors part = err (runtime_error "RecursionError")
part_schema (suc depth) classes ancestors (of_annotation a) =
    annotation_schema (λ b. part_schema depth classes ancestors (of_annotation b))
      (λ name. part_schema depth classes ancestors (of_model name)) a
part_schema (suc depth) classes ancestors (of_model name) = do
  raise_if (contains ancestors name)
      (type_error "Recursive package models are not supported by the reference generator")
  c ← required name (Dict.lookup name classes)
  parts ←
      properties_of (λ a. part_schema depth classes (ancestors ++ (name ∷ [])) (of_annotation a))
        c.hints c.defaults
  ok (schema_of c parts)

-- `_model_schema`
unfoldable pub model_schema : ℕ → Classes → List String → String → Result JsonSchema
model_schema depth classes ancestors name = part_schema depth classes ancestors (of_model name)

-- `model_json_schema` on a class of the environment.
unfoldable pub model_json_schema : ℕ → Classes → ModelClass → String → Result JsonSchema
model_json_schema depth classes c schema_id = do
  bound ← bind_schema c schema_id
  s ← model_schema depth classes [] c.name
  ok (("$schema", str "https://json-schema.org/draft/2020-12/schema") ∷ ("$id", str schema_id) ∷ s)
