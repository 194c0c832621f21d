-- ===== src/Tools/Declare.antt =====
-- The decorator `tool`: what a Python function declares. The names of its parameters do not begin with two
-- underscores, which `_model_hints` would leave out.
pub mod Parameters
use uenv_design.Base.{
  ℕ, String, Bool, true, false, not, Option, none, some, List, [], ◌∷◌, ◌==◌, ◌<>◌,
}
use uenv_design.Base.{contains, string_eq, if◌then◌else◌}
use uenv_design.Base.Dict
use uenv_design.Base.Dict.{Dict}
use uenv_design.Result.{Error, Result, ok, err, value_error, type_error, validation_error, raise_if}
use uenv_design.Result.{◌>>=◌, ◌>>◌}
use uenv_design.Modeling.{Datum, Annotation, ModelClass, Classes}
use uenv_design.Modeling.Schema.{JsonSchema, model_json_schema}

-- `inspect.Parameter.kind`
pub data Kind : Type 0 where
  positional_only positional_or_keyword var_positional keyword_only var_keyword : Kind

pub record Parameter : Type 0 where
  pub name : String
  pub kind : Kind
  pub default_value : Option Datum

-- The type of the result: `Observation`, or what its model is made of.
pub data ReturnHint : Type 0 where
  observation : ReturnHint
  value_of : Annotation → ReturnHint

-- A function as `inspect.signature` and `get_type_hints` see it, and the decorator's arguments.
pub record Function : Type 0 where
  pub name : String
  pub module_name : String
  pub doc : Option String
  pub parameters : List Parameter
  pub hints : Dict String Annotation
  pub return_hint : Option ReturnHint
  pub execution_scope : String
  pub side_effect : String
  pub required_capabilities : List String

-- The `ToolDefinition`, with the schema of the result where there is one.
pub record DeclaredTool : Type 0 where
  pub description : String
  pub input_schema : JsonSchema
  pub output_schema : Option JsonSchema
  pub entrypoint : String
  pub execution_scope : String
  pub required_capabilities : List String
  pub side_effect : String

abbrev pub is_keyword_only : Kind → Bool
is_keyword_only keyword_only = true
is_keyword_only k = false

abbrev pub is_named : Kind → Bool
is_named positional_or_keyword = true
is_named keyword_only = true
is_named k = false

abbrev pub hint_of : Option Annotation → Result Annotation
hint_of none = err (type_error "Tool parameter needs a type")
hint_of (some a) = ok a

abbrev pub note : String → Option Datum → Dict String Datum → Dict String Datum
note name none defaults = defaults
note name (some v) defaults = (name, v) ∷ defaults

-- The loop over the parameters: their annotations and their defaults.
unfoldable pub collect :
    Dict String Annotation → List Parameter → Result (Dict String Annotation × Dict String Datum)
collect hints [] = ok ([], [])
collect hints (p ∷ ps) =
    let rest = collect hints ps in
    if p.name == "context"
    then (raise_if (not (is_keyword_only p.kind)) (type_error "Tool context must be keyword-only")
        >> rest)
    else (do
      raise_if (not (is_named p.kind)) (type_error "Tool parameters must have explicit names")
      a ← hint_of (Dict.lookup p.name hints)
      more ← rest
      ok ((p.name, a) ∷ more.0, note p.name p.default_value more.1))

abbrev description_of : Option String → String → String
description_of none name = name
description_of (some doc) name = if doc == "" then name else doc

abbrev class_of : String → Dict String Annotation → Dict String Datum → ModelClass
class_of name hints defaults = record {
  name = name;
  doc = "";
  hints = hints;
  defaults = defaults;
  schema_id = none;
}

abbrev output_schema_of :
    ℕ → Classes → String → String → Option ReturnHint → Result (Option JsonSchema)
output_schema_of depth classes name id none = err (type_error "Tool return needs a type")
output_schema_of depth classes name id (some observation) = ok none
output_schema_of depth classes name id (some (value_of a)) = do
  s ←
      model_json_schema depth classes (class_of (name <> "Return") (("value", a) ∷ []) [])
        (id <> ":return")
  ok (some s)

abbrev return_hints : Option ReturnHint → Dict String Annotation
return_hints (some (value_of a)) = ("value", a) ∷ []
return_hints r = []

abbrev schema_id_of : Function → String
schema_id_of f = "urn:uenv:tool:" <> (f.module_name <> (":" <> f.name))

-- `tool`, with the check of a schema, the limit on nested models, and the classes: the class made of the
-- parameters is registered among them under its name.
unfoldable pub declare : (JsonSchema → Bool) → ℕ → Classes → Function → Result DeclaredTool
declare valid_schema depth classes f = do
  raise_if (not (contains ("sandbox" ∷ "agent_state" ∷ "external_service" ∷ []) f.execution_scope))
      (value_error "INVALID_TOOL_EXECUTION_SCOPE")
  raise_if (not (contains ("read_only" ∷ "idempotent" ∷ "non_idempotent" ∷ []) f.side_effect))
      (value_error "INVALID_TOOL_SIDE_EFFECT")
  collected ← collect f.hints f.parameters
  let arguments = class_of (f.name <> "Arguments") collected.0 collected.1
  schema ←
      model_json_schema depth ((arguments.name, arguments) ∷ classes) arguments (schema_id_of f)
  raise_if (not (valid_schema schema)) (validation_error "schema")
  output ←
      output_schema_of depth
        ((f.name <> "Return", class_of (f.name <> "Return") (return_hints f.return_hint) [])
          ∷ classes)
        f.name (schema_id_of f) f.return_hint
  ok (record {
    description = description_of f.doc f.name;
    input_schema = schema;
    output_schema = output;
    entrypoint = f.module_name <> (":" <> f.name);
    execution_scope = f.execution_scope;
    required_capabilities = f.required_capabilities;
    side_effect = f.side_effect;
  })
