-- ===== src/Packages/Fields.antt =====
-- `validate_author_package`: the classes of a package, and the fields of its models at every depth.
pub mod Shadows
use uenv_design.Base.{
  ℕ, zero, suc, String, ◌<>◌, Bool, true, false, not, ◌&&◌, ◌||◌, Option, none, some,
}
use uenv_design.Base.{List, [], ◌∷◌, ◌++◌, ◌==◌, any, contains, string_eq, if◌then◌else◌}
use uenv_design.Base.Dict
use uenv_design.Base.Dict.{Dict}
use uenv_design.Result.{
  Error, Result, ok, err, value_error, type_error, attribute_error, runtime_error, raise_if, ◌>>=◌,
  ◌>>◌,
}
use uenv_design.Modeling.{
  Datum, str, obj, arr, Items, nil, cons, Attributes, end, attribute, dict_of, ModelClass, Classes,
}
use uenv_design.Modeling.Schema.{model_json_schema, object}
use uenv_design.Strings.{starts_with}
use uenv_design.Packages.Declarations.{
  Declaration, validate_declaration, package_schema_id, shared_prefix,
}

-- `RESERVED_MODEL_FIELDS`
abbrev pub reserved_model_fields : List String
reserved_model_fields =
    "episode_id" ∷ "attempt_id" ∷ "lease" ∷ "schema_ref" ∷ "plan_digest" ∷ "input_digest" ∷ "run_id"
    ∷ "agent" ∷ "backend" ∷ "model" ∷ "tools" ∷ "scorer" ∷ "dataset_package" ∷ "scoring" ∷ "limits"
    ∷ "purpose" ∷ "timeout" ∷ []

-- `SUSPECT_MODEL_FIELDS`
abbrev pub suspect_model_fields : Dict String String
suspect_model_fields = ("allowed_time", "RunSpec.limits.total_timeout_ms") ∷ []

abbrev warning : String → String → String
warning path meaning =
    ((path <> " may duplicate ") <> meaning)
    <> "; automatic validation cannot determine semantic equivalence"

-- The warning about a field, if there is one.
abbrev warned : String → Option String → List String
warned path none = []
warned path (some meaning) = warning path meaning ∷ []

-- `schema.get("properties", {})` and `schema.get("anyOf", [])`
abbrev pub properties_of : Option Datum → Result Attributes
properties_of none = ok end
properties_of (some (obj fields)) = ok fields
properties_of (some v) = err (attribute_error "items")

abbrev pub choices_of : Option Datum → Result Items
choices_of none = ok nil
choices_of (some (arr items)) = ok items
choices_of (some v) = err (type_error "anyOf")

module _ (control : List String) where
  module _ (recur : Datum → String → Result (List String)) where
    -- The loop over the properties of a schema.
    unfoldable pub check_properties : Attributes → String → Result (List String)
    check_properties end path = ok []
    check_properties (attribute name child rest) path = do
      raise_if (contains control name)
          (value_error (((path <> ".") <> name) <> " shadows system fields"))
      inner ← recur child ((path <> ".") <> name)
      others ← check_properties rest path
      ok (
          warned ((path <> ".") <> name) (Dict.lookup name suspect_model_fields)
          ++ (inner ++ others))

    -- `if isinstance(schema.get(keyword), dict)`
    unfoldable pub check_keyword : Option Datum → String → Result (List String)
    check_keyword (some (obj fields)) path = recur (obj fields) (path <> "[]")
    check_keyword _ path = ok []

    -- The loop over `anyOf`.
    unfoldable pub check_choices : Items → String → Result (List String)
    check_choices nil path = ok []
    check_choices (cons child items) path = do
      inner ← recur child path
      others ← check_choices items path
      ok (inner ++ others)

    -- The body of `check_fields`.
    unfoldable pub check_schema : Datum → String → Result (List String)
    check_schema (obj schema) path = do
      properties ← properties_of (Dict.lookup "properties" (dict_of schema))
      first ← check_properties properties path
      items ← check_keyword (Dict.lookup "items" (dict_of schema)) path
      values ← check_keyword (Dict.lookup "additionalProperties" (dict_of schema)) path
      choices ← choices_of (Dict.lookup "anyOf" (dict_of schema))
      last ← check_choices choices path
      ok (first ++ (items ++ (values ++ last)))
    check_schema v path = err (attribute_error "get")

  -- `check_fields`, within Python's limit on nested calls. The result are the warnings.
  unfoldable pub check_fields : ℕ → Datum → String → Result (List String)
  check_fields zero schema path = err (runtime_error "RecursionError")
  check_fields (suc depth) schema path = check_schema (check_fields depth) schema path

-- A class of the package, as `inspect` shows it: its one base, whether it is abstract, and the names
-- that it defines.
pub record PackageClass : Type 0 where
  pub bases : List String
  pub abstract : Bool
  pub own_names : List String

-- A package: its declaration, its classes, and its models by role.
pub record AuthorPackage : Type 0 where
  pub declaration : Declaration
  pub adapter : Option PackageClass
  pub environment : Option PackageClass
  pub scorer : Option PackageClass
  pub models : Dict String ModelClass

-- What the core contract names: the properties of `Limits` and of `GenerationConfig`.
pub record ControlNames : Type 0 where
  pub limits : List String
  pub generation : List String

-- `declaration[key]`, which `validate_declaration` has found to be a text.
abbrev text_value : Option Datum → String
text_value (some (str s)) = s
text_value _ = ""

abbrev pub declared : String → Declaration → String
declared key declaration = text_value (Dict.lookup key declaration)

-- `package_schema_id` of a model of the package.
abbrev pub schema_id_of : AuthorPackage → ModelClass → String
schema_id_of p model =
    package_schema_id (declared "id" p.declaration) (declared "version" p.declaration) model

abbrev only_base : String → List String → Bool
only_base base (b ∷ []) = b == base
only_base base _ = false

unfoldable pub check_class : String → String → Option PackageClass → Result (Unit {0})
check_class role base none = ok tt
check_class role base (some c) =
    raise_if (not (only_base base c.bases) || c.abstract)
      (type_error (((role <> " must be a concrete direct subclass of ") <> base)))

unfoldable pub check_environment : Option PackageClass → Result (Unit {0})
check_environment none = ok tt
check_environment (some c) =
    raise_if (contains c.own_names "step" || contains c.own_names "parse_action")
      (value_error "Define operations in tools.py; Environment has no step or parser")

-- `sorted(MODEL_ROLES)`, with whether the role is a config.
abbrev pub sorted_roles : List (String × Bool)
sorted_roles =
    ("environment_config", true)
    ∷ ("input", false)
    ∷ ("observation", false)
    ∷ ("private_data", false)
    ∷ ("scorer_config", true)
    ∷ ("state", false)
    ∷ []

-- `control_fields`
unfoldable pub control_fields : ControlNames → Bool → List String
control_fields names config =
    reserved_model_fields ++ (names.limits ++ (if config then names.generation else []))

module _ (depth : ℕ) (classes : Classes) (names : ControlNames) (p : AuthorPackage) where
  -- The check of the model of a role.
  unfoldable pub check_model : Bool → Option ModelClass → Result (List String)
  check_model config none = ok []
  check_model config (some model) =
      let id = schema_id_of p model in
      if starts_with shared_prefix id
      then ok []
      else model_json_schema depth classes model id >>= λ schema.
          check_fields (control_fields names config) depth (object schema) model.name

  unfoldable pub check_roles : List (String × Bool) → Result (List String)
  check_roles [] = ok []
  check_roles ((role, config) ∷ roles) = do
    warnings ← check_model config (Dict.lookup role p.models)
    rest ← check_roles roles
    ok (warnings ++ rest)

  -- `validate_author_package`
  unfoldable pub validate_author_package : Result (List String)
  validate_author_package = do
    validate_declaration p.declaration
    check_class "adapter" "DatasetAdapter" p.adapter
    check_class "environment" "Environment" p.environment
    check_class "scorer" "Scorer" p.scorer
    check_environment p.environment
    check_roles sorted_roles
