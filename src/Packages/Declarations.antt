-- ===== src/Packages/Declarations.antt =====
-- `validate_declaration` and `package_schema_id`: what a `dataset.yaml` may say.
use uenv_design.Base.{String, ◌<>◌, Bool, true, false, not, ◌&&◌, Option, none, some, List, [], ◌∷◌}
use uenv_design.Base.{◌==◌, all, contains, length, nat_eq, string_eq, if◌then◌else◌}
use uenv_design.Base.Dict
use uenv_design.Base.Dict.{Dict}
use uenv_design.Result.{Result, value_error, raise_if, ◌>>◌}
use uenv_design.Modeling.{Datum, bool, str, arr, obj, Items, nil, cons, end, dict_of, ModelClass}
use uenv_design.Strings.{split_on, starts_with}

-- The object of a `dataset.yaml`.
abbrev pub Declaration : Type 0
Declaration = Dict String Datum

-- `ALLOWED_DECLARATION_FIELDS`
abbrev pub allowed_declaration_fields : List String
allowed_declaration_fields =
    "id" ∷ "version" ∷ "entrypoints" ∷ "models" ∷ "internet_access" ∷ "required_capabilities"
    ∷ "runtime" ∷ []

-- `MODEL_ROLES`
abbrev pub model_roles : List String
model_roles =
    "input" ∷ "private_data" ∷ "environment_config" ∷ "scorer_config" ∷ "observation" ∷ "state" ∷ []

abbrev pub entry_roles : List String
entry_roles = "dataset_adapter" ∷ "environment" ∷ "scorer" ∷ []

-- `isinstance(value, str) and value`
abbrev pub named : Datum → Bool
named (str s) = not (s == "")
named v = false

abbrev named_field : Option Datum → Bool
named_field none = false
named_field (some v) = named v

-- `module:Class`
unfoldable pub is_reference : String → Bool
is_reference s = length (split_on 58 s) == 2 && all (λ part. not (part == "")) (split_on 58 s)

abbrev pub reference : Datum → Bool
reference (str s) = is_reference s
reference v = false

-- `entries`
unfoldable pub entries_ok : Datum → Bool
entries_ok (obj entries) =
    contains (Dict.keys (dict_of entries)) "dataset_adapter"
    && contains (Dict.keys (dict_of entries)) "environment"
    && all (contains entry_roles) (Dict.keys (dict_of entries))
    && all reference (Dict.values (dict_of entries))
entries_ok v = false

abbrev pub is_bool : Datum → Bool
is_bool (bool b) = true
is_bool v = false

-- `len(set(items)) == len(items)`, with the texts before.
abbrev pub unique_texts : List String → Items → Bool
unique_texts before nil = true
unique_texts before (cons (str s) items) =
    not (s == "") && not (contains before s) && unique_texts (s ∷ before) items
unique_texts before (cons v items) = false

unfoldable pub capabilities_ok : Datum → Bool
capabilities_ok (arr items) = unique_texts [] items
capabilities_ok v = false

unfoldable pub models_ok : Datum → Bool
models_ok (obj models) =
    contains (Dict.keys (dict_of models)) "input"
    && all (contains model_roles) (Dict.keys (dict_of models))
    && all named (Dict.values (dict_of models))
models_ok v = false

-- `declaration.get(key, default)`
abbrev pub get : String → Datum → Declaration → Datum
get key default declaration = elim (Dict.lookup key declaration) [ none ↦ default | some v ↦ v ]

-- `key in value`, for an object.
abbrev pub has_key : String → Datum → Bool
has_key key (obj fields) = contains (Dict.keys (dict_of fields)) key
has_key key v = false

-- `validate_declaration`
unfoldable pub validate_declaration : Declaration → Result (Unit {0})
validate_declaration d = do
  raise_if (not (all (contains allowed_declaration_fields) (Dict.keys d)))
      (value_error "Unknown dataset.yaml fields")
  raise_if (not (named_field (Dict.lookup "id" d)))
      (value_error "dataset.yaml id must be a non-empty string")
  raise_if (not (named_field (Dict.lookup "version" d)))
      (value_error "dataset.yaml version must be a non-empty string")
  raise_if (not (entries_ok (get "entrypoints" (obj end) d)))
      (value_error "entrypoints require dataset_adapter and environment")
  raise_if (not (is_bool (get "internet_access" (bool false) d)))
      (value_error "internet_access must be a boolean")
  raise_if (not (capabilities_ok (get "required_capabilities" (arr nil) d)))
      (value_error "required_capabilities must be unique non-empty strings")
  raise_if (not (models_ok (get "models" (obj end) d)))
      (value_error "Unknown dataset.yaml model roles")
  raise_if
      (has_key "scorer_config" (get "models" (obj end) d)
        && not (has_key "scorer" (get "entrypoints" (obj end) d)))
      (value_error "scorer_config requires a scorer entrypoint")

-- `uenv://packages/{id}/{version}/{name}`
abbrev pub package_uri : String → String → String → String
package_uri id version name = (((("uenv://packages/" <> id) <> "/") <> version) <> "/") <> name

abbrev pub shared_prefix : String
shared_prefix = "uenv://schemas/vnext/"

-- `package_schema_id`, by the id and the version that the package declares.
unfoldable pub package_schema_id : String → String → ModelClass → String
package_schema_id id version model = elim model.schema_id [
  | none ↦ package_uri id version model.name
  | some existing ↦
      if starts_with shared_prefix existing then existing else package_uri id version model.name
]
