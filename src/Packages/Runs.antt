-- ===== src/Packages/Runs.antt =====
-- `expand_run`: a public run file becomes the `RunSpec` of the wire. It is a JSON object throughout, and
-- the registry is what fills defaults and validates.
pub mod Leaves
pub mod Tools
pub mod Expanded
use uenv_design.Base.{
  ℕ, String, ◌<>◌, Bool, true, false, not, ◌&&◌, ◌||◌, Option, none, some, List, [], ◌∷◌,
}
use uenv_design.Base.{◌==◌, all, contains, string_eq, if◌then◌else◌}
use uenv_design.Base.Dict
use uenv_design.Base.Dict.{Dict}
use uenv_design.Result.{Error, Result, ok, err, value_error, raise_if, required, ◌>>=◌, ◌>>◌}
use uenv_design.Value.{Value, bool, str, obj, Fields, field, end}
use uenv_design.SchemaRegistry.{key_of}
use uenv_design.SchemaRegistry.Defaults.{set_key, object_of}
use uenv_design.Packages.{
  Release, Manifest, Component, tool, agent, other, Catalog, select_manifest,
}

-- What a submission asks of the registry.
pub record RunRegistry : Type 0 where
  pub apply_defaults : String → Value → Result Value
  pub validate : String → Value → Result (Unit {0})

-- `fields[key]`
abbrev pub value_at : String → Fields → Result Value
value_at key fields = required key (key_of key fields)

-- `key in fields`
abbrev pub has : String → Fields → Bool
has key fields = elim (key_of key fields) [ none ↦ false | some v ↦ true ]

-- `fields.get(key, {})`
abbrev pub given_or_empty : String → Fields → Value
given_or_empty key fields = elim (key_of key fields) [ none ↦ obj end | some v ↦ v ]

abbrev pub keys_of : Fields → List String
keys_of end = []
keys_of (field k v rest) = k ∷ keys_of rest

-- A component's id and version, where both are texts.
abbrev release_from : Option Value → Option Value → Option Release
release_from (some (str id)) (some (str version)) = some (record { id = id; version = version })
release_from _ _ = none

unfoldable pub release_of : Value → Option Release
release_of (obj fields) = release_from (key_of "id" fields) (key_of "version" fields)
release_of v = none

-- `select_manifest`: a selection without an id or a version matches nothing.
unfoldable pub select_for : List Manifest → Value → String → Result Manifest
select_for manifests selected role = elim (release_of selected) [
  | some release ↦ select_manifest manifests release role
  | none ↦ err (value_error ("Expected one registered manifest for selected " <> role))
]

-- `entry["version"] == version`
abbrev str_is : String → Value → Bool
str_is s (str t) = s == t
str_is s v = false

-- `scoring`, if it says whether it is enabled.
abbrev enabled_of : Fields → Option Value → Result (Fields × Bool)
enabled_of scoring (some (bool b)) = ok (scoring, b)
enabled_of scoring _ = err (value_error "scoring.enabled must be an explicit boolean")

abbrev scoring_of : Option Value → Result (Fields × Bool)
scoring_of (some (obj scoring)) = enabled_of scoring (key_of "enabled" scoring)
scoring_of _ = err (value_error "scoring.enabled must be an explicit boolean")

-- The role, the version and the config schema of an entry of the catalog.
abbrev facts_of : Component → String × String × String
facts_of (tool version entry) = ("tool", version, entry.config_schema)
facts_of (agent version config exports) = ("agent", version, config)
facts_of (other role version config) = (role, version, config)

abbrev entry_of : Option Value → Catalog → Option Component
entry_of (some (str id)) catalog = Dict.lookup id catalog
entry_of _ catalog = none

abbrev unknown : String → Error
unknown role = value_error (("Unknown " <> role) <> " component")

-- Whether the entry has the role and the version, and its config schema.
abbrev checked_version : String → String → String → Value → Result String
checked_version role its_version config version =
    if str_is its_version version then ok config else err (unknown role)

abbrev config_of : String → Fields → Option Component → Result String
config_of role implementation none = err (unknown role)
config_of role implementation (some c) =
    let (its_role, its_version, config) = facts_of c in
    if its_role == role
    then value_at "version" implementation >>= checked_version role its_version config
    else err (unknown role)

module _ (registry : RunRegistry) where
  -- `config_envelope`
  unfoldable pub config_envelope : String → Value → Result Value
  config_envelope schema_ref value = do
    filled ← registry.apply_defaults schema_ref value
    registry.validate schema_ref filled
    ok (obj (field "schema_ref" (str schema_ref) (field "data" filled end)))

  -- `run["environment"] = ...`
  unfoldable pub expand_environment : Manifest → Fields → Result Fields
  expand_environment manifest run = do
    schema_ref ← required "environment" (Dict.lookup "environment" manifest.config_schemas)
    config ← config_envelope schema_ref (given_or_empty "environment" run)
    ok (set_key "environment" config run)

  -- The config of an enabled scoring.
  unfoldable pub expand_scorer : List Manifest → Manifest → Value → Fields → Fields → Result Fields
  expand_scorer manifests manifest selected scoring run = do
    scorer ← select_for manifests selected "scorer"
    schema_ref ← required "scorer" (Dict.lookup "scorer" manifest.config_schemas)
    config ← config_envelope schema_ref (given_or_empty "config" scoring)
    ok (set_key "scoring" (obj (set_key "config" config scoring)) run)

  -- What `enabled` decides.
  abbrev settle_scoring : List Manifest → Manifest → Value → Fields → Fields → Bool → Result Fields
  settle_scoring manifests manifest selected scoring run true =
      expand_scorer manifests manifest selected scoring run
  settle_scoring manifests manifest selected scoring run false =
      if has "config" scoring
      then err (value_error "scoring.config is forbidden when scoring is disabled")
      else ok run

  -- The part on `scoring`.
  unfoldable pub expand_scoring : List Manifest → Manifest → Value → Fields → Result Fields
  expand_scoring manifests manifest selected run = do
    found ← scoring_of (key_of "scoring" run)
    raise_if (not (all (contains ("enabled" ∷ "config" ∷ [])) (keys_of found.0)))
        (value_error "scoring only accepts enabled and config; scorer selection is forbidden")
    settle_scoring manifests manifest selected found.0 run found.1

  -- The loop body for a role: `agent` or `backend`.
  unfoldable pub expand_component : Catalog → String → Fields → Result Fields
  expand_component catalog role run = do
    component ← value_at role run >>= object_of
    implementation ← value_at "implementation" component >>= object_of
    id ← value_at "id" implementation
    schema_ref ← config_of role implementation (entry_of (some id) catalog)
    config ← config_envelope schema_ref (given_or_empty "config" component)
    ok (set_key role (obj (set_key "config" config component)) run)
