-- ===== src/Packages/Runs/Tools.antt =====
-- The tools of a run, and `expand_run` as a whole.
use uenv_design.Base.{String, none, some, List, [], ◌∷◌}
use uenv_design.Base.{contains, string_eq}
use uenv_design.Result.{Result, ok, err, value_error, type_error, raise_if, ◌>>=◌, ◌>>◌}
use uenv_design.Value.{Value, str, arr, obj, Items, nil, cons, Fields}
use uenv_design.SchemaRegistry.Defaults.{set_key, object_of}
use uenv_design.Packages.{Release, Manifest, Catalog, lookup_tool}
use uenv_design.Packages.Runs.{
  RunRegistry, value_at, has, given_or_empty, release_of, select_for, config_envelope,
  expand_environment, expand_scoring, expand_component,
}

-- A reference of a tool, or the agent's, where id and version are texts.
abbrev pub reference_of : Value → Result Release
reference_of v = elim (release_of v) [
  | some release ↦ ok release
  | none ↦ err (value_error "Unknown tool component")
]

-- `tool["name"] in names`
abbrev pub name_of : Value → Result String
name_of (str name) = ok name
name_of v = err (type_error "tool name")

abbrev pub items_of : Value → Result Items
items_of (arr items) = ok items
items_of v = err (type_error "tools")

module _ (registry : RunRegistry) (catalog : Catalog) (agent : Release)
    (manifests : List Manifest) where
  -- The loop body for a tool whose name is new.
  unfoldable pub expand_tool : Fields → Result Fields
  expand_tool tool = do
    reference ← value_at "implementation" tool >>= reference_of
    found ← lookup_tool catalog reference agent manifests
    config ← config_envelope registry found.entry.config_schema (given_or_empty "config" tool)
    ok (set_key "config" config tool)

  -- The loop over the tools, with the names before.
  unfoldable pub expand_tools : List String → Items → Result Items
  expand_tools names nil = ok nil
  expand_tools names (cons v items) = do
    tool ← object_of v
    name ← value_at "name" tool >>= name_of
    raise_if (contains names name) (value_error "DUPLICATE_TOOL_NAME")
    expanded ← expand_tool tool
    rest ← expand_tools (name ∷ names) items
    ok (cons (obj expanded) rest)

module _ (registry : RunRegistry) (manifests : List Manifest) (catalog : Catalog) where
  -- The tools of a run whose agent is known.
  unfoldable pub expand_run_tools : Fields → Result Fields
  expand_run_tools run = do
    items ← value_at "tools" run >>= items_of
    component ← value_at "agent" run >>= object_of
    agent ← value_at "implementation" component >>= reference_of
    tools ← expand_tools registry catalog agent manifests [] items
    ok (set_key "tools" (arr tools) run)

  -- `expand_run`
  unfoldable pub expand_run : Fields → Result Fields
  expand_run public = do
    raise_if (has "schema_version" public)
        (value_error "schema_version is generated by the submission boundary")
    filled ← registry.apply_defaults "RunSpec" (obj public) >>= object_of
    let run = set_key "schema_version" (str "vnext.3") filled
    raise_if (has "scorer" run)
        (value_error "Select dataset_package once; scorer selection is forbidden")
    selected ← value_at "dataset_package" run
    manifest ← select_for manifests selected "environment"
    with_environment ← expand_environment registry manifest run
    scored ← expand_scoring registry manifests manifest selected with_environment
    with_agent ← expand_component registry catalog "agent" scored
    with_backend ← expand_component registry catalog "backend" with_agent
    expanded ← expand_run_tools with_backend
    registry.validate "RunSpec" (obj expanded)
    ok expanded
