-- ===== src/Tests/RunFiles.antt =====
-- A run file of two tools, its defaults, and the fields of a model.
use uenv_design.Base.{String, ◌≡◌, refl, false, none, [], ◌∷◌, string_eq, nat_eq, contains}
use uenv_design.Base.{inl}
use uenv_design.Result.{ok, err, value_error}
use uenv_design.Value.{
  Value, null, bool, int, pos, str, arr, obj, Items, nil, cons, Fields, field, end,
}
use uenv_design.Modeling.{Datum, Attributes}
use uenv_design.Modeling
use uenv_design.SchemaRegistry.Defaults.{
  set_key, walk, target_of, follow, fill_key, fill_properties, fill_value, expand, schema_named,
  apply_defaults,
}
use uenv_design.SchemaRegistry.Defaults.Extensions.{Extends, apply_defaults-Extends}
use uenv_design.Strings.{partition, split_on, lstrip_char, replace_pair}
use uenv_design.Packages.{
  ToolEntry, agent, tool, other, Catalog, Manifest, lookup_tool, select_manifest, find_native,
}
use uenv_design.Packages.Runs.{
  RunRegistry, release_of, select_for, config_envelope, expand_environment, expand_scoring,
  expand_component,
}
use uenv_design.Packages.Runs.Tools.{expand_tool, expand_tools, expand_run_tools, expand_run}
use uenv_design.Packages.Runs.Expanded.{IsExpanded, expand_run-IsExpanded}
use uenv_design.Packages.Fields.{
  check_properties, check_keyword, check_choices, check_schema, check_fields,
}
use uenv_design.Packages.Fields.Shadows.{FieldOf, property, item, check_fields-Clear}

-- A core with one definition: an object with a seed that defaults to 0 and a nested object.
abbrev seed_schema : Value
seed_schema = obj (field "type" (str "integer") (field "default" (int (pos 0)) end))

abbrev limits_schema : Value
limits_schema = obj (
    field "properties" (obj (field "turns" (obj (field "default" (int (pos 8)) end)) end))
      (field "default" (obj end) end))

abbrev run_schema : Value
run_schema = obj (
    field "properties"
      (obj (
        field "seed" seed_schema (
          field "limits" (obj (field "$ref" (str "#/$defs/Limits") (field "default" (obj end) end)))
            end)))
      end)

abbrev core : Value
core = obj (field "$defs" (obj (field "RunSpec" run_schema (field "Limits" limits_schema end))) end)

abbrev given : Value
given = obj (field "seed" null end)

abbrev filled : Value
filled = obj (field "seed" null (field "limits" (obj (field "turns" (int (pos 8)) end)) end))

filled_run : apply_defaults "urn:core" core [] 9 "RunSpec" given ≡ ok filled
unfolding apply_defaults schema_named expand follow target_of walk fill_value fill_properties
    fill_key set_key partition split_on lstrip_char replace_pair string_eq nat_eq
filled_run = refl

apply_defaults-Extends_example : Extends given filled
apply_defaults-Extends_example =
    apply_defaults-Extends "urn:core" core [] 9 "RunSpec" given filled filled_run

abbrev registry : RunRegistry
registry = record { apply_defaults = λ name v. ok v; validate = λ name v. ok tt }

abbrev entry : ToolEntry
entry = record {
  execution_scope = "agent_state";
  required_capabilities = [];
  config_schema = "uenv://schemas/vnext/EmptyConfig";
}

abbrev catalog : Catalog
catalog =
    ("tools/calculator", tool "1" entry)
    ∷ ("agents/plain", agent "1" "urn:plain" [])
    ∷ ("backends/process", other "backend" "1" "urn:process")
    ∷ []

abbrev manifest : Manifest
manifest = record {
  release = record { id = "datasets/d"; version = "1" };
  entrypoints = ("environment", "d.environment:D") ∷ [];
  provided_tools = [];
  config_schemas = ("environment", "urn:environment") ∷ [];
  task_schema = "urn:task";
  private_schema = none;
  internet_access = false;
  required_capabilities = [];
  image = none;
}

abbrev reference : String → Value
reference id = obj (field "id" (str id) (field "version" (str "1") end))

abbrev selected : String → Value
selected id = obj (field "implementation" (reference id) end)

abbrev tool_named : String → Value
tool_named name =
    obj (field "name" (str name) (field "implementation" (reference "tools/calculator") end))

abbrev run_with : Items → Fields
run_with tools = field "dataset_package" (reference "datasets/d") (
    field "scoring" (obj (field "enabled" (bool false) end)) (
      field "agent" (selected "agents/plain")
        (field "backend" (selected "backends/process") (field "tools" (arr tools) end))))

abbrev configured : String → Value → Value
configured schema_ref v = obj (field "schema_ref" (str schema_ref) (field "data" v end))

abbrev with_config : Fields → String → Value
with_config fields schema_ref = obj (set_key "config" (configured schema_ref (obj end)) fields)

abbrev expanded : Fields
expanded = field "dataset_package" (reference "datasets/d") (
    field "scoring" (obj (field "enabled" (bool false) end)) (
      field "agent"
        (with_config (field "implementation" (reference "agents/plain") end) "urn:plain")
        (field "backend"
          (with_config (field "implementation" (reference "backends/process") end) "urn:process")
          (field "tools"
            (arr (
              cons
                (with_config
                  (field "name" (str "a")
                    (field "implementation" (reference "tools/calculator") end))
                  "uenv://schemas/vnext/EmptyConfig")
                nil))
            (field "schema_version" (str "vnext.3")
              (field "environment" (configured "urn:environment" (obj end)) end))))))

accepted :
    expand_run registry (manifest ∷ []) catalog (run_with (cons (tool_named "a") nil)) ≡ ok expanded
unfolding expand_run release_of select_for select_manifest expand_environment expand_scoring
    expand_component config_envelope expand_run_tools expand_tools expand_tool lookup_tool
    find_native set_key string_eq
accepted = refl

repeated :
    expand_run registry
      (manifest ∷ [])
      catalog
      (run_with (cons (tool_named "a") (cons (tool_named "a") nil)))
    ≡ err (value_error "DUPLICATE_TOOL_NAME")
unfolding expand_run release_of select_for select_manifest expand_environment expand_scoring
    expand_component config_envelope expand_run_tools expand_tools expand_tool lookup_tool
    find_native set_key string_eq
repeated = refl

expand_run-IsExpanded_example : IsExpanded registry expanded
expand_run-IsExpanded_example =
    expand_run-IsExpanded registry (manifest ∷ []) catalog (run_with (cons (tool_named "a") nil))
      expanded accepted

-- A schema with an array of objects that have a field `note`.
abbrev noted : Datum
noted = Modeling.obj (
    Modeling.attribute "properties"
      (Modeling.obj (Modeling.attribute "note" (Modeling.obj Modeling.end) Modeling.end))
      Modeling.end)

abbrev notes : Attributes
notes = Modeling.attribute "items" noted Modeling.end

checked : check_fields ("agent" ∷ []) 9 (Modeling.obj notes) "Notes" ≡ ok []
unfolding check_fields check_schema check_properties check_keyword check_choices string_eq
checked = refl

note_inside : FieldOf "note" (Modeling.obj notes)
unfolding string_eq
note_inside =
    item notes
      (Modeling.attribute "properties"
        (Modeling.obj (Modeling.attribute "note" (Modeling.obj Modeling.end) Modeling.end))
        Modeling.end)
      refl (property _ _ (Modeling.obj Modeling.end) refl (inl (refl, refl)))

check_fields-Clear_example : contains {A = String} ("agent" ∷ []) "note" ≡ false
check_fields-Clear_example =
    check_fields-Clear ("agent" ∷ []) 9 (Modeling.obj notes) "Notes" [] checked "note" note_inside
