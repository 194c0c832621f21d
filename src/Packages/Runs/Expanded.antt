-- ===== src/Packages/Runs/Expanded.antt =====
-- What an expanded run is.
use uenv_design.Base.{String, ◌≡◌, refl, ap, ◌∙◌, false, some, List}
use uenv_design.Base.{[], ◌∷◌, contains, string_eq}
use uenv_design.Result.{ok, ◌>>=◌}
use uenv_design.Result.Holds.{
  Holds, Holds-return, Holds-raise, Holds-bind, Holds-reject, Holds-check, Holds-weaken,
  Holds-required,
}
use uenv_design.Value.{Value, str, arr, obj, Items, nil, cons, Fields}
use uenv_design.SchemaRegistry.{key_of}
use uenv_design.SchemaRegistry.Defaults.{set_key, object_of}
use uenv_design.SchemaRegistry.Defaults.Given.{key_of-set_key, key_of-set_key_other}
use uenv_design.Packages.{Release, Manifest, Catalog, lookup_tool}
use uenv_design.Packages.Runs.{
  RunRegistry, value_at, has, given_or_empty, select_for, config_envelope, expand_environment,
  expand_scoring, expand_component,
}
use uenv_design.Packages.Runs.Tools.{
  reference_of, name_of, items_of, expand_tool, expand_tools, expand_run_tools, expand_run,
}
use uenv_design.Packages.Runs.Leaves.{Leaves}
use uenv_design.Packages.Runs.Leaves.{
  expand_environment-Leaves, expand_scoring-Leaves, expand_component-Leaves,
}

-- Every member is an object with a name that no member before it has.
abbrev pub Named : List String → Items → Type 0
Named names nil = Unit
Named names (cons v items) =
    (fields : Fields) × (name : String) × (v ≡ obj fields)
    × (key_of "name" fields ≡ some (str name))
    × (contains names name ≡ false)
    × Named (name ∷ names) items

pub record IsExpanded (registry : RunRegistry) (run : Fields) : Type 0 where
  pub validated : registry.validate "RunSpec" (obj run) ≡ ok tt
  pub version : key_of "schema_version" run ≡ some (str "vnext.3")
  pub tools : Items
  pub has_tools : key_of "tools" run ≡ some (arr tools)
  pub named : Named [] tools

name_of-str : (v : Value) → Holds (λ name. v ≡ str name) (name_of v)
name_of-str (str name) = Holds-return name refl
name_of-str v = Holds-raise _

module _ (registry : RunRegistry) (catalog : Catalog) (agent : Release)
    (manifests : List Manifest) where
  expand_tool-name :
      (tool : Fields)
      → Holds
          (λ next. key_of "name" next ≡ key_of "name" tool)
          (expand_tool registry catalog agent manifests tool)
  unfolding expand_tool string_eq
  expand_tool-name tool =
      Holds-bind (value_at "implementation" tool >>= reference_of) _ λ reference _.
        Holds-bind (lookup_tool catalog reference agent manifests) _ λ found _.
          Holds-bind
            (config_envelope registry found.entry.config_schema (given_or_empty "config" tool)) _
            λ config _. Holds-return _ (key_of-set_key_other "name" "config" config tool refl)

  named_by :
      (tool : Fields)
      → Holds (λ name. key_of "name" tool ≡ some (str name)) (value_at "name" tool >>= name_of)
  named_by tool =
      Holds-required "name" (key_of "name" tool) _
        λ v e. Holds-weaken (name_of v) (λ name same. e ∙ ap some same) (name_of-str v)

  expand_tools-Named :
      (names : List String) (items : Items)
      → Holds (Named names) (expand_tools registry catalog agent manifests names items)
  unfolding expand_tools
  expand_tools-Named names nil = Holds-return nil tt
  expand_tools-Named names (cons v items) = Holds-bind (object_of v) _ λ tool _.
      Holds-bind (value_at "name" tool >>= name_of) _ λ name e.
        Holds-reject (contains names name) _ _ λ new.
          Holds-bind (expand_tool registry catalog agent manifests tool) _ λ expanded f.
            Holds-bind (expand_tools registry catalog agent manifests (name ∷ names) items) _
              λ rest g. Holds-return (cons (obj expanded) rest) (
                expanded,
                name,
                refl,
                (expand_tool-name tool).at expanded f ∙ (named_by tool).at name e,
                new,
                (expand_tools-Named (name ∷ names) items).at rest g,
              )

module _ (registry : RunRegistry) (manifests : List Manifest) (catalog : Catalog) where
  -- The tools are named, and the version is what it was.
  abbrev WithTools : Fields → Fields → Type 0
  WithTools run next =
      Leaves "schema_version" run next
      × ((tools : Items) × (key_of "tools" next ≡ some (arr tools)) × Named [] tools)

  expand_run_tools-Named :
      (run : Fields) → Holds (WithTools run) (expand_run_tools registry manifests catalog run)
  unfolding expand_run_tools string_eq
  expand_run_tools-Named run = Holds-bind (value_at "tools" run >>= items_of) _ λ items _.
      Holds-bind (value_at "agent" run >>= object_of) _ λ component _.
        Holds-bind (value_at "implementation" component >>= reference_of) _ λ agent _.
          Holds-bind (expand_tools registry catalog agent manifests [] items) _ λ tools e.
            Holds-return _ (
              key_of-set_key_other "schema_version" "tools" (arr tools) run refl,
              (
                tools,
                key_of-set_key "tools" (arr tools) run,
                (expand_tools-Named registry catalog agent manifests [] items).at tools e,
              ),
            )

  -- What `expand_run` returns is a valid `RunSpec` of the version of this boundary, and the names of its
  -- tools are pairwise different, whatever version, defaults and tools the public run and the registry
  -- gave.
  pub expand_run-IsExpanded :
      (public run : Fields)
      → expand_run registry manifests catalog public ≡ ok run
      → IsExpanded registry run
  unfolding expand_run string_eq
  expand_run-IsExpanded public run =
      (Holds-reject (has "schema_version" public) _ _ λ unversioned.
          Holds-bind (registry.apply_defaults "RunSpec" (obj public) >>= object_of) _ λ filled _.
            let start = set_key "schema_version" (str "vnext.3") filled in
            Holds-reject (has "scorer" start) _ _ λ unselected.
              Holds-bind (value_at "dataset_package" start) _ λ selected _.
                Holds-bind (select_for manifests selected "environment") _ λ manifest _.
                  Holds-bind (expand_environment registry manifest start) _ λ a ea.
                    Holds-bind (expand_scoring registry manifests manifest selected a) _ λ b eb.
                      Holds-bind (expand_component registry catalog "agent" b) _ λ c ec.
                        Holds-bind (expand_component registry catalog "backend" c) _ λ d ed.
                          Holds-bind (expand_run_tools registry manifests catalog d) _ λ e ee.
                            Holds-check (registry.validate "RunSpec" (obj e)) _ λ valid.
                              let (version, (tools, has_tools, named)) =
                                (expand_run_tools-Named d).at e ee in
                              Holds-return {P = IsExpanded registry} e (record {
                                validated = valid;
                                version =
                                    version
                                    ∙ (expand_component-Leaves registry catalog "backend" c refl).at
                                        d ed
                                    ∙ (expand_component-Leaves registry catalog "agent" b refl).at c
                                        ec
                                    ∙ (expand_scoring-Leaves registry manifests manifest selected
                                          a).at
                                        b eb
                                    ∙ (expand_environment-Leaves registry manifest start).at a ea
                                    ∙ key_of-set_key "schema_version" (str "vnext.3") filled;
                                tools = tools;
                                has_tools = has_tools;
                                named = named;
                              })).at
        run
