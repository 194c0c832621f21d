-- ===== src/Packages/Runs/Leaves.antt =====
-- The keys of a run that a step of `expand_run` (reference/package_loader.py) leaves alone.
use uenv_design.Base.{String, ◌≡◌, refl, Bool, true, false, all, some, List}
use uenv_design.Base.{[], ◌∷◌, contains, string_eq, ◌==◌}
use uenv_design.Base.Dict
use uenv_design.Result.{required, ◌>>=◌}
use uenv_design.Result.Holds.{Holds, Holds-return, Holds-raise, Holds-bind, Holds-require, Holds-if}
use uenv_design.Value.{Value, obj, Fields}
use uenv_design.SchemaRegistry.{key_of}
use uenv_design.SchemaRegistry.Defaults.{set_key, object_of}
use uenv_design.SchemaRegistry.Defaults.Given.{key_of-set_key_other}
use uenv_design.Packages.{Manifest, Catalog}
use uenv_design.Packages.Runs.{
  RunRegistry, value_at, has, given_or_empty, select_for, config_envelope, expand_environment,
  keys_of, scoring_of, settle_scoring, expand_scorer, expand_scoring, config_of, entry_of,
  expand_component,
}

-- A step that leaves a key alone.
abbrev pub Leaves : String → Fields → Fields → Type 0
Leaves k run next = key_of k next ≡ key_of k run

module _ (registry : RunRegistry) where
  pub expand_environment-Leaves :
      (manifest : Manifest) (run : Fields)
      → Holds (Leaves "schema_version" run) (expand_environment registry manifest run)
  unfolding expand_environment string_eq
  expand_environment-Leaves manifest run =
      Holds-bind (required "environment" (Dict.lookup "environment" manifest.config_schemas)) _
        λ schema_ref _.
          Holds-bind (config_envelope registry schema_ref (given_or_empty "environment" run)) _
            λ config _.
              Holds-return _ (key_of-set_key_other "schema_version" "environment" config run refl)

  expand_scorer-Leaves :
      (manifests : List Manifest) (manifest : Manifest) (selected : Value) (scoring run : Fields)
      → Holds
          (Leaves "schema_version" run)
          (expand_scorer registry manifests manifest selected scoring run)
  unfolding expand_scorer string_eq
  expand_scorer-Leaves manifests manifest selected scoring run =
      Holds-bind (select_for manifests selected "scorer") _ λ scorer _.
        Holds-bind (required "scorer" (Dict.lookup "scorer" manifest.config_schemas)) _
          λ schema_ref _.
            Holds-bind (config_envelope registry schema_ref (given_or_empty "config" scoring)) _
              λ config _. Holds-return _ (
                key_of-set_key_other "schema_version" "scoring"
                  (obj (set_key "config" config scoring)) run refl)

  settle_scoring-Leaves :
      (manifests : List Manifest) (manifest : Manifest) (selected : Value) (scoring run : Fields)
      (enabled : Bool)
      → Holds
          (Leaves "schema_version" run)
          (settle_scoring registry manifests manifest selected scoring run enabled)
  settle_scoring-Leaves manifests manifest selected scoring run true =
      expand_scorer-Leaves manifests manifest selected scoring run
  settle_scoring-Leaves manifests manifest selected scoring run false =
      Holds-if (has "config" scoring) _ _ (λ given. Holds-raise _) (λ absent. Holds-return run refl)

  pub expand_scoring-Leaves :
      (manifests : List Manifest) (manifest : Manifest) (selected : Value) (run : Fields)
      → Holds
          (Leaves "schema_version" run)
          (expand_scoring registry manifests manifest selected run)
  unfolding expand_scoring
  expand_scoring-Leaves manifests manifest selected run =
      Holds-bind (scoring_of (key_of "scoring" run)) _ λ found _.
        Holds-require (all (contains ("enabled" ∷ "config" ∷ [])) (keys_of found.0)) _ _
          λ known. settle_scoring-Leaves manifests manifest selected found.0 run found.1

  pub expand_component-Leaves :
      (catalog : Catalog) (role : String) (run : Fields)
      → (role == "schema_version") ≡ false
      → Holds (Leaves "schema_version" run) (expand_component registry catalog role run)
  unfolding expand_component
  expand_component-Leaves catalog role run other =
      Holds-bind (value_at role run >>= object_of) _ λ component _.
        Holds-bind (value_at "implementation" component >>= object_of) _ λ implementation _.
          Holds-bind (value_at "id" implementation) _ λ id _.
            Holds-bind (config_of role implementation (entry_of (some id) catalog)) _
              λ schema_ref _.
                Holds-bind (config_envelope registry schema_ref (given_or_empty "config" component))
                  _
                  λ config _. Holds-return _ (
                    key_of-set_key_other "schema_version" role
                      (obj (set_key "config" config component)) run other)
