-- ===== src/Packages/Natives.antt =====
-- A tool that an agent exports is resolved for that agent alone.
use uenv_design.Base.{
  String, not, ◌<>◌, ◌==◌, ◌≡◌, subst, Bool-cases, Option, none, some, List, [], ◌∷◌,
}
use uenv_design.Base.{string_eq, arith, Option-cases, inl, inr}
use uenv_design.Base.Dict
use uenv_design.Base.Dict.{Dict}
use uenv_design.Result.{Result, ok}
use uenv_design.Result.Holds.{Holds, Holds-return, Holds-raise, Holds-if}
use uenv_design.Packages.{
  Release, ToolEntry, ResolvedTool, Component, tool, agent, other, Catalog, Manifest,
}
use uenv_design.Packages.{
  same_release, check_native, find_export, find_native, lookup_tool, standalone,
}
use uenv_design.Packages.{exports_of, from_packages}

-- The owner is the selected agent in the referenced version, and the reference names one of its exports.
pub record IsOwner (reference selected_agent owner : Release) : Type 0 where
  pub same_id : owner.id ≡ selected_agent.id
  pub same_version : owner.version ≡ selected_agent.version
  pub referenced : reference.version ≡ owner.version
  pub export : String
  pub named : reference.id ≡ (owner.id <> "/tools/") <> export

-- If the resolved tool names an agent, that agent owns it.
pub record ForAgent (reference selected_agent : Release) (t : ResolvedTool) : Type 0 where
  pub owned :
      (owner : Release) → t.native_agent ≡ some owner → IsOwner reference selected_agent owner

no_agent :
    (reference selected_agent : Release) (entry : ToolEntry)
    → ForAgent reference selected_agent (record { entry = entry; native_agent = none })
no_agent reference selected_agent entry = record { owned = λ owner h. absurd (ground arith) }

some_inj : (a b : Release) → ◌≡◌ {A = Option Release} (some a) (some b) → a ≡ b
some_inj a b h = cc

check_native-ForAgent :
    (reference selected_agent owner : Release) (export : String) (entry : ToolEntry)
    → reference.id ≡ (owner.id <> "/tools/") <> export
    → Holds (ForAgent reference selected_agent) (check_native reference selected_agent owner entry)
unfolding check_native
check_native-ForAgent reference selected_agent owner export entry named =
    Holds-if (not (same_release owner selected_agent)) _ _ (λ e. Holds-raise _)
      λ same.
        Holds-if (not (reference.version == owner.version)) _ _ (λ e. Holds-raise _)
          λ version. Holds-return _ (record {
            owned = λ o h. subst (IsOwner reference selected_agent) (some_inj owner o h) (record {
              same_id = ground arith;
              same_version = ground arith;
              referenced = ground arith;
              export = export;
              named = named;
            });
          })

module _ (reference selected_agent : Release) where
  abbrev Each : Option (Result ResolvedTool) → Type 0
  Each none = Unit
  Each (some r) = Holds (ForAgent reference selected_agent) r

  find_export-Each :
      (owner : Release) (exports : Dict String ToolEntry)
      → Each (find_export reference selected_agent owner exports)
  unfolding find_export
  find_export-Each owner [] = tt
  find_export-Each owner ((export, entry) ∷ exports) =
      elim (Bool-cases (reference.id == ((owner.id <> "/tools/") <> export))) [
        | inl e ↦
            rw (e, find_export)
              (check_native-ForAgent reference selected_agent owner export entry (ground arith))
        | inr e ↦ rw (e, find_export) (find_export-Each owner exports)
      ]

  exports_of-Each : (id : String) (c : Component) → Each (exports_of reference selected_agent id c)
  exports_of-Each id (tool version entry) = tt
  exports_of-Each id (agent version config exports) = find_export-Each _ exports
  exports_of-Each id (other role version config) = tt

  find_native-ForAgent :
      (catalog : Catalog)
      → Holds (ForAgent reference selected_agent) (find_native reference selected_agent catalog)
  unfolding find_native
  find_native-ForAgent [] = Holds-raise _
  find_native-ForAgent ((id, c) ∷ catalog) =
      elim (Option-cases (exports_of reference selected_agent id c)) [
        | inl e ↦ rw (e, find_native) (find_native-ForAgent catalog)
        | inr (r, e) ↦ rw (e, find_native) (subst Each e (exports_of-Each id c))
      ]

  from_packages-ForAgent :
      (es : List ToolEntry) (r : Result ResolvedTool)
      → Holds (ForAgent reference selected_agent) r
      → Holds (ForAgent reference selected_agent) (from_packages es r)
  from_packages-ForAgent [] r h = h
  from_packages-ForAgent (e ∷ []) r h = Holds-return _ (no_agent reference selected_agent e)
  from_packages-ForAgent (e ∷ f ∷ es) r h = Holds-raise _

  lookup_tool-Holds :
      (catalog : Catalog) (ms : List Manifest)
      → Holds (ForAgent reference selected_agent) (lookup_tool catalog reference selected_agent ms)
  unfolding lookup_tool
  lookup_tool-Holds catalog ms =
      elim (Option-cases (standalone reference (Dict.lookup reference.id catalog))) [
        | inl e ↦ rw (e, lookup_tool) (from_packages-ForAgent _ _ (find_native-ForAgent catalog))
        | inr (entry, e) ↦
            rw (e, lookup_tool) (Holds-return _ (no_agent reference selected_agent entry))
      ]

-- If a tool is resolved as one that an agent exports, the agent is the one that the run selected, the
-- reference has the agent's version, and its id is the agent's id followed by the export.
pub lookup_tool-IsOwner :
    (catalog : Catalog) (reference selected_agent owner : Release) (ms : List Manifest)
    (t : ResolvedTool)
    → lookup_tool catalog reference selected_agent ms ≡ ok t
    → t.native_agent ≡ some owner
    → IsOwner reference selected_agent owner
lookup_tool-IsOwner catalog reference selected_agent owner ms t found native =
    ((lookup_tool-Holds reference selected_agent catalog ms).at t found).owned owner native
