-- ===== src/Packages.antt =====
-- reference/package_loader.py: how a run selects the manifest of a dataset package and its tools.
pub mod Natives
pub mod Declarations
pub mod Fields
pub mod Runs
use uenv_design.Base.{
  ℕ, String, Bool, true, false, not, ◌&&◌, ◌<>◌, Option, none, some, List, [], ◌∷◌, ◌++◌,
}
use uenv_design.Base.{◌==◌, contains, string_eq, if◌then◌else◌}
use uenv_design.Base.Dict
use uenv_design.Base.Dict.{Dict}
use uenv_design.Result.{Error, Result, ok, err, value_error}
use uenv_design.Wire.{ComponentRef}

-- A component by id and version alone.
pub record Release : Type 0 where
  pub id : String
  pub version : String

-- What is registered of a tool.
pub record ToolEntry : Type 0 where
  pub execution_scope : String
  pub required_capabilities : List String
  pub config_schema : String

-- A tool that a dataset package provides.
pub record ProvidedTool : Type 0 where
  pub implementation : Release
  pub entry : ToolEntry

pub record Manifest : Type 0 where
  pub release : Release
  pub entrypoints : Dict String String
  pub provided_tools : List ProvidedTool
  pub config_schemas : Dict String String
  pub task_schema : String
  pub private_schema : Option String
  pub internet_access : Bool
  pub required_capabilities : List String
  pub image : Option String

-- An entry of the catalog, by its `role`: its version and its config schema. An agent exports tools
-- by name; of other roles, the role comes first.
pub data Component : Type 0 where
  tool : String → ToolEntry → Component
  agent : String → String → Dict String ToolEntry → Component
  other : String → String → String → Component

abbrev pub Catalog : Type 0
Catalog = Dict String Component

-- The entry of a tool, and the agent that exports it, if one does.
pub record ResolvedTool : Type 0 where
  pub entry : ToolEntry
  pub native_agent : Option Release

abbrev pub same_release : Release → Release → Bool
same_release a b = a.id == b.id && a.version == b.version

abbrev pub selected : Release → String → Manifest → Bool
selected release role m = same_release release m.release && contains (Dict.keys m.entrypoints) role

abbrev pub matching : Release → String → List Manifest → List Manifest
matching release role [] = []
matching release role (m ∷ ms) =
    let rest = matching release role ms in if selected release role m then m ∷ rest else rest

abbrev only : String → List Manifest → Result Manifest
only role (m ∷ []) = ok m
only role _ = err (value_error ("Expected one registered manifest for selected " <> role))

-- `select_manifest`
unfoldable pub select_manifest : List Manifest → Release → String → Result Manifest
select_manifest ms release role = only role (matching release role ms)

-- The tools of one package, and of all, that are the referenced release.
abbrev pub provided : Release → List ProvidedTool → List ToolEntry
provided reference [] = []
provided reference (t ∷ ts) =
    let rest = provided reference ts in
    if same_release t.implementation reference then t.entry ∷ rest else rest

abbrev pub provided_by_all : Release → List Manifest → List ToolEntry
provided_by_all reference [] = []
provided_by_all reference (m ∷ ms) =
    provided reference m.provided_tools ++ provided_by_all reference ms

-- What an agent does with one of its exports that has the referenced id.
unfoldable pub check_native : Release → Release → Release → ToolEntry → Result ResolvedTool
check_native reference selected_agent owner entry =
    if not (same_release owner selected_agent)
    then err (value_error "NATIVE_TOOL_AGENT_MISMATCH")
    else if not (reference.version == owner.version)
    then err (value_error "NATIVE_TOOL_VERSION_MISMATCH")
    else ok (record { entry = entry; native_agent = some owner })

-- The loop over the exports of an agent: the first export of the referenced id decides.
unfoldable pub find_export :
    Release → Release → Release → Dict String ToolEntry → Option (Result ResolvedTool)
find_export reference selected_agent owner [] = none
find_export reference selected_agent owner ((export, entry) ∷ exports) =
    let rest = find_export reference selected_agent owner exports in
    if reference.id == ((owner.id <> "/tools/") <> export)
    then some (check_native reference selected_agent owner entry)
    else rest

abbrev pub exports_of : Release → Release → String → Component → Option (Result ResolvedTool)
exports_of reference selected_agent id (agent version config exports) =
    find_export reference selected_agent (record { id = id; version = version }) exports
exports_of reference selected_agent id _ = none

-- The loop over the components of the catalog.
unfoldable pub find_native : Release → Release → Catalog → Result ResolvedTool
find_native reference selected_agent [] = err (value_error "Unknown tool component")
find_native reference selected_agent ((id, c) ∷ catalog) =
    let rest = find_native reference selected_agent catalog in
    elim (exports_of reference selected_agent id c) [ none ↦ rest | some r ↦ r ]

-- The first branch: a tool of the catalog in the referenced version.
abbrev pub standalone : Release → Option Component → Option ToolEntry
standalone reference (some (tool version entry)) =
    if version == reference.version then some entry else none
standalone reference _ = none

abbrev pub from_packages : List ToolEntry → Result ResolvedTool → Result ResolvedTool
from_packages [] natives = natives
from_packages (e ∷ []) natives = ok (record { entry = e; native_agent = none })
from_packages (e ∷ f ∷ es) natives = err (value_error "CONFLICTING_TOOL_EXPORT")

-- `lookup_tool`
unfoldable pub lookup_tool : Catalog → Release → Release → List Manifest → Result ResolvedTool
lookup_tool catalog reference selected_agent ms =
    elim (standalone reference (Dict.lookup reference.id catalog)) [
      | some entry ↦ ok (record { entry = entry; native_agent = none })
      | none ↦
          from_packages (provided_by_all reference ms)
            (find_native reference selected_agent catalog)
    ]
