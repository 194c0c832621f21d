-- ===== src/Tests/PackageRuns.antt =====
-- A catalog with an agent that exports a terminal.
use uenv_design.Base.{some, none, false, ◌≡◌, refl, [], ◌∷◌, string_eq}
use uenv_design.Result.{ok, err, value_error}
use uenv_design.Packages.{Release, ToolEntry, agent, tool, Catalog, Manifest, lookup_tool}
use uenv_design.Packages.{find_native, find_export, check_native, select_manifest}
use uenv_design.Packages.Natives.{IsOwner, lookup_tool-IsOwner}

abbrev entry : ToolEntry
entry = record {
  execution_scope = "agent_state";
  required_capabilities = [];
  config_schema = "uenv://schemas/vnext/EmptyConfig";
}

abbrev catalog : Catalog
catalog =
    ("tools/calculator", tool "1.0.0" entry)
    ∷ (
      "agents/openhands",
      agent "1.0.0" "uenv://schemas/vnext/EmptyConfig" (("terminal", entry) ∷ []),
    )
    ∷ []

abbrev openhands : Release
openhands = record { id = "agents/openhands"; version = "1.0.0" }

abbrev terminal : Release
terminal = record { id = "agents/openhands/tools/terminal"; version = "1.0.0" }

found :
    lookup_tool catalog terminal openhands []
    ≡ ok (record { entry = entry; native_agent = some openhands })
unfolding lookup_tool find_native find_export check_native string_eq
found = refl

other_agent :
    lookup_tool catalog terminal (record { id = "agents/plain"; version = "1.0.0" }) []
    ≡ err (value_error "NATIVE_TOOL_AGENT_MISMATCH")
unfolding lookup_tool find_native find_export check_native string_eq
other_agent = refl

lookup_tool-IsOwner_example : IsOwner terminal openhands openhands
lookup_tool-IsOwner_example =
    lookup_tool-IsOwner catalog terminal openhands openhands []
      (record { entry = entry; native_agent = some openhands }) found refl

abbrev gsm8k : Manifest
gsm8k = record {
  release = record { id = "datasets/gsm8k"; version = "1.0.0" };
  entrypoints = ("environment", "gsm8k.environment:Gsm8k") ∷ [];
  provided_tools = [];
  config_schemas = ("environment", "uenv://schemas/vnext/EmptyConfig") ∷ [];
  task_schema = "uenv://packages/datasets/gsm8k/1.0.0/Gsm8kInput";
  private_schema = none;
  internet_access = false;
  required_capabilities = [];
  image = none;
}

no_scorer :
    select_manifest (gsm8k ∷ []) gsm8k.release "scorer"
    ≡ err (value_error "Expected one registered manifest for selected scorer")
unfolding select_manifest string_eq
no_scorer = refl
