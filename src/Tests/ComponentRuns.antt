-- ===== src/Tests/ComponentRuns.antt =====
-- An agent process with one Python tool of its own and one tool of the sandbox.
use uenv_design.Base.{ℕ, suc, ◌≡◌, refl, true, none, some, [], ◌∷◌, option_eq, string_eq, ◌⊎◌}
use uenv_design.Base.{List}
use uenv_design.Result.{Error, ok, err}
use uenv_design.Value.{value_eq}
use uenv_design.Wire.{component_eq, Binding, binding_eq, ToolCall}
use uenv_design.Tools.{prepare, stage, stage_one}
use uenv_design.ComponentHost.{
  AgentSpec, AgentType, ComponentWorld, ComponentHost, new_component_host, local_of, same_bindings,
  prepare_tools, execute_tool,
}
use uenv_design.ComponentHost.Preparing.{
  prepare_agent, prepare_checked, define_tools, selected_python, by_id,
}
use uenv_design.ComponentHost.Tables.{Fixed}
use uenv_design.ComponentHost.Requests.{
  Request, tools_request, agent_request, freeze_request, close_request, Knowledge, Agree, serve,
  serve_all, serve_all-Agree, serve_all-Fixed,
}
use uenv_design.ComponentHost.Guards.{IsBound, execute_tool-IsBound}
use uenv_design.Tests.ToolRuns.{config, checks, definition, process}

abbrev calculator : Binding
calculator = record {
  name = "calculator";
  implementation = record { id = "tools/calculator"; version = "1.0.0"; digest = "sha256:c" };
  config = config;
  execution_scope = "agent_state";
  native_agent = none;
}

abbrev shell : Binding
shell = record calculator { name = "shell"; execution_scope = "sandbox" }

abbrev plain : AgentType ℕ
plain = record {
  is_runner = true;
  construct = λ v w. (ok tt, suc w);
  native = none;
  run = λ view w. (ok [], w);
}

-- The world counts what the process was asked.
abbrev world : ComponentWorld ℕ
world = record {
  checks = checks;
  python_definitions = ("tools/calculator", definition) ∷ [];
  agent_types = ("agents/plain", plain) ∷ [];
  contexts = none;
  process = process;
  start_mcp = λ names w. (ok tt, w);
  close_mcp = λ w. (ok tt, w);
  stop_loop = λ w. w;
}

abbrev knowledge : Knowledge
knowledge = record {
  depth = 9;
  classes = [];
  valid_task = λ t. true;
  valid_observation = λ o. true;
  models = [];
  extensions = [];
}

abbrev spec : AgentSpec
spec = record {
  implementation = record { id = "agents/plain"; version = "1.0.0"; digest = "sha256:p" };
  config = config;
}

abbrev tools : List Binding
tools = calculator ∷ shell ∷ []

abbrev ready : List Request
ready = tools_request (calculator ∷ []) ∷ agent_request spec tools "m" ∷ []

abbrev prepared : ComponentHost ℕ
prepared = serve_all world knowledge ready (new_component_host 0)

prepared_bindings : prepared.bindings ≡ some tools
unfolding serve_all serve prepare_tools prepare_agent prepare_checked same_bindings local_of
    define_tools selected_python by_id prepare stage stage_one string_eq component_eq value_eq
    option_eq binding_eq
prepared_bindings = refl

prepared_spec : prepared.agent_spec ≡ some spec
unfolding serve_all serve prepare_tools prepare_agent prepare_checked same_bindings local_of
    define_tools selected_python by_id prepare stage stage_one string_eq component_eq value_eq
    option_eq binding_eq
prepared_spec = refl

prepared_local : prepared.local_bindings ≡ some (calculator ∷ [])
unfolding serve_all serve prepare_tools prepare_agent prepare_checked same_bindings local_of
    define_tools selected_python by_id prepare stage stage_one string_eq component_eq value_eq
    option_eq binding_eq
prepared_local = refl

-- A second agent is refused.
abbrev other_agent : List Request
other_agent = agent_request spec (calculator ∷ []) "m" ∷ freeze_request ∷ close_request ∷ []

serve_all-Fixed_example : Fixed prepared (serve_all world knowledge other_agent prepared)
serve_all-Fixed_example =
    serve_all-Fixed world knowledge other_agent prepared spec (calculator ∷ []) prepared_spec
      prepared_local

serve_all-Agree_example : Agree (serve_all world knowledge ready (new_component_host 0))
serve_all-Agree_example = serve_all-Agree world knowledge ready 0

abbrev call : ToolCall
call = record {
  tool_call_id = "c1";
  name = "calculator";
  implementation = calculator.implementation;
  arguments = [];
}

execute_tool-IsBound_example :
    ((e : Error) × (execute_tool world calculator call prepared ≡ (err e, prepared)))
    ⊎ IsBound world prepared calculator call
execute_tool-IsBound_example = execute_tool-IsBound world calculator call prepared
