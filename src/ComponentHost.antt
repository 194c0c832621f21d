-- ===== src/ComponentHost.antt =====
-- reference/sdk/src/uenv/sdk/component_host.py: the agent process, its tables of tools and its agent. The
-- classes of agents, with what they change in the process, are parameters over an unknown state `W`.
pub mod Preparing
pub mod Running
pub mod Tables
pub mod Requests
pub mod Guards
use uenv_design.Base.{
  ℕ, String, Bool, true, false, not, ◌&&◌, ◌||◌, Option, none, some, List, [], ◌∷◌,
}
use uenv_design.Base.{◌==◌, any, contains, string_eq, option_eq, if◌then◌else◌}
use uenv_design.Base.Dict
use uenv_design.Base.Dict.{Dict}
use uenv_design.Result.{Error, Result, ok, err, rpc_error, type_error, attribute_error}
use uenv_design.Result.{raise_if, required, ◌>>=◌, ◌>>◌}
use uenv_design.Value.{Value, obj}
use uenv_design.Wire.{
  ComponentRef, component_eq, TypedConfig, Part, Observation, Binding, binding_eq, ToolCall,
  ToolResult, fields_of,
}
use uenv_design.Task.{TaskSpec}
use uenv_design.Tools.{Checks, ToolDefinition, ToolContext, ToolHost, new_host}
use uenv_design.Tools.Execute.{Process, execute}
use uenv_design.Tools.Freeze.{freeze}

-- `SelectedAgent`, as the plan names it.
pub record AgentSpec : Type 0 where
  pub implementation : ComponentRef
  pub config : TypedConfig

-- `WorkerAgentContext`, but for its peer.
pub record AgentView : Type 0 where
  pub task : Option TaskSpec
  pub observation : Observation
  pub tools : List Binding
  pub seed : Option ℕ

-- An agent with native framework state: `prepare` sets up its integration, with the names of the
-- tools that the MCP server has; `tool_definitions` are the integration's, and `close` is too.
pub record Integration (W : Type 0) : Type 0 where
  pub prepare : List Binding → List String → String → W → Result (Unit {0}) × W
  pub tool_definitions : W → Result (Dict String (ToolDefinition W)) × W
  pub close : W → Result (Unit {0}) × W

-- An entry of `agent_types`.
pub record AgentType (W : Type 0) : Type 0 where
  pub is_runner : Bool
  pub construct : Value → W → Result (Unit {0}) × W
  pub native : Option (Integration W)
  pub run : AgentView → W → Result (List Part) × W

-- What the process gives the host. `contexts` is `none` where none were given or the dict is empty.
pub record ComponentWorld (W : Type 0) : Type 0 where
  pub checks : Checks
  pub python_definitions : Dict String (ToolDefinition W)
  pub agent_types : Dict String (AgentType W)
  pub contexts : Option (Dict String ToolContext)
  pub process : Process W
  pub start_mcp : List String → W → Result (Unit {0}) × W
  pub close_mcp : W → Result (Unit {0}) × W
  pub stop_loop : W → W

-- `ComponentHost`, with the process behind it.
pub record ComponentHost (W : Type 0) : Type 0 where
  pub local_bindings : Option (List Binding)
  pub bindings : Option (List Binding)
  pub agent_spec : Option AgentSpec
  pub agent : Option (AgentType W)
  pub context : Option AgentView
  pub integration : Option (Integration W)
  pub mcp : Bool
  pub definitions : Dict String (ToolDefinition W)
  pub host : ToolHost W
  pub closed : Bool
  pub world : W

-- `ComponentHost.__init__`
abbrev pub new_component_host : {W : Type 0} → W → ComponentHost W
new_component_host w = record {
  local_bindings = none;
  bindings = none;
  agent_spec = none;
  agent = none;
  context = none;
  integration = none;
  mcp = false;
  definitions = [];
  host = new_host;
  closed = false;
  world = w;
}

abbrev pub is_local : Binding → Bool
is_local b = b.execution_scope == "agent_state"

-- `[b for b in tools if b['execution_scope'] == 'agent_state']`
unfoldable pub local_of : List Binding → List Binding
local_of [] = []
local_of (b ∷ bs) = let rest = local_of bs in if is_local b then b ∷ rest else rest

-- Equality of lists of bindings.
unfoldable pub same_bindings : List Binding → List Binding → Bool
same_bindings [] [] = true
same_bindings (b ∷ bs) (c ∷ cs) = b == c && same_bindings bs cs
same_bindings _ _ = false

-- `binding in table`, where a table that is not there raises.
abbrev pub listed : Option (List Binding) → Binding → Result Bool
listed none b = err (type_error "argument of type 'NoneType' is not iterable")
listed (some table) b = ok (contains table b)

module _ {W : Type 0} (world : ComponentWorld W) where
  -- `prepare_tools`
  unfoldable pub prepare_tools :
      List Binding → ComponentHost W → Result (List Binding) × ComponentHost W
  prepare_tools tools s = elim s.local_bindings [
    | some table ↦ (err (rpc_error "TOOL_HOST_ALREADY_PREPARED"), s)
    | none ↦
        if any (λ b. not (is_local b)) tools
        then (err (rpc_error "TOOL_EXECUTION_SCOPE_MISMATCH"), s)
        else (ok tools, record s { local_bindings = some tools })
  ]

  -- The schema of a call's arguments, and the reserved name.
  unfoldable pub check_call : ToolDefinition W → ToolCall → Result (Unit {0})
  check_call definition call = do
    raise_if (not (world.checks.conforms definition.input_schema (obj (fields_of call.arguments))))
        (rpc_error "INVALID_TOOL_ARGUMENTS")
    raise_if (contains (Dict.keys call.arguments) "context")
        (rpc_error "TOOL_CONTEXT_IS_SYSTEM_INJECTED")

  -- `validate_tool`
  unfoldable pub validate_tool : Binding → ToolCall → ComponentHost W → Result (Unit {0})
  validate_tool binding call s = do
    is_here ← listed s.local_bindings binding
    raise_if (not is_here) (rpc_error "TOOL_EXECUTION_SCOPE_MISMATCH")
    is_bound ← listed s.bindings binding
    raise_if
        (not is_bound
          || not (call.implementation == binding.implementation)
          || not (call.name == binding.name))
        (rpc_error "TOOL_CALL_BINDING_MISMATCH")
    definition ← required call.name (Dict.lookup call.name s.definitions)
    check_call definition call

  -- `asyncio.run_coroutine_threadsafe(..., self.loop).result()`: the loop has stopped once the process is
  -- closed, so what is given to it then never runs, and its result never comes.
  unfoldable pub run_on_loop :
      {A : Type 0}
      → (ToolHost W × W → Result A × ToolHost W × W)
      → ComponentHost W
      → Result A × ComponentHost W
  run_on_loop f s = elim s.closed [
    | true ↦ (err Error.no_answer, s)
    | false ↦ let (r, h, w) = f (s.host, s.world) in (r, record s { host = h; world = w })
  ]

  -- `self.host.execute`
  unfoldable pub run_tool : ToolCall → ComponentHost W → Result ToolResult × ComponentHost W
  run_tool call = run_on_loop (execute world.checks world.process call)

  -- `execute_tool`
  unfoldable pub execute_tool :
      Binding → ToolCall → ComponentHost W → Result ToolResult × ComponentHost W
  execute_tool binding call s = elim (validate_tool binding call s) [
    | err e ↦ (err e, s)
    | ok _ ↦ run_tool call s
  ]

  -- `freeze_tools`
  unfoldable pub freeze_tools : ComponentHost W → Result (Unit {0}) × ComponentHost W
  freeze_tools = run_on_loop (freeze world.process)

  -- `self.integration.close()`, if there is one.
  abbrev close_integration : Option (Integration W) → W → Result (Unit {0}) × W
  close_integration none w = (ok tt, w)
  close_integration (some integration) w = integration.close w

  abbrev close_server : Bool → W → Result (Unit {0}) × W
  close_server false w = (ok tt, w)
  close_server true w = world.close_mcp w

  -- An exception of the later clause hides that of the earlier.
  abbrev later : Result (Unit {0}) → Result (Unit {0}) → Result (Unit {0})
  later first (err e) = err e
  later first (ok _) = first

  -- `close`: the flag is set first, and the loop is stopped on every way out.
  unfoldable pub close : ComponentHost W → Result (Unit {0}) × ComponentHost W
  close s = elim s.closed [
    | true ↦ (ok tt, s)
    | false ↦
        let (r, w) = close_integration s.integration s.world in
        let (q, v) = close_server s.mcp w in
        (later r q, record s { closed = true; world = world.stop_loop v })
  ]
