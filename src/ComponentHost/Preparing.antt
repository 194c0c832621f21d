-- ===== src/ComponentHost/Preparing.antt =====
-- `prepare_agent`: the table of the agent, its tools and the host that runs them.
use uenv_design.Base.{String, Bool, true, false, not, ◌||◌, Option, none, some, List, [], ◌∷◌}
use uenv_design.Base.{any, string_eq, option_eq, if◌then◌else◌}
use uenv_design.Base.Dict
use uenv_design.Base.Dict.{Dict}
use uenv_design.Result.{
  Error, Result, ok, err, rpc_error, type_error, attribute_error, validation_error, key_error,
  required,
}
use uenv_design.Result
use uenv_design.Exec.{Exec, pure, lift, gets, modify, raise_if, ◌>>=◌, ◌>>◌}
use uenv_design.Wire.{Binding}
use uenv_design.Tools.{ToolDefinition, ToolContext, prepare}
use uenv_design.ComponentHost.{
  AgentSpec, AgentView, Integration, AgentType, ComponentWorld, ComponentHost, local_of,
  same_bindings,
}

abbrev pub has_native : Binding → Bool
has_native b = elim b.native_agent [ none ↦ false | some agent ↦ true ]

-- `{**old, **new}`
abbrev pub merge : {V : Type 0} → Dict String V → Dict String V → Dict String V
merge old [] = old
merge old ((k, v) ∷ new) = merge (Dict.insert k v old) new

-- `local != self.local_bindings`
abbrev pub same_table : List Binding → Option (List Binding) → Bool
same_table local none = false
same_table local (some table) = same_bindings local table

abbrev table_of : Option (List Binding) → List Binding
table_of none = []
table_of (some table) = table

abbrev pub has_agent : Option AgentSpec → Bool
has_agent none = false
has_agent (some spec) = true

-- A new `WorkerAgentContext`.
abbrev pub new_view : List Binding → AgentView
new_view tools = record {
  task = none;
  observation = record { content = []; terminated = false; episode_truncated = false };
  tools = tools;
  seed = none;
}

-- The contexts that the host makes where none were given.
abbrev contexts_from : List Binding → Dict String ToolContext → Dict String ToolContext
contexts_from [] contexts = contexts
contexts_from (b ∷ bs) contexts = contexts_from bs (
    Dict.insert b.name
      (record { config = b.config.content; has_environment = false; freeze = none }) contexts)

abbrev contexts_of : Option (Dict String ToolContext) → List Binding → Dict String ToolContext
contexts_of none bindings = contexts_from bindings []
contexts_of (some contexts) bindings = contexts

module _ {W : Type 0} (world : ComponentWorld W) where
  -- The Python tools of the agent, by name: a repeated name keeps the last one.
  unfoldable pub selected_python :
      List Binding → Dict String (ToolDefinition W) → Result (Dict String (ToolDefinition W))
  selected_python [] found = ok found
  selected_python (b ∷ bs) found =
      if has_native b
      then selected_python bs found
      else Result.◌>>=◌
          (required b.implementation.id (Dict.lookup b.implementation.id world.python_definitions))
          (λ d. selected_python bs (Dict.insert b.name d found))

  -- `definitions_by_id`
  unfoldable pub by_id :
      Dict String (ToolDefinition W)
      → List Binding
      → Dict String (ToolDefinition W)
      → Result (Dict String (ToolDefinition W))
  by_id definitions [] found = ok found
  by_id definitions (b ∷ bs) found =
      Result.◌>>=◌ (required b.name (Dict.lookup b.name definitions))
        (λ d. by_id definitions bs (Dict.insert b.implementation.id d found))

  -- `agent_type` is a subclass of `AgentRunner`.
  abbrev pub runner : Option (AgentType W) → Result (AgentType W)
  runner none = err (rpc_error "AGENT_ENTRYPOINT_UNAVAILABLE")
  runner (some agent) =
      if agent.is_runner then ok agent else err (rpc_error "AGENT_ENTRYPOINT_UNAVAILABLE")

  -- A call of code that runs in the process.
  abbrev pub within : {A : Type 0} → (W → Result A × W) → Exec (ComponentHost W) A
  within f s = let (r, w) = f s.world in (r, record s { world = w })

  -- The MCP server is started where there are Python tools.
  abbrev serve_mcp : List String → Exec (ComponentHost W) Unit
  serve_mcp [] = λ s. (ok tt, s)
  serve_mcp (name ∷ names) =
      λ s. (do within (world.start_mcp (name ∷ names)); modify (λ s. record s { mcp = true })) s

  -- `prepare` of an agent with native framework state, and the tools that it defines.
  unfoldable pub prepare_native :
      Integration W
      → List Binding
      → String
      → Dict String (ToolDefinition W)
      → Exec (ComponentHost W) Unit
  prepare_native integration bindings model_id selected = do
    serve_mcp (Dict.keys selected)
    within (integration.prepare bindings (Dict.keys selected) model_id)
    modify (λ s. record s { integration = some integration })
    native ← within integration.tool_definitions
    modify (λ s. record s { definitions = merge selected native })

  -- The definitions of the agent's tools.
  unfoldable pub define_tools :
      Option (Integration W)
      → List Binding
      → String
      → Dict String (ToolDefinition W)
      → Exec (ComponentHost W) Unit
  define_tools (some integration) bindings model_id selected =
      prepare_native integration bindings model_id selected
  define_tools none bindings model_id selected = do
    raise_if (any has_native bindings) (rpc_error "NATIVE_TOOL_AGENT_MISMATCH")
    modify (λ s. record s { definitions = selected })

  -- `self.host.prepare`
  abbrev pub prepare_host :
      AgentSpec
      → List Binding
      → Dict String (ToolDefinition W)
      → Exec (ComponentHost W) (List Binding)
  prepare_host spec bindings definitions s =
      let (r, h) =
        prepare world.checks definitions (contexts_of world.contexts bindings)
          (some spec.implementation) (table_of s.local_bindings) s.host in
      (r, record s { host = h })

  -- `prepare_agent` once its table has been checked and kept.
  unfoldable pub prepare_checked :
      AgentSpec → List Binding → String → Exec (ComponentHost W) (List Binding)
  prepare_checked spec tools model_id = do
    raise_if (not (world.checks.valid_config spec.config)) (validation_error "TypedConfig")
    agent ← lift (runner (Dict.lookup spec.implementation.id world.agent_types))
    within (agent.construct spec.config.content)
    modify (λ s. record s { agent = some agent; context = some (new_view tools) })
    selected ← lift (selected_python tools [])
    define_tools agent.native tools model_id selected
    definitions ← gets (λ s. s.definitions)
    found ← lift (by_id definitions tools [])
    prepare_host spec tools found
    pure tools

  -- `prepare_agent`, on `agent`, `tools` and `model_id` of its parameters.
  unfoldable pub prepare_agent :
      AgentSpec → List Binding → String → Exec (ComponentHost W) (List Binding)
  prepare_agent spec tools model_id s =
      if has_agent s.agent_spec || not (same_table (local_of tools) s.local_bindings)
      then (err (rpc_error "AGENT_TOOL_TABLE_MISMATCH"), s)
      else prepare_checked spec tools model_id
          (record s { bindings = some tools; agent_spec = some spec })
