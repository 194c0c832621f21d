-- ===== src/EnvironmentHost.antt =====
-- reference/sdk/src/uenv/sdk/environment_host.py: the environment and its tools, in one process inside
-- the session. What the environment and the tools change, the session apart, is the unknown state
-- `V` of the system behind the session.
pub mod State
pub mod Requests
pub mod Snapshots
pub mod Resets
use uenv_design.Base.{ℕ, ◌+◌, ◌*◌, String, Bool, true, false, not, ◌&&◌, ◌||◌, Option, none, some}
use uenv_design.Base.{List, [], ◌∷◌, ◌==◌, any, option_eq, string_eq, if◌then◌else◌}
use uenv_design.Base.Dict
use uenv_design.Base.Dict.{Dict}
use uenv_design.Result.{Result, ok, err, rpc_error, runtime_error, validation_error}
use uenv_design.Exec.{Exec, pure, lift, gets, modify, raise_if, ◌>>=◌, ◌>>◌}
use uenv_design.Wire.{
  ComponentRef, component_eq, TypedConfig, Observation, Binding, ToolCall, ToolResult,
}
use uenv_design.Task.{WireTask, TaskSpec, task_from_wire, expected_schema}
use uenv_design.Session.{Session, freeze_tools}
use uenv_design.Tools.{ToolContext, ToolHost, prepare, validate_call}
use uenv_design.Tools.Execute.{execute}
use uenv_design.Tools.Freeze.{freeze}
use uenv_design.EnvironmentHost.State.{EnvironmentContext, HostWorld, EnvironmentHost}

-- `self.context.seed if self.context else ...`
abbrev seed_or : Option ℕ → Option (Option ℕ) → Option ℕ
seed_or other none = other
seed_or other (some seed) = seed

-- `seed` if it is given, or that of the context.
abbrev seed_of : Option ℕ → Option (Option ℕ) → Option ℕ
seed_of (some seed) context = some seed
seed_of none context = seed_or none context

module _ {V : Type 0} (world : HostWorld V) where
  -- A call of code that runs in the session.
  abbrev pub within : {A : Type 0} → (Session V → Result A × Session V) → Exec (EnvironmentHost V) A
  within f s = let (r, t) = f s.session in (r, record s { session = t })

  abbrev now : Exec (EnvironmentHost V) ℕ
  now s = let (t, session) = world.monotonic s.session in (ok t, record s { session = session })

  -- `_context`
  unfoldable pub context_of : ℕ → Option ℕ → Exec (EnvironmentHost V) EnvironmentContext
  context_of remaining seed = do
    old ← gets (λ s. s.context)
    t ← now
    modify (λ s. record s { context = some (seed_of seed old) })
    pure (record { deadline = t + remaining * 1000; seed = seed_of seed old })

  -- `prepare`, on `dataset_package`, `session` and `environment` of its parameters.
  unfoldable pub prepare_environment :
      ComponentRef → String → TypedConfig → Exec (EnvironmentHost V) Unit
  prepare_environment dataset_package session config = do
    prepared ← gets (λ s. s.has_environment)
    raise_if (prepared || not (dataset_package == world.component))
        (rpc_error "ENVIRONMENT_PACKAGE_MISMATCH")
    identity ← gets (λ s. s.session.identity)
    raise_if (not (session == identity)) (rpc_error "ENVIRONMENT_SESSION_MISMATCH")
    raise_if (not (some config.schema_ref == expected_schema world.environment_config_model))
        (rpc_error "ENVIRONMENT_CONFIG_SCHEMA_MISMATCH")
    raise_if (not (world.checks.valid_config config)) (validation_error "TypedConfig")
    within (world.plugin.construct config.content)
    modify (λ s. record s { has_environment = true })

  -- `reset` once its checks have passed.
  unfoldable pub reset_accepted : TaskSpec → ℕ → ℕ → Exec (EnvironmentHost V) Observation
  reset_accepted task remaining seed = do
    modify (λ s. record s { reset_done = true })
    context ← context_of remaining (some seed)
    result ← within (world.plugin.reset task context)
    raise_if (not (world.checks.valid_observation result)) (validation_error "Observation")
    pure result

  -- The checks of `reset`.
  unfoldable pub accept_reset : WireTask → EnvironmentHost V → Result TaskSpec
  accept_reset task s =
      if not s.has_environment || s.reset_done
      then err (rpc_error "ENVIRONMENT_RESET_STATE_INVALID")
      else if not (world.valid_task task)
      then err (validation_error "TaskSpec")
      else task_from_wire world.depth world.classes task world.input_model

  -- `reset`
  unfoldable pub reset : WireTask → ℕ → ℕ → Exec (EnvironmentHost V) Observation
  reset task remaining seed s = elim (accept_reset task s) [
    | err e ↦ (err e, s)
    | ok view ↦ reset_accepted view remaining seed s
  ]

  -- The contexts of `prepare_tools`: a repeated name keeps the last binding's.
  unfoldable pub contexts_of : List Binding → Dict String ToolContext → Dict String ToolContext
  contexts_of [] contexts = contexts
  contexts_of (b ∷ bs) contexts = contexts_of bs (
      Dict.insert b.name
        (record {
          config = b.config.content;
          has_environment = true;
          freeze = some world.freeze_hook;
        })
        contexts)

  abbrev has_native_agent : Binding → Bool
  has_native_agent b = elim b.native_agent [ none ↦ false | some agent ↦ true ]

  -- A call of the tool host.
  abbrev pub with_tools :
      {A : Type 0}
      → (ToolHost (Session V) → Result A × ToolHost (Session V))
      → Exec (EnvironmentHost V) A
  with_tools f s = let (r, h) = f s.tools in (r, record s { tools = h })

  -- `prepare_tools`, on `session` and `tools` of its parameters.
  unfoldable pub prepare_tools : String → List Binding → Exec (EnvironmentHost V) (List Binding)
  prepare_tools session bindings = do
    prepared ← gets (λ s. s.has_environment)
    identity ← gets (λ s. s.session.identity)
    raise_if (not prepared || not (session == identity)) (rpc_error "TOOL_SESSION_MISMATCH")
    raise_if (any (λ b. not (b.execution_scope == "sandbox") || has_native_agent b) bindings)
        (rpc_error "TOOL_EXECUTION_SCOPE_MISMATCH")
    with_tools (prepare world.checks world.definitions (contexts_of bindings []) none bindings)

  -- `validate_tool`
  unfoldable pub validate_tool : Binding → ToolCall → EnvironmentHost V → Result (Unit {0})
  validate_tool binding call s = validate_call world.checks s.tools binding call

  -- `self.loop.run_until_complete`: `close` has closed the loop.
  unfoldable pub run_until_complete :
      {A : Type 0}
      → (ToolHost (Session V) × Session V → Result A × ToolHost (Session V) × Session V)
      → Exec (EnvironmentHost V) A
  run_until_complete f s = elim s.closed [
    | true ↦ (err (runtime_error "Event loop is closed"), s)
    | false ↦ let (r, h, t) = f (s.tools, s.session) in (r, record s { tools = h; session = t })
  ]

  -- `self.tools.execute`
  unfoldable pub run_tool : ToolCall → Exec (EnvironmentHost V) ToolResult
  run_tool call = run_until_complete (execute world.checks world.process call)

  -- `execute_tool`
  unfoldable pub execute_tool : Binding → ToolCall → Exec (EnvironmentHost V) ToolResult
  execute_tool binding call s = elim (validate_tool binding call s) [
    | err e ↦ (err e, s)
    | ok _ ↦ run_tool call s
  ]

  -- `self.tools.freeze`
  unfoldable pub freeze_host : Exec (EnvironmentHost V) Unit
  freeze_host = run_until_complete (freeze world.process)

  -- `freeze`
  unfoldable pub freeze_environment : Exec (EnvironmentHost V) Unit
  freeze_environment = do
    freeze_host
    modify (λ s. record s { session = freeze_tools world.system s.session })

  -- The checks on a snapshot.
  abbrev check_state : Option TypedConfig → Result (Unit {0})
  check_state none = ok tt
  check_state (some state) =
      if not (world.typed_state state)
      then err (rpc_error "ENVIRONMENT_STATE_SCHEMA_MISMATCH")
      else if not (world.checks.valid_config state)
      then err (validation_error "TypedConfig")
      else ok tt

  -- `state_snapshot`
  unfoldable pub state_snapshot : ℕ → Exec (EnvironmentHost V) (Option TypedConfig)
  state_snapshot remaining = do
    settled ← gets (λ s. s.tools.settled)
    raise_if (not settled) (rpc_error "TOOLS_NOT_FROZEN")
    context ← context_of remaining none
    state ← within (world.plugin.state_snapshot context)
    lift (check_state state)
    pure state

  abbrev close_plugin : EnvironmentHost V → Result (Unit {0}) × EnvironmentHost V
  close_plugin s =
      let (r, t) =
        (context_of 5000 (seed_or (some 0) s.context) >>= λ context.
        within (world.plugin.close context))
          s in
      (r, t)

  -- `close`: the flag is set on every way out. An exception of the plugin hides one of the tools.
  unfoldable pub close : Exec (EnvironmentHost V) Unit
  close s = elim s.closed [
    | true ↦ (ok tt, s)
    | false ↦
        let (r, t) = freeze_host s in
        elim t.has_environment [
          | false ↦ (r, record t { closed = true })
          | true ↦
              let (q, u) = close_plugin t in
              elim q [
                | err e ↦ (err e, record u { closed = true })
                | ok _ ↦ (r, record u { closed = true })
              ]
        ]
  ]
