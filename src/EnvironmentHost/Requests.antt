-- ===== src/EnvironmentHost/Requests.antt =====
-- The requests that the Worker sends to an environment host, and what all of them preserve.
use uenv_design.Base.{ℕ, String, ◌≡◌, refl, sym, subst, ◌⊎◌, List, [], ◌∷◌, none, arith}
use uenv_design.Base.{inl, inr, string_eq, option_eq, Bool-cases}
use uenv_design.Result.{Result, Result-cases}
use uenv_design.Session.{Session}
use uenv_design.Wire.{ComponentRef, component_eq, TypedConfig, Binding, ToolCall}
use uenv_design.Task.{WireTask, TaskSpec}
use uenv_design.Tools.{prepare, ToolHost}
use uenv_design.Tools.Freezing.{IsSound}
use uenv_design.Tools.Soundness.{prepare-IsSound, execute-IsSound, freeze-IsSound}
use uenv_design.EnvironmentHost.{context_of, prepare_environment}
use uenv_design.EnvironmentHost.State.{EnvironmentHost, HostWorld}
use uenv_design.EnvironmentHost.{
  reset, reset_accepted, accept_reset, prepare_tools, execute_tool, validate_tool,
}
use uenv_design.EnvironmentHost.{
  run_until_complete, run_tool, freeze_host, freeze_environment, state_snapshot, close, contexts_of,
}

pub data Request : Type 0 where
  prepare_request : ComponentRef → String → TypedConfig → Request
  reset_request : WireTask → ℕ → ℕ → Request
  tools_request : String → List Binding → Request
  execute_request : Binding → ToolCall → Request
  freeze_request : Request
  snapshot_request : ℕ → Request
  close_request : Request

module _ {V : Type 0} (world : HostWorld V) where
  unfoldable pub serve : Request → EnvironmentHost V → EnvironmentHost V
  serve (prepare_request package_ref session config) s =
      (prepare_environment world package_ref session config s).1
  serve (reset_request task remaining seed) s = (reset world task remaining seed s).1
  serve (tools_request session bindings) s = (prepare_tools world session bindings s).1
  serve (execute_request binding call) s = (execute_tool world binding call s).1
  serve freeze_request s = (freeze_environment world s).1
  serve (snapshot_request remaining) s = (state_snapshot world remaining s).1
  serve close_request s = (close world s).1

  unfoldable pub serve_all : List Request → EnvironmentHost V → EnvironmentHost V
  serve_all [] s = s
  serve_all (r ∷ rs) s = serve_all rs (serve r s)

abbrev pub SoundTools : {V : Type 0} → EnvironmentHost V → Type 0
SoundTools s = IsSound s.tools

module _ {V : Type 0} (world : HostWorld V) where
  pub prepare_environment-tools :
      (package_ref : ComponentRef) (session : String) (config : TypedConfig) (s : EnvironmentHost V)
      → (prepare_environment world package_ref session config s).1.tools ≡ s.tools
  unfolding prepare_environment
  prepare_environment-tools package_ref session config s = ground arith

  reset_accepted-tools :
      (task : TaskSpec) (remaining seed : ℕ) (s : EnvironmentHost V)
      → (reset_accepted world task remaining seed s).1.tools ≡ s.tools
  unfolding reset_accepted context_of
  reset_accepted-tools task remaining seed s = ground arith

  pub reset-tools :
      (task : WireTask) (remaining seed : ℕ) (s : EnvironmentHost V)
      → (reset world task remaining seed s).1.tools ≡ s.tools
  unfolding reset
  reset-tools task remaining seed s = elim (Result-cases (accept_reset world task s)) [
    | inl (view, e) ↦ rw (e, reset) (reset_accepted-tools view remaining seed s)
    | inr (x, e) ↦ rw (e, reset) refl
  ]

  pub prepare_tools-tools :
      (session : String) (bindings : List Binding) (s : EnvironmentHost V)
      → ((prepare_tools world session bindings s).1.tools ≡ s.tools)
        ⊎ ((prepare_tools world session bindings s).1.tools
            ≡ (prepare world.checks world.definitions
                (contexts_of world bindings [])
                none
                bindings
                s.tools).1)
  unfolding prepare_tools
  prepare_tools-tools session bindings s = ground arith

  prepare_tools-Sound :
      (session : String) (bindings : List Binding) (s : EnvironmentHost V)
      → SoundTools s
      → SoundTools (prepare_tools world session bindings s).1
  prepare_tools-Sound session bindings s i = elim (prepare_tools-tools session bindings s) [
    | inl same ↦ subst IsSound (sym same) i
    | inr other ↦
        subst IsSound (sym other) (prepare-IsSound world.checks _ _ none bindings s.tools i)
  ]

  pub state_snapshot-tools :
      (remaining : ℕ) (s : EnvironmentHost V) → (state_snapshot world remaining s).1.tools ≡ s.tools
  unfolding state_snapshot context_of
  state_snapshot-tools remaining s = ground arith

  run_until_complete-Sound :
      {A : Type 0}
      (f : ToolHost (Session V) × Session V → Result A × ToolHost (Session V) × Session V)
      (s : EnvironmentHost V)
      → SoundTools s
      → IsSound (f (s.tools, s.session)).1
      → SoundTools (run_until_complete world f s).1
  unfolding run_until_complete
  run_until_complete-Sound f s i h = elim (Bool-cases s.closed) [ inl e ↦ rw e i | inr e ↦ rw e h ]

  execute_tool-Sound :
      (binding : Binding) (call : ToolCall) (s : EnvironmentHost V)
      → SoundTools s
      → SoundTools (execute_tool world binding call s).1
  unfolding execute_tool run_tool
  execute_tool-Sound binding call s i = elim (Result-cases (validate_tool world binding call s)) [
    | inl (view, e) ↦
        rw (e, execute_tool)
          (run_until_complete-Sound _ s i
            (execute-IsSound world.checks world.process call s.tools s.session i))
    | inr (x, e) ↦ rw (e, execute_tool) i
  ]

  freeze_host-Sound : (s : EnvironmentHost V) → SoundTools s → SoundTools (freeze_host world s).1
  unfolding freeze_host
  freeze_host-Sound s i =
      run_until_complete-Sound _ s i (freeze-IsSound world.process s.tools s.session i)

  pub freeze_environment-tools :
      (s : EnvironmentHost V) → (freeze_environment world s).1.tools ≡ (freeze_host world s).1.tools
  unfolding freeze_environment
  freeze_environment-tools s = ground arith

  pub close-tools :
      (s : EnvironmentHost V)
      → ((close world s).1.tools ≡ s.tools)
        ⊎ ((close world s).1.tools ≡ (freeze_host world s).1.tools)
  unfolding close context_of
  close-tools s = ground arith

  -- Whatever the Worker asks, the tools are never settled without being frozen.
  pub serve-Sound :
      (r : Request) (s : EnvironmentHost V) → SoundTools s → SoundTools (serve world r s)
  unfolding serve
  serve-Sound (prepare_request package_ref session config) s i =
      subst IsSound (sym (prepare_environment-tools package_ref session config s)) i
  serve-Sound (reset_request task remaining seed) s i =
      subst IsSound (sym (reset-tools task remaining seed s)) i
  serve-Sound (tools_request session bindings) s i = prepare_tools-Sound session bindings s i
  serve-Sound (execute_request binding call) s i = execute_tool-Sound binding call s i
  serve-Sound freeze_request s i =
      subst IsSound (sym (freeze_environment-tools s)) (freeze_host-Sound s i)
  serve-Sound (snapshot_request remaining) s i =
      subst IsSound (sym (state_snapshot-tools remaining s)) i
  serve-Sound close_request s i = elim (close-tools s) [
    | inl same ↦ subst IsSound (sym same) i
    | inr other ↦ subst IsSound (sym other) (freeze_host-Sound s i)
  ]

  pub serve_all-Sound :
      (rs : List Request) (s : EnvironmentHost V) → SoundTools s → SoundTools (serve_all world rs s)
  unfolding serve_all
  serve_all-Sound [] s i = i
  serve_all-Sound (r ∷ rs) s i = serve_all-Sound rs (serve world r s) (serve-Sound r s i)
