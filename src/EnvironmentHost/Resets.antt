-- ===== src/EnvironmentHost/Resets.antt =====
-- An environment is reset at most once.
use uenv_design.Base.{ℕ, String, true, ◌≡◌, refl, sym, ap, ◌∙◌, List, [], ◌∷◌}
use uenv_design.Base.{arith, string_eq, option_eq}
use uenv_design.Result.{ok, err, rpc_error}
use uenv_design.Wire.{ComponentRef, component_eq, TypedConfig, Binding, ToolCall}
use uenv_design.Task.{WireTask, TaskSpec}
use uenv_design.EnvironmentHost.{context_of, prepare_environment, reset}
use uenv_design.EnvironmentHost.State.{EnvironmentHost, HostWorld}
use uenv_design.EnvironmentHost.{reset_accepted, accept_reset, prepare_tools, execute_tool}
use uenv_design.EnvironmentHost.{
  run_until_complete, run_tool, freeze_host, freeze_environment, state_snapshot, close,
}
use uenv_design.EnvironmentHost.Requests.{Request, prepare_request, reset_request, tools_request}
use uenv_design.EnvironmentHost.Requests.{
  execute_request, freeze_request, snapshot_request, close_request,
}
use uenv_design.EnvironmentHost.Requests.{serve, serve_all}

module _ {V : Type 0} (world : HostWorld V) where
  reset_accepted-reset_done :
      (task : TaskSpec) (remaining seed : ℕ) (s : EnvironmentHost V)
      → (reset_accepted world task remaining seed s).1.reset_done ≡ true
  unfolding reset_accepted context_of
  reset_accepted-reset_done task remaining seed s = ground arith

  reset-reset_done :
      (task : WireTask) (remaining seed : ℕ) (view : TaskSpec) (s : EnvironmentHost V)
      → accept_reset world task s ≡ ok view
      → (reset world task remaining seed s).1.reset_done ≡ true
  unfolding reset
  reset-reset_done task remaining seed view s e =
      rw (e, reset) (reset_accepted-reset_done view remaining seed s)

  accept_reset_again :
      (task : WireTask) (s : EnvironmentHost V)
      → s.reset_done ≡ true
      → accept_reset world task s ≡ err (rpc_error "ENVIRONMENT_RESET_STATE_INVALID")
  unfolding accept_reset
  accept_reset_again task s d = ground arith

  reset_again :
      (task : WireTask) (remaining seed : ℕ) (s : EnvironmentHost V)
      → s.reset_done ≡ true
      → reset world task remaining seed s ≡ (err (rpc_error "ENVIRONMENT_RESET_STATE_INVALID"), s)
  unfolding reset
  reset_again task remaining seed s d = rw (accept_reset_again task s d, reset) refl

  prepare_environment-reset_done :
      (package_ref : ComponentRef) (session : String) (config : TypedConfig) (s : EnvironmentHost V)
      → (prepare_environment world package_ref session config s).1.reset_done ≡ s.reset_done
  unfolding prepare_environment
  prepare_environment-reset_done package_ref session config s = ground arith

  prepare_tools-reset_done :
      (session : String) (bindings : List Binding) (s : EnvironmentHost V)
      → (prepare_tools world session bindings s).1.reset_done ≡ s.reset_done
  unfolding prepare_tools
  prepare_tools-reset_done session bindings s = ground arith

  execute_tool-reset_done :
      (binding : Binding) (call : ToolCall) (s : EnvironmentHost V)
      → (execute_tool world binding call s).1.reset_done ≡ s.reset_done
  unfolding execute_tool run_tool run_until_complete
  execute_tool-reset_done binding call s = ground arith

  freeze_environment-reset_done :
      (s : EnvironmentHost V) → (freeze_environment world s).1.reset_done ≡ s.reset_done
  unfolding freeze_environment freeze_host run_until_complete
  freeze_environment-reset_done s = ground arith

  state_snapshot-reset_done :
      (remaining : ℕ) (s : EnvironmentHost V)
      → (state_snapshot world remaining s).1.reset_done ≡ s.reset_done
  unfolding state_snapshot context_of
  state_snapshot-reset_done remaining s = ground arith

  close-reset_done : (s : EnvironmentHost V) → (close world s).1.reset_done ≡ s.reset_done
  unfolding close context_of freeze_host run_until_complete
  close-reset_done s = ground arith

  serve-reset_done :
      (r : Request) (s : EnvironmentHost V)
      → s.reset_done ≡ true
      → (serve world r s).reset_done ≡ true
  unfolding serve
  serve-reset_done (prepare_request package_ref session config) s d =
      prepare_environment-reset_done package_ref session config s ∙ d
  serve-reset_done (reset_request task remaining seed) s d =
      ap (λ o. o.1.reset_done) (reset_again task remaining seed s d) ∙ d
  serve-reset_done (tools_request session bindings) s d =
      prepare_tools-reset_done session bindings s ∙ d
  serve-reset_done (execute_request binding call) s d = execute_tool-reset_done binding call s ∙ d
  serve-reset_done freeze_request s d = freeze_environment-reset_done s ∙ d
  serve-reset_done (snapshot_request remaining) s d = state_snapshot-reset_done remaining s ∙ d
  serve-reset_done close_request s d = close-reset_done s ∙ d

  serve_all-reset_done :
      (rs : List Request) (s : EnvironmentHost V)
      → s.reset_done ≡ true
      → (serve_all world rs s).reset_done ≡ true
  unfolding serve_all
  serve_all-reset_done [] s d = d
  serve_all-reset_done (r ∷ rs) s d =
      serve_all-reset_done rs (serve world r s) (serve-reset_done r s d)

  -- Once a reset has passed its checks, every later one is refused and changes nothing, whether the
  -- environment's own reset succeeded or raised and whatever was asked in between.
  pub reset_once :
      (task again : WireTask) (remaining seed later other : ℕ) (view : TaskSpec) (rs : List Request)
      (s t : EnvironmentHost V)
      → accept_reset world task s ≡ ok view
      → serve_all world (reset_request task remaining seed ∷ rs) s ≡ t
      → reset world again later other t ≡ (err (rpc_error "ENVIRONMENT_RESET_STATE_INVALID"), t)
  unfolding serve_all serve
  reset_once task again remaining seed later other view rs s t accepted served =
      reset_again again later other t (
        ap (λ o. o.reset_done) (sym served)
        ∙ serve_all-reset_done rs _ (reset-reset_done task remaining seed view s accepted))
