-- ===== src/EnvironmentHost/Snapshots.antt =====
-- A snapshot is taken of what no tool can change any more.
use uenv_design.Base.{
  ℕ, true, ◌≡◌, refl, sym, ap, ◌∙◌, subst, List, [], ◌∷◌, Option, arith, inl, inr, Bool-cases,
  String, none,
}
use uenv_design.Result.{Error, ok, err, runtime_error, Result-cases}
use uenv_design.Wire.{TypedConfig, Binding, ToolCall}
use uenv_design.Session.{Session}
use uenv_design.Tools.Calls.{execute_rejected}
use uenv_design.Tools.Freezing.{IsSound, admit_frozen, prepare_frozen}
use uenv_design.EnvironmentHost.{context_of, state_snapshot}
use uenv_design.EnvironmentHost.State.{EnvironmentHost, HostWorld, new_environment_host}
use uenv_design.Tools.Freeze.{freeze}
use uenv_design.EnvironmentHost.{
  execute_tool, validate_tool, run_tool, run_until_complete, prepare_tools, freeze_host,
}
use uenv_design.EnvironmentHost.Requests.{
  Request, prepare_request, reset_request, tools_request, execute_request, freeze_request,
  snapshot_request, close_request, serve, serve_all, serve_all-Sound, state_snapshot-tools,
  prepare_environment-tools, reset-tools, prepare_tools-tools, freeze_environment-tools,
  close-tools,
}

module _ {V : Type 0} (world : HostWorld V) where
  snapshot_settled :
      (remaining : ℕ) (s : EnvironmentHost V) (state : Option TypedConfig)
      → (state_snapshot world remaining s).0 ≡ ok state
      → s.tools.settled ≡ true
  unfolding state_snapshot context_of
  snapshot_settled remaining s state e = ground arith

  run_tool_frozen :
      (call : ToolCall) (s : EnvironmentHost V)
      → s.tools.frozen ≡ true
      → (e : Error) × (run_tool world call s ≡ (err e, s))
  unfolding run_tool run_until_complete
  run_tool_frozen call s f = elim (Bool-cases s.closed) [
    | inl e ↦ (runtime_error "Event loop is closed", rw e refl)
    | inr e ↦ (
      runtime_error "TOOL_HOST_FROZEN",
      rw
          (
            e,
            execute_rejected world.checks world.process call s.tools s.session _
                (admit_frozen world.checks s.tools call f),
          )
          refl,
    )
  ]

  pub execute_tool_frozen :
      (binding : Binding) (call : ToolCall) (s : EnvironmentHost V)
      → s.tools.frozen ≡ true
      → (e : Error) × (execute_tool world binding call s ≡ (err e, s))
  unfolding execute_tool
  execute_tool_frozen binding call s f = elim (Result-cases (validate_tool world binding call s)) [
    | inl (view, e) ↦
        let (x, refused) = run_tool_frozen call s f in (x, rw (e, execute_tool, refused) refl)
    | inr (x, e) ↦ (x, rw (e, execute_tool) refl)
  ]

  -- The tools of a host that have settled.
  abbrev ToolsFrozen : EnvironmentHost V → Type 0
  ToolsFrozen s = (s.tools.frozen ≡ true) × (s.tools.settled ≡ true)

  prepare_tools_settled :
      (session : String) (bindings : List Binding) (s : EnvironmentHost V)
      → ToolsFrozen s
      → (prepare_tools world session bindings s).1.tools ≡ s.tools
  prepare_tools_settled session bindings s (f, d) =
      elim (prepare_tools-tools world session bindings s) [
        | inl same ↦ same
        | inr other ↦ other ∙ prepare_frozen world.checks _ _ none bindings s.tools f
      ]

  freeze_host_settled :
      (s : EnvironmentHost V) → ToolsFrozen s → (freeze_host world s).1.tools ≡ s.tools
  unfolding freeze_host run_until_complete freeze
  freeze_host_settled s (f, d) = elim (Bool-cases s.closed) [
    | inl e ↦ rw e refl
    | inr e ↦ rw (e, d) refl
  ]

  serve_settled :
      (r : Request) (s : EnvironmentHost V) → ToolsFrozen s → (serve world r s).tools ≡ s.tools
  unfolding serve
  serve_settled (prepare_request package_ref session config) s h =
      prepare_environment-tools world package_ref session config s
  serve_settled (reset_request task remaining seed) s h = reset-tools world task remaining seed s
  serve_settled (tools_request session bindings) s h = prepare_tools_settled session bindings s h
  serve_settled (execute_request binding call) s (f, d) =
      ap (λ o. o.1.tools) (execute_tool_frozen binding call s f).1
  serve_settled freeze_request s h = freeze_environment-tools world s ∙ freeze_host_settled s h
  serve_settled (snapshot_request remaining) s h = state_snapshot-tools world remaining s
  serve_settled close_request s h = elim (close-tools world s) [
    | inl same ↦ same
    | inr other ↦ other ∙ freeze_host_settled s h
  ]

  serve_all_settled :
      (rs : List Request) (s : EnvironmentHost V)
      → ToolsFrozen s
      → (serve_all world rs s).tools ≡ s.tools
  unfolding serve_all
  serve_all_settled [] s h = refl
  serve_all_settled (r ∷ rs) s h =
      let same = serve_settled r s h in
      serve_all_settled rs (serve world r s)
        (subst (λ t. (t.frozen ≡ true) × (t.settled ≡ true)) (sym same) h)
      ∙ same

  -- Whatever the Worker asked of a new host, if a snapshot then succeeds, the tools had settled before it
  -- was taken. And whatever it asks later, the tool host stays as it was, and at any point every call of
  -- a tool is refused and changes neither the host nor the session.
  pub state_snapshot-excludes_calls :
      (session : Session V) (rs later : List Request) (remaining : ℕ) (state : Option TypedConfig)
      (s t u : EnvironmentHost V)
      → serve_all world rs (new_environment_host session) ≡ s
      → state_snapshot world remaining s ≡ (ok state, t)
      → serve_all world later t ≡ u
      → (s.tools.settled ≡ true)
        × (u.tools ≡ s.tools)
        × ((binding : Binding) (call : ToolCall)
            → (e : Error) × (execute_tool world binding call u ≡ (err e, u)))
  state_snapshot-excludes_calls session rs later remaining state s t u served e after =
      let settled = snapshot_settled remaining s state (ap (λ o. o.0) e) in
      let kept = sym (ap (λ o. o.1.tools) e) ∙ state_snapshot-tools world remaining s in
      let sound =
        subst IsSound (ap (λ o. o.tools) served)
          (serve_all-Sound world rs (new_environment_host session) (λ h. cc)) in
      let frozen = sound settled in
      let same =
        sym (ap (λ o. o.tools) after)
        ∙ serve_all_settled later t
            (ap (λ h. h.frozen) kept ∙ frozen, ap (λ h. h.settled) kept ∙ settled)
        ∙ kept in
      (
        settled,
        same,
        λ binding call. execute_tool_frozen binding call u (ap (λ h. h.frozen) same ∙ frozen),
      )
