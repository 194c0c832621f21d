-- ===== src/Agent/Limits.antt =====
-- reference/sdk/src/uenv/sdk/agents.py: how `PlainAgent.run` ends.
use uenv_design.Base.{ℕ, zero, suc, ◌≤◌, ◌<◌, ◌≡◌, ◌≢◌, inl, inr, true, some, List, [], ◌∷◌}
use uenv_design.Base.{Bool-cases, ◌++◌, arith, string_eq, String}
use mathlib.Core.Option.{some-injective}
use uenv_design.Base.{subst}
use uenv_design.Result.{Error, Result, ok, err, agent_error, Result-cases}
use uenv_design.Wire.{Part, ended, ToolCall, Generation, Message}
use uenv_design.Agent.{Worker, AgentState, Round, finish, go_on, Round-cases, kept}
use uenv_design.Agent.Config.{HistoryPolicy, PlainConfig}
use uenv_design.Agent.{
  is_final, lacks_calls, assistant_message, tool_message, stop_code, recover, generate, call_tool,
  call_tools, answer, play_round, run_loop, base_messages, run,
}

-- The Worker's budget: a successful generation uses some of it, and no call adds to it.
pub record IsBudget {W : Type 0} (worker : Worker W) (budget : W → ℕ) : Type 0 where
  pub generate_spends :
      (messages : List Message) (w : W) (g : Generation)
      → (worker.generate messages w).0 ≡ ok g
      → budget (worker.generate messages w).1 < budget w
  pub step_keeps : (call : ToolCall) (w : W) → budget (worker.step call w).1 ≤ budget w

module _ {W : Type 0} (worker : Worker W) (budget : W → ℕ) (B : IsBudget worker budget) where
  generate-budget :
      (messages : List Message) (s : AgentState W) (g : Generation)
      → (generate worker messages s).0 ≡ ok g
      → budget (generate worker messages s).1.world < budget s.world
  unfolding generate
  generate-budget messages s g h = ground (arith, B.generate_spends messages s.world g)

  call_tool-budget :
      (call : ToolCall) (s : AgentState W)
      → budget (call_tool worker call s).1.world ≤ budget s.world
  unfolding call_tool
  call_tool-budget call s = ground (arith, B.step_keeps call s.world)

  call_tools-budget :
      (calls : List ToolCall) (last : List Part) (exchange : List Message) (s : AgentState W)
      → budget (call_tools worker calls last exchange s).1.world ≤ budget s.world
  unfolding call_tools
  call_tools-budget [] last exchange s = omega arith
  call_tools-budget (call ∷ calls) last exchange s =
      elim (Result-cases (call_tool worker call s).0) [
        | inl (o, e) ↦
            rw (e, call_tools)
              (ground (
                arith,
                call_tool-budget call s,
                call_tools-budget calls last (exchange ++ (tool_message call o ∷ []))
                    (call_tool worker call s).1,
              ))
        | inr (e, h) ↦ rw (h, call_tools) (call_tool-budget call s)
      ]

  answer-budget :
      (g : Generation) (s : AgentState W) → budget (answer worker g s).1.world ≤ budget s.world
  unfolding answer
  answer-budget g s =
      ground (arith, call_tools-budget g.tool_calls g.response (assistant_message g ∷ []) s)

  play_round-budget :
      (messages : List Message) (last : List Part) (s : AgentState W) {response : List Part}
      {exchange : List Message}
      → (play_round worker messages last s).0 ≡ go_on response exchange
      → budget (play_round worker messages last s).1.world < budget s.world
  unfolding play_round
  play_round-budget messages last s h = elim (Result-cases (generate worker messages s).0) [
    | inl (g, e) ↦
        rw (e, play_round)
          (ground
            (arith, generate-budget messages s g e, answer-budget g (generate worker messages s).1))
    | inr (e, k) ↦ cc
  ]

  run_loop-total :
      (fuel : ℕ) (policy : HistoryPolicy) (base messages : List Message) (last : List Part)
      (s : AgentState W)
      → budget s.world < fuel
      → (r : Result (List Part)) × ((run_loop worker fuel policy base messages last s).0 ≡ some r)
  unfolding run_loop
  run_loop-total zero policy base messages last s h = elim h [ ]
  run_loop-total (suc fuel) policy base messages last s h =
      elim (Bool-cases (ended s.observation)) [
        | inl e ↦ (ok last, rw (e, run_loop))
        | inr e ↦ elim (Round-cases (play_round worker messages last s).0) [
          | inl (outcome, k) ↦ (outcome, rw (e, run_loop, k))
          | inr (response, exchange, k) ↦
              rw (e, run_loop, k)
                (run_loop-total fuel policy base (kept policy base messages ++ exchange) response
                  (play_round worker messages last s).1
                  (omega (arith, play_round-budget messages last s k)))
        ]
      ]

-- With more fuel than the Worker's budget of generations the agent's run ends: with an answer or
-- with an exception.
pub run-total :
    {W : Type 0} (worker : Worker W) (budget : W → ℕ)
    → IsBudget worker budget
    → (fuel : ℕ) (config : PlainConfig) (s : AgentState W) → budget s.world < fuel
    → (r : Result (List Part)) × ((run worker fuel config s).0 ≡ some r)
unfolding run
run-total worker budget B fuel config s h =
    let base = base_messages config s.observation in
    run_loop-total worker budget B fuel config.history_policy base base [] s h

module _ (code : String) (stop : stop_code code ≡ true) where
  abbrev Handled : Round → Type 0
  Handled (finish outcome) = outcome ≢ err (agent_error code)
  Handled (go_on response exchange) = Unit

  recover-ne-stop : (e : Error) (last : List Part) → recover e last ≢ err (agent_error code)
  recover-ne-stop (agent_error c) last k = ground arith
  recover-ne-stop _ last k = cc

  module _ {W : Type 0} (worker : Worker W) where
    call_tools-Handled :
        (calls : List ToolCall) (last : List Part) (exchange : List Message) (s : AgentState W)
        → Handled (call_tools worker calls last exchange s).0
    unfolding call_tools
    call_tools-Handled [] last exchange s = tt
    call_tools-Handled (call ∷ calls) last exchange s =
        elim (Result-cases (call_tool worker call s).0) [
          | inr (e, h) ↦ rw (h, call_tools) (recover-ne-stop e last)
          | inl (o, e) ↦ elim (Bool-cases (ended (call_tool worker call s).1.observation)) [
            | inl over ↦ rw (e, call_tools, over) (λ k. cc)
            | inr more ↦
                rw (e, call_tools, more)
                  (call_tools-Handled calls last (exchange ++ (tool_message call o ∷ []))
                    (call_tool worker call s).1)
          ]
        ]

    answer-Handled : (g : Generation) (s : AgentState W) → Handled (answer worker g s).0
    unfolding answer
    answer-Handled g s = elim (Bool-cases (is_final g)) [
      | inl final ↦ rw (final, answer) (λ k. cc)
      | inr more ↦ elim (Bool-cases (lacks_calls g)) [
        | inl bad ↦ rw (more, bad, answer) (λ k. cc)
        | inr good ↦
            rw (more, good, answer)
              (call_tools-Handled g.tool_calls g.response (assistant_message g ∷ []) s)
      ]
    ]

    play_round-Handled :
        (messages : List Message) (last : List Part) (s : AgentState W)
        → Handled (play_round worker messages last s).0
    unfolding play_round
    play_round-Handled messages last s = elim (Result-cases (generate worker messages s).0) [
      | inl (g, e) ↦ rw (e, play_round) (answer-Handled g (generate worker messages s).1)
      | inr (e, h) ↦ rw (h, play_round) (recover-ne-stop e last)
    ]

    run_loop-ne-stop :
        (fuel : ℕ) (policy : HistoryPolicy) (base messages : List Message) (last : List Part)
        (s : AgentState W)
        → (run_loop worker fuel policy base messages last s).0 ≢ some (err (agent_error code))
    unfolding run_loop
    run_loop-ne-stop zero policy base messages last s = λ k. cc
    run_loop-ne-stop (suc fuel) policy base messages last s =
        elim (Bool-cases (ended s.observation)) [
          | inl e ↦ rw (e, run_loop) (λ k. cc)
          | inr e ↦ elim (Round-cases (play_round worker messages last s).0) [
            | inl (outcome, k) ↦
                let never : outcome ≢ err (agent_error code) =
                  subst Handled k (play_round-Handled messages last s) in
                rw (e, run_loop, k) (λ q. never (some-injective _ _ q))
            | inr (response, exchange, k) ↦
                rw (e, run_loop, k)
                  (run_loop-ne-stop fuel policy base (kept policy base messages ++ exchange)
                    response (play_round worker messages last s).1)
          ]
        ]

-- The agent's run never raises an `AgentRuntimeError` with one of the four limit codes.
pub run-ne-stop :
    {W : Type 0} (worker : Worker W) (fuel : ℕ) (config : PlainConfig) (s : AgentState W)
    (code : String)
    → stop_code code ≡ true
    → (run worker fuel config s).0 ≢ some (err (agent_error code))
unfolding run
run-ne-stop worker fuel config s code stop =
    let base = base_messages config s.observation in
    run_loop-ne-stop code stop worker fuel config.history_policy base base [] s
