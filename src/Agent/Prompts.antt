-- ===== src/Agent/Prompts.antt =====
-- What `PlainAgent.run` sends to the model, and what it hands in, seen through a Worker that keeps a
-- record of the generations.
pub mod Shapes
use uenv_design.Base.{ℕ, zero, suc, ◌≡◌, ◌≢◌, refl, Option, some, ◌⊎◌}
use uenv_design.Base.{List, [], ◌∷◌, ◌++◌, inl, inr, arith, All, All-append, Bool-cases}
use mathlib.Core.List.{append-nil, append_assoc}
use uenv_design.Base.{subst}
use uenv_design.Result.{Error, Result, ok, err, agent_error, Result-cases}
use uenv_design.Wire.{Part, Observation, ended, ToolCall, Generation, Message}
use uenv_design.Agent.{Worker, AgentState}
use uenv_design.Agent.Config.{full, last_generation}
use uenv_design.Agent.Config.{HistoryPolicy, PlainConfig}
use uenv_design.Agent.{
  Round, finish, go_on, Round-cases, kept, is_final, lacks_calls, assistant_message, tool_message,
  recover, stop_code, generate,
}
use uenv_design.Agent.{call_tool, call_tools, answer, play_round, run_loop, base_messages, run}
use uenv_design.Agent.Prompts.Shapes.{
  Log, recording, last_response, Exchange, Prompt, Prompts, Keeps, recover-Keeps, Exchange-append,
  append-ne-nil, Done, Prompt-refl, Prompt-kept,
}

module _ {W : Type 0} (worker : Worker W) where
  abbrev R : Worker (W × Log)
  R = recording worker

  log-call_tool :
      (call : ToolCall) (s : AgentState (W × Log)) → (call_tool R call s).1.world.1 ≡ s.world.1
  unfolding call_tool recording
  log-call_tool call s = ground arith

  log-call_tools :
      (calls : List ToolCall) (last : List Part) (exchange : List Message)
      (s : AgentState (W × Log))
      → (call_tools R calls last exchange s).1.world.1 ≡ s.world.1
  unfolding call_tools
  log-call_tools [] last exchange s = refl
  log-call_tools (call ∷ calls) last exchange s = elim (Result-cases (call_tool R call s).0) [
    | inr (e, h) ↦ rw (h, call_tools) (log-call_tool call s)
    | inl (o, e) ↦
        rw (e, call_tools)
          (ground (
            arith,
            log-call_tool call s,
            log-call_tools calls last (exchange ++ (tool_message call o ∷ []))
                (call_tool R call s).1,
          ))
  ]

  call_tools-Keeps :
      (calls : List ToolCall) (last : List Part) (exchange : List Message)
      (s : AgentState (W × Log))
      → Exchange exchange
      → exchange ≢ []
      → Keeps last (call_tools R calls last exchange s).0
  unfolding call_tools
  call_tools-Keeps [] last exchange s h full_one = (refl, h)
  call_tools-Keeps (call ∷ calls) last exchange s h full_one =
      elim (Result-cases (call_tool R call s).0) [
        | inr (e, k) ↦ rw (k, call_tools) (recover-Keeps last e)
        | inl (o, e) ↦ elim (Bool-cases (ended (call_tool R call s).1.observation)) [
          | inl over ↦ rw (e, call_tools, over) refl
          | inr more ↦
              rw (e, call_tools, more)
                (call_tools-Keeps calls last (exchange ++ (tool_message call o ∷ []))
                  (call_tool R call s).1 (Exchange-append exchange call o h full_one)
                  (append-ne-nil exchange (tool_message call o)))
        ]
      ]

  answer-Keeps : (g : Generation) (s : AgentState (W × Log)) → Keeps g.response (answer R g s).0
  unfolding answer
  answer-Keeps g s = elim (Bool-cases (is_final g)) [
    | inl final ↦ rw (final, answer) refl
    | inr more ↦ elim (Bool-cases (lacks_calls g)) [
      | inl bad ↦ rw (more, bad, answer) tt
      | inr good ↦
          rw (more, good, answer)
            (call_tools-Keeps g.tool_calls g.response (assistant_message g ∷ []) s (refl, tt)
              (λ e. cc))
    ]
  ]

  log-answer : (g : Generation) (s : AgentState (W × Log)) → (answer R g s).1.world.1 ≡ s.world.1
  unfolding answer
  log-answer g s =
      ground (arith, log-call_tools g.tool_calls g.response (assistant_message g ∷ []) s)

  -- The log after a generation.
  last_response-ok :
      (messages : List Message) (s : AgentState (W × Log)) (g : Generation)
      → (generate R messages s).0 ≡ ok g
      → last_response (generate R messages s).1.world.1 ≡ g.response
  unfolding generate recording
  last_response-ok messages s g h = ground arith

  last_response-err :
      (messages : List Message) (s : AgentState (W × Log)) (e : Error)
      → (generate R messages s).0 ≡ err e
      → last_response (generate R messages s).1.world.1 ≡ last_response s.world.1
  unfolding generate recording
  last_response-err messages s e h = ground arith

  Prompts-generate :
      (policy : HistoryPolicy) (base messages : List Message) (s : AgentState (W × Log))
      → Prompt policy base messages
      → Prompts policy base s.world.1
      → Prompts policy base (generate R messages s).1.world.1
  unfolding generate recording
  Prompts-generate policy base messages s p ps = (p, ps)

  Prompts-play_round :
      (policy : HistoryPolicy) (base messages : List Message) (last : List Part)
      (s : AgentState (W × Log))
      → Prompt policy base messages
      → Prompts policy base s.world.1
      → Prompts policy base (play_round R messages last s).1.world.1
  unfolding play_round
  Prompts-play_round policy base messages last s p ps =
      elim (Result-cases (generate R messages s).0) [
        | inl (g, e) ↦ rw (e, play_round, log-answer) (Prompts-generate policy base messages s p ps)
        | inr (e, k) ↦ rw (k, play_round) (Prompts-generate policy base messages s p ps)
      ]

  play_round-Keeps :
      (messages : List Message) (last : List Part) (s : AgentState (W × Log))
      → last ≡ last_response s.world.1
      → Keeps
          (last_response (play_round R messages last s).1.world.1)
          (play_round R messages last s).0
  unfolding play_round
  play_round-Keeps messages last s h = elim (Result-cases (generate R messages s).0) [
    | inl (g, e) ↦
        rw (e, play_round, log-answer, last_response-ok messages s g e)
          (answer-Keeps g (generate R messages s).1)
    | inr (e, k) ↦ rw (k, play_round, last_response-err messages s e k, ← h) (recover-Keeps last e)
  ]

  run_loop-Done :
      (fuel : ℕ) (policy : HistoryPolicy) (base messages : List Message) (last : List Part)
      (s : AgentState (W × Log))
      → Prompt policy base messages
      → last ≡ last_response s.world.1
      → Prompts policy base s.world.1
      → Done policy base (run_loop R fuel policy base messages last s)
  unfolding run_loop
  run_loop-Done zero policy base messages last s p h ps = ps
  run_loop-Done (suc fuel) policy base messages last s p h ps =
      let t = (play_round R messages last s).1 in
      let written = Prompts-play_round policy base messages last s p ps in
      elim (Bool-cases (ended s.observation)) [
        | inl e ↦ rw (e, run_loop) (h, ps)
        | inr e ↦ elim (Round-cases (play_round R messages last s).0) [
          | inl (ok a, k) ↦
              rw (e, run_loop, k)
                (
                  subst (Keeps (last_response t.world.1)) k (play_round-Keeps messages last s h),
                  written,
                )
          | inl (err x, k) ↦ rw (e, run_loop, k) written
          | inr (response, exchange, k) ↦
              let (same, one) =
                subst (Keeps (last_response t.world.1)) k (play_round-Keeps messages last s h) in
              rw (e, run_loop, k)
                (run_loop-Done fuel policy base (kept policy base messages ++ exchange) response t
                  (Prompt-kept policy base messages exchange p one) same written)
        ]
      ]

-- Every prompt of a run begins with the base messages. Under `full` assistant and tool messages
-- follow; under `last_generation` at most one exchange does, an assistant message and the answers
-- of tools to it. An answer that the run returns is the response of its last successful generation,
-- or empty if there is none.
pub run_prompts :
    {W : Type 0} (worker : Worker W) (fuel : ℕ) (config : PlainConfig) (o : Observation) (w : W)
    → Done config.history_policy
        (base_messages config o)
        (run (recording worker) fuel config (record { observation = o; world = (w, []) }))
unfolding run
run_prompts worker fuel config o w =
    let base = base_messages config o in
    run_loop-Done worker fuel config.history_policy base base []
      (record { observation = o; world = (w, []) }) (Prompt-refl config.history_policy base) refl tt
