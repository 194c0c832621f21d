-- ===== src/Tests/AgentRuns.antt =====
-- `PlainAgent` against a Worker that grants three generations.
use uenv_design.Base.{ℕ, zero, suc, ◌<◌, ◌≡◌, ◌≢◌, refl, true, false, none, some, List, [], ◌∷◌}
use uenv_design.Base.{arith, string_eq, inl}
use uenv_design.Result.{Result, ok, err, rpc_error, agent_error}
use uenv_design.Wire.{Part, text, Observation, ended, ToolCall, Generation, Message}
use uenv_design.Agent.{Worker, AgentState, run, run_loop}
use uenv_design.Agent.Config.{last_generation}
use uenv_design.Agent.Config.{PlainConfig, plain_agent}
use uenv_design.Agent.{generate, call_tool, base_messages, observation_from_result, stop_code}
use uenv_design.Agent.{is_final, lacks_calls, call_tools, answer, play_round}
use uenv_design.Agent.Limits.{IsBudget, run-total, run-ne-stop}
use uenv_design.Agent.Stops.{run_loop-Has}
use uenv_design.Agent.Prompts.{run_prompts}
use uenv_design.Agent.Prompts.Shapes.{Done, recording}
use uenv_design.Value.{str}

abbrev said : List Part
said = text "calling" ∷ []

abbrev call : ToolCall
call = record {
  tool_call_id = "c1";
  name = "echo";
  implementation = record { id = "tools/echo"; version = "1.0.0"; digest = "sha256:0" };
  arguments = [];
}

abbrev asking : Generation
asking = record { response = said; finish_reason = "tool_calls"; tool_calls = call ∷ [] }

abbrev seen : Observation
seen = record { content = text "ok" ∷ []; terminated = false; episode_truncated = false }

-- The world is the number of generations left.
abbrev granted : List Message → ℕ → Result Generation × ℕ
granted messages zero = (err (rpc_error "GENERATION_LIMIT"), 0)
granted messages (suc n) = (ok asking, n)

abbrev worker : Worker ℕ
worker = record {
  generate = granted;
  step = λ c n. (
    ok (record {
      tool_call_id = c.tool_call_id;
      status = "ok";
      observation = some seen;
      error = none;
    }),
    n,
  );
  valid = λ r. true;
}

abbrev config : PlainConfig
config = record { history_policy = last_generation; system_prompt = "" }

abbrev start : AgentState ℕ
start = record { observation = seen; world = 3 }

accepted_config :
    plain_agent (("system_prompt", str "") ∷ ("history_policy", str "last_generation") ∷ [])
    ≡ ok config
unfolding plain_agent string_eq
accepted_config = refl

run_to_limit : (run worker 5 config start).0 ≡ some (ok said)
unfolding run call_tools call_tool generate answer play_round ended base_messages
    observation_from_result string_eq stop_code is_final lacks_calls
run_to_limit = refl

worker-IsBudget : IsBudget worker (λ n. n)
worker-IsBudget = record { generate_spends = spends; step_keeps = λ c w. omega arith }
  where
    spends :
        (messages : List Message) (w : ℕ) (g : Generation)
        → (granted messages w).0 ≡ ok g
        → (granted messages w).1 < w
    spends messages zero g h = cc
    spends messages (suc n) g h = omega arith

run-total_example : (r : Result (List Part)) × ((run worker 5 config start).0 ≡ some r)
run-total_example = run-total worker (λ n. n) worker-IsBudget 5 config start (omega arith)

run-ne-stop_example : (run worker 5 config start).0 ≢ some (err (agent_error "GENERATION_LIMIT"))
unfolding stop_code string_eq
run-ne-stop_example = run-ne-stop worker 5 config start "GENERATION_LIMIT" refl

run_loop-Has_example :
    (run_loop worker 5 last_generation [] [] said (record start { world = 0 })).0 ≡ some (ok said)
unfolding generate stop_code ended string_eq
run_loop-Has_example =
    run_loop-Has worker 4 last_generation [] [] said said (record start { world = 0 })
      "GENERATION_LIMIT" refl refl (inl (refl, refl))

run_prompts_example :
    Done last_generation
      (base_messages config seen)
      (run (recording worker) 5 config (record { observation = seen; world = (3, []) }))
run_prompts_example = run_prompts worker 5 config seen 3
