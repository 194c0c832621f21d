-- ===== src/Agent.antt =====
-- reference/sdk/src/uenv/sdk/agent_context.py and agents.py: the Agent's view of the Worker, and the
-- built-in `PlainAgent`. The Worker is a parameter: an unknown state and the two calls that the RPC
-- peer makes to it.
pub mod Config
pub mod Prompts
pub mod Limits
pub mod Stops
use uenv_design.Base.{ℕ, zero, suc, String, Bool, true, false, not, ◌&&◌, ◌||◌, Option, none, some}
use uenv_design.Base.{List, [], ◌∷◌, ◌++◌, ◌==◌, contains, string_eq, if◌then◌else◌}
use uenv_design.Base.{◌≡◌, refl, ◌⊎◌, inl, inr}
use uenv_design.Base.Dict
use uenv_design.Result.{Error, Result, ok, err, value_error, rpc_error, agent_error, required}
use uenv_design.Result.{validation_error}
use uenv_design.Result
use uenv_design.Exec.{Exec, lift, gets, modify, raise_if, ◌>>=◌, ◌>>◌}
use uenv_design.Wire.{Part, text, Observation, ended, ToolCall, ToolResult, Generation, Message}
use uenv_design.Agent.Config.{HistoryPolicy, full, last_generation, PlainConfig}

-- What the agent process reaches of the Worker. `generate` and `step` are the answers of
-- `peer.request`, which raises `RpcError` for an error response, and `valid` is
-- `registry.validate('ToolResult', ...)`.
pub record Worker (W : Type 0) : Type 0 where
  pub generate : List Message → W → Result Generation × W
  pub step : ToolCall → W → Result ToolResult × W
  pub valid : ToolResult → Bool

-- `WorkerAgentContext`, with the state of the Worker behind its peer.
pub record AgentState (W : Type 0) : Type 0 where
  pub observation : Observation
  pub world : W

-- `_request`: an `RpcError` becomes an `AgentRuntimeError` of the same code.
abbrev pub as_agent_error {ℓ} : {A : Type ℓ} → Result A → Result A
as_agent_error (err (rpc_error code)) = err (agent_error code)
as_agent_error r = r

-- `observation_from_result`
unfoldable pub observation_from_result : ToolResult → Result Observation
observation_from_result r =
    if r.status == "cancelled"
    then Result.◌>>=◌ (required "error" r.error) (λ code. err (agent_error code))
    else required "observation" r.observation

module _ {W : Type 0} (worker : Worker W) where
  -- `WorkerAgentContext.generate`
  unfoldable pub generate : List Message → Exec (AgentState W) Generation
  generate messages s =
      let (r, w) = worker.generate messages s.world in (as_agent_error r, record s { world = w })

  -- `WorkerAgentContext._request('step', call)`
  abbrev request_step : ToolCall → Exec (AgentState W) ToolResult
  request_step call s =
      let (r, w) = worker.step call s.world in (as_agent_error r, record s { world = w })

  -- `WorkerAgentContext.call_tool`
  unfoldable pub call_tool : ToolCall → Exec (AgentState W) Observation
  call_tool call = do
    result ← request_step call
    raise_if (not (worker.valid result)) (validation_error "ToolResult")
    observed ← lift (observation_from_result result)
    modify (λ s. record s { observation = observed })
    gets (λ s. s.observation)

-- The codes on which the agent hands in what it has.
unfoldable pub stop_code : String → Bool
stop_code code =
    contains
      ("GENERATION_LIMIT" ∷ "OUTPUT_TOKEN_LIMIT" ∷ "TOOL_CALL_LIMIT" ∷ "FINALIZE_RESERVE_REACHED"
        ∷ [])
      code

-- The `except AgentRuntimeError` clause.
abbrev pub recover : Error → List Part → Result (List Part)
recover (agent_error code) last = if stop_code code then ok last else err (agent_error code)
recover e last = err e

abbrev system_message : String → List Message
system_message prompt =
    if prompt == ""
    then []
    else record {
      role = "system";
      content = text prompt ∷ [];
      tool_call_id = none;
      tool_calls = [];
    }
      ∷ []

unfoldable pub base_messages : PlainConfig → Observation → List Message
base_messages config o =
    system_message config.system_prompt
    ++ (record { role = "user"; content = o.content; tool_call_id = none; tool_calls = [] } ∷ [])

-- What a round of the loop ends with: an answer or an exception, or the response and the exchange
-- to go on with.
pub data Round : Type 0 where
  finish : Result (List Part) → Round
  go_on : List Part → List Message → Round

pub Round-cases :
    (r : Round)
    → ((outcome : Result (List Part)) × (r ≡ finish outcome))
      ⊎ ((response : List Part) × (exchange : List Message) × (r ≡ go_on response exchange))
Round-cases (finish outcome) = inl (outcome, refl)
Round-cases (go_on response exchange) = inr (response, exchange, refl)

abbrev pub tool_message : ToolCall → Observation → Message
tool_message call o = record {
  role = "tool";
  content = o.content;
  tool_call_id = some call.tool_call_id;
  tool_calls = [];
}

abbrev pub assistant_message : Generation → Message
assistant_message g = record {
  role = "assistant";
  content = g.response;
  tool_call_id = none;
  tool_calls = g.tool_calls;
}

abbrev pub no_calls : List ToolCall → Bool
no_calls [] = true
no_calls (c ∷ cs) = false

unfoldable pub is_final : Generation → Bool
is_final g = g.finish_reason == "stop" || g.finish_reason == "length"

unfoldable pub lacks_calls : Generation → Bool
lacks_calls g = not (g.finish_reason == "tool_calls") || no_calls g.tool_calls

-- The messages that the next exchange is appended to.
abbrev pub kept : HistoryPolicy → List Message → List Message → List Message
kept full base messages = messages
kept last_generation base messages = base

module _ {W : Type 0} (worker : Worker W) where
  -- The `for call in calls` loop, with the exchange so far and the response that it answers.
  unfoldable pub call_tools :
      List ToolCall → List Part → List Message → AgentState W → Round × AgentState W
  call_tools [] last exchange s = (go_on last exchange, s)
  call_tools (call ∷ calls) last exchange s =
      let (r, t) = call_tool worker call s in
      let rest =
        λ (o : Observation). call_tools calls last (exchange ++ (tool_message call o ∷ [])) t in
      elim r [
        | err e ↦ (finish (recover e last), t)
        | ok o ↦ elim (ended t.observation) [ true ↦ (finish (ok last), t) | false ↦ rest o ]
      ]

  -- The reason is tested in the order of the source.
  unfoldable pub answer : Generation → AgentState W → Round × AgentState W
  answer g s =
      if is_final g
      then (finish (ok g.response), s)
      else if lacks_calls g
      then (finish (err (value_error "PLAIN_AGENT_REQUIRES_FINAL_ANSWER_OR_TOOL_CALLS")), s)
      else call_tools g.tool_calls g.response (assistant_message g ∷ []) s

  -- The body of the `try` statement and its handler.
  unfoldable pub play_round : List Message → List Part → AgentState W → Round × AgentState W
  play_round messages last s =
      let (r, t) = generate worker messages s in
      elim r [ err e ↦ (finish (recover e last), t) | ok g ↦ answer g t ]

  -- The `while True` loop, with the messages and the last response. `none` means that the fuel ran
  -- out.
  unfoldable pub run_loop :
      ℕ
      → HistoryPolicy
      → List Message
      → List Message
      → List Part
      → AgentState W
      → Option (Result (List Part)) × AgentState W
  run_loop zero policy base messages last s = (none, s)
  run_loop (suc fuel) policy base messages last s = elim (ended s.observation) [
    | true ↦ (some (ok last), s)
    | false ↦
        let (round, t) = play_round messages last s in
        elim round [
          | finish outcome ↦ (some outcome, t)
          | go_on response exchange ↦
              run_loop fuel policy base (kept policy base messages ++ exchange) response t
        ]
  ]

  -- `PlainAgent.run`
  unfoldable pub run : ℕ → PlainConfig → AgentState W → Option (Result (List Part)) × AgentState W
  unfolding run_loop
  run fuel config s =
      let base = base_messages config s.observation in
      run_loop fuel config.history_policy base base [] s
