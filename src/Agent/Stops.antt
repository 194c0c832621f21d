-- ===== src/Agent/Stops.antt =====
-- reference/sdk/src/uenv/sdk/agents.py: what `PlainAgent.run` hands in on a limit code.
use uenv_design.Base.{ℕ, suc, ◌≡◌, inl, inr, true, false, ◌⊎◌, refl, some, List, [], ◌∷◌}
use uenv_design.Base.{◌++◌, string_eq, String}
use uenv_design.Result.{ok, err, agent_error}
use uenv_design.Wire.{Part, Observation, ended, ToolCall, Generation, Message}
use uenv_design.Agent.{Worker, AgentState, finish}
use uenv_design.Agent.Config.{HistoryPolicy}
use uenv_design.Agent.{
  is_final, lacks_calls, assistant_message, tool_message, stop_code, generate, call_tool,
  call_tools, answer, play_round, run_loop,
}

module _ {W : Type 0} (worker : Worker W) (code : String) where
  -- One of the calls fails with the code, and the calls before it succeed and do not end the episode.
  abbrev pub StopsIn : List ToolCall → AgentState W → Type 0
  StopsIn [] s = ⊥
  StopsIn (call ∷ calls) s =
      ((call_tool worker call s).0 ≡ err (agent_error code))
      ⊎ ((o : Observation) × ((call_tool worker call s).0 ≡ ok o)
          × (ended (call_tool worker call s).1.observation ≡ false)
          × StopsIn calls (call_tool worker call s).1)

  -- A generation asks for calls, one of which fails with the code.
  pub record StopsAfter (messages : List Message) (s : AgentState W) (g : Generation) : Type 0 where
    pub generated : (generate worker messages s).0 ≡ ok g
    pub not_final : is_final g ≡ false
    pub has_calls : lacks_calls g ≡ false
    pub stops : StopsIn g.tool_calls (generate worker messages s).1

  -- What the agent has when the code comes in this round: the last response if the generation fails
  -- with it, the new one if a call does.
  abbrev pub Has : List Message → List Part → AgentState W → List Part → Type 0
  Has messages last s response =
      (((generate worker messages s).0 ≡ err (agent_error code)) × (response ≡ last))
      ⊎ ((g : Generation) × StopsAfter messages s g × (response ≡ g.response))

  module _ (stop : stop_code code ≡ true) where
    call_tools-StopsIn :
        (calls : List ToolCall) (last : List Part) (exchange : List Message) (s : AgentState W)
        → StopsIn calls s
        → (call_tools worker calls last exchange s).0 ≡ finish (ok last)
    unfolding call_tools
    call_tools-StopsIn [] last exchange s h = absurd h
    call_tools-StopsIn (call ∷ calls) last exchange s (inl e) = rw (e, call_tools, stop) refl
    call_tools-StopsIn (call ∷ calls) last exchange s (inr (o, e, more, h)) =
        rw (e, call_tools, more)
          (call_tools-StopsIn calls last (exchange ++ (tool_message call o ∷ []))
            (call_tool worker call s).1 h)

    play_round-Has :
        (messages : List Message) (last response : List Part) (s : AgentState W)
        → Has messages last s response
        → (play_round worker messages last s).0 ≡ finish (ok response)
    unfolding play_round answer
    play_round-Has messages last response s (inl (e, same)) = rw (e, play_round, stop, same) refl
    play_round-Has messages last response s (inr (g, h, same)) =
        rw (h.generated, play_round, h.not_final, answer, h.has_calls, same)
          (call_tools-StopsIn g.tool_calls g.response (assistant_message g ∷ []) _ h.stops)

-- On a limit code the agent hands in what it has. In any round of its loop on whose generation the Worker
-- answers with one of the four codes, the loop ends with the last response. In a round one of whose
-- calls the Worker refuses with such a code, after calls that succeed and do not end the episode, it
-- ends with the response of that round.
pub run_loop-Has :
    {W : Type 0} (worker : Worker W) (fuel : ℕ) (policy : HistoryPolicy)
    (base messages : List Message) (last response : List Part) (s : AgentState W) (code : String)
    → stop_code code ≡ true
    → ended s.observation ≡ false
    → Has worker code messages last s response
    → (run_loop worker (suc fuel) policy base messages last s).0 ≡ some (ok response)
unfolding run_loop
run_loop-Has worker fuel policy base messages last response s code stop more h =
    rw (more, run_loop, play_round-Has worker code stop messages last response s h) refl
