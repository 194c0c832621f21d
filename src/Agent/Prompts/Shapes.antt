-- ===== src/Agent/Prompts/Shapes.antt =====
-- reference/sdk/src/uenv/sdk/agents.py: the shapes of the prompts of `PlainAgent.run`, and of what its rounds keep.
use uenv_design.Base.{◌≡◌, ◌≢◌, refl, Option, some, ◌⊎◌}
use uenv_design.Base.{List, [], ◌∷◌, ◌++◌, inl, inr, All, All-append, Bool-cases}
use mathlib.Core.List.{append-nil, append_assoc}
use uenv_design.Result.{Error, Result, ok, err, agent_error}
use uenv_design.Wire.{Part, Observation, ToolCall, Generation, Message}
use uenv_design.Agent.{Worker, AgentState}
use uenv_design.Agent.Config.{full, last_generation}
use uenv_design.Agent.Config.{HistoryPolicy}
use uenv_design.Agent.{Round, finish, go_on, kept, tool_message, recover, stop_code}

-- The prompts and the answers, the newest first.
abbrev pub Log : Type 0
Log = List (List Message × Result Generation)

-- A Worker that also writes down each generation.
unfoldable pub recording : {W : Type 0} → Worker W → Worker (W × Log)
recording worker = record {
  generate = λ messages (w, log).
      let (r, w') = worker.generate messages w in (r, (w', (messages, r) ∷ log));
  step = λ call (w, log). let (r, w') = worker.step call w in (r, (w', log));
  valid = worker.valid;
}

-- The response of the last generation that succeeded.
abbrev pub last_response : Log → List Part
last_response [] = []
last_response ((_, ok g) ∷ log) = g.response
last_response ((_, err e) ∷ log) = last_response log

-- One exchange: an assistant message, and answers of tools to it.
abbrev Answers : List Message → Type 0
Answers = All (λ m. m.role ≡ "tool")

abbrev pub Exchange : List Message → Type 0
Exchange [] = Unit
Exchange (m ∷ ms) = (m.role ≡ "assistant") × Answers ms

-- What may follow the base messages in a prompt.
abbrev Allowed : HistoryPolicy → List Message → Type 0
Allowed full rest = All (λ m. (m.role ≡ "assistant") ⊎ (m.role ≡ "tool")) rest
Allowed last_generation rest = Exchange rest

abbrev pub Prompt : HistoryPolicy → List Message → List Message → Type 0
Prompt policy base messages =
    (rest : List Message) × (messages ≡ base ++ rest) × Allowed policy rest

abbrev pub Prompts : HistoryPolicy → List Message → Log → Type 0
Prompts policy base = All (λ (messages, r). Prompt policy base messages)

-- A round hands in the response that is the last one, or goes on with it and with one exchange.
abbrev pub Keeps : List Part → Round → Type 0
Keeps last (finish (ok a)) = a ≡ last
Keeps last (finish (err e)) = Unit
Keeps last (go_on response exchange) = (response ≡ last) × Exchange exchange

pub recover-Keeps : (last : List Part) (e : Error) → Keeps last (finish (recover e last))
recover-Keeps last (agent_error code) = elim (Bool-cases (stop_code code)) [
  | inl stop ↦ rw stop refl
  | inr other ↦ rw other tt
]
recover-Keeps last _ = tt

pub Exchange-append :
    (ms : List Message) (call : ToolCall) (o : Observation)
    → Exchange ms
    → ms ≢ []
    → Exchange (ms ++ (tool_message call o ∷ []))
Exchange-append [] call o h k = absurd (k refl)
Exchange-append (m ∷ ms) call o (role, tools) k =
    (role, All-append (λ m. m.role ≡ "tool") ms (tool_message call o ∷ []) tools (refl, tt))

pub append-ne-nil : (ms : List Message) (m : Message) → ms ++ (m ∷ []) ≢ []
append-ne-nil [] m e = cc
append-ne-nil (_ ∷ ms) m e = cc

-- What a run leaves: prompts that are allowed, and an answer that is the last response.
abbrev pub Done :
    {W : Type 0}
    → HistoryPolicy
    → List Message
    → Option (Result (List Part)) × AgentState (W × Log)
    → Type 0
Done policy base (some (ok a), s) = (a ≡ last_response s.world.1) × Prompts policy base s.world.1
Done policy base (_, s) = Prompts policy base s.world.1

Exchange-All :
    (ms : List Message) → Exchange ms → All (λ m. (m.role ≡ "assistant") ⊎ (m.role ≡ "tool")) ms
Exchange-All [] h = tt
Exchange-All (m ∷ ms) (role, tools) = (inl role, go ms tools)
  where
    go : (ms : List Message) → Answers ms → All (λ m. (m.role ≡ "assistant") ⊎ (m.role ≡ "tool")) ms
    go [] h = tt
    go (m ∷ ms) (role, h) = (inr role, go ms h)

pub Prompt-refl : (policy : HistoryPolicy) (base : List Message) → Prompt policy base base
Prompt-refl full base = ([], rw append-nil, tt)
Prompt-refl last_generation base = ([], rw append-nil, tt)

pub Prompt-kept :
    (policy : HistoryPolicy) (base messages exchange : List Message)
    → Prompt policy base messages
    → Exchange exchange
    → Prompt policy base (kept policy base messages ++ exchange)
Prompt-kept full base messages exchange (rest, same, allowed) e = (
  rest ++ exchange,
  rw (same, append_assoc),
  All-append _ rest exchange allowed (Exchange-All exchange e),
)
Prompt-kept last_generation base messages exchange p e = (exchange, refl, e)
