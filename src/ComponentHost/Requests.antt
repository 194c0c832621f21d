-- ===== src/ComponentHost/Requests.antt =====
-- The requests that the Worker sends to an agent process, in any order.
use uenv_design.Base.{
  String, ℕ, ◌≡◌, refl, sym, arith, List, [], ◌∷◌, Option, none, some, string_eq,
}
use uenv_design.Base.{Bool, true, false, not, ◌∙◌, ap, subst, option_eq, any, inl, inr, ◌||◌}
use uenv_design.Base.{Bool-cases, Option-cases}
use uenv_design.Base.Dict.{Dict}
use uenv_design.Result.{Result-cases}
use uenv_design.Wire.{Binding, binding_eq, ToolCall, Observation}
use uenv_design.Task.{WireTask}
use uenv_design.Modeling.{Datum, ModelClass, Classes}
use uenv_design.ComponentHost.{
  AgentSpec, ComponentHost, ComponentWorld, new_component_host, is_local, local_of, prepare_tools,
  validate_tool, execute_tool, run_tool, run_on_loop, freeze_tools, close,
}
use uenv_design.Result.{Result}
use uenv_design.Tools.{ToolHost}
use uenv_design.ComponentHost.Preparing.{prepare_agent, same_table, has_agent}
use uenv_design.ComponentHost.Running.{run_agent}
use uenv_design.ComponentHost.Tables.{
  Fixed, Fixed-trans, same_bindings_eq, prepare_checked-Preserves,
}

pub data Request : Type 0 where
  tools_request : List Binding → Request
  agent_request : AgentSpec → List Binding → String → Request
  run_request : WireTask → Observation → ℕ → Request
  execute_request : Binding → ToolCall → Request
  freeze_request close_request : Request

-- What the host knows of models and of the registry, besides its world.
pub record Knowledge : Type 0 where
  pub depth : ℕ
  pub classes : Classes
  pub valid_task : WireTask → Bool
  pub valid_observation : Observation → Bool
  pub models : Dict String ModelClass
  pub extensions : Dict String (Dict String Datum)

-- The table of the process has its own bindings alone, and is what the agent's table has of them.
abbrev AllLocal : Option (List Binding) → Type 0
AllLocal none = Unit
AllLocal (some table) = any (λ b. not (is_local b)) table ≡ false

abbrev Matches : Option (List Binding) → Option (List Binding) → Type 0
Matches none local = Unit
Matches (some table) local = local ≡ some (local_of table)

pub record Agree {W : Type 0} (s : ComponentHost W) : Type 0 where
  pub own : AllLocal s.local_bindings
  pub matching : Matches s.bindings s.local_bindings

module _ {W : Type 0} (world : ComponentWorld W) (k : Knowledge) where
  unfoldable pub serve : Request → ComponentHost W → ComponentHost W
  serve (tools_request tools) s = (prepare_tools world tools s).1
  serve (agent_request spec tools model_id) s = (prepare_agent world spec tools model_id s).1
  serve (run_request task observation seed) s =
      (run_agent k.depth k.classes k.valid_task k.valid_observation k.models k.extensions task
        observation seed s).1
  serve (execute_request binding call) s = (execute_tool world binding call s).1
  serve freeze_request s = (freeze_tools world s).1
  serve close_request s = (close world s).1

  unfoldable pub serve_all : List Request → ComponentHost W → ComponentHost W
  serve_all [] s = s
  serve_all (r ∷ rs) s = serve_all rs (serve r s)

  run_on_loop-Fixed :
      {A : Type 0} (f : ToolHost W × W → Result A × ToolHost W × W) (s : ComponentHost W)
      → Fixed s (run_on_loop world f s).1
  unfolding run_on_loop
  run_on_loop-Fixed f s = elim (Bool-cases s.closed) [
    | inl e ↦ rw e (record { local = refl; bound = refl; chosen = refl })
    | inr e ↦ rw e (record { local = refl; bound = refl; chosen = refl })
  ]

  execute_tool-Fixed :
      (binding : Binding) (call : ToolCall) (s : ComponentHost W)
      → Fixed s (execute_tool world binding call s).1
  unfolding execute_tool run_tool
  execute_tool-Fixed binding call s = elim (Result-cases (validate_tool world binding call s)) [
    | inl (u, e) ↦ rw (e, execute_tool) (run_on_loop-Fixed _ s)
    | inr (x, e) ↦ rw (e, execute_tool) (record { local = refl; bound = refl; chosen = refl })
  ]

  run_agent-Fixed :
      (task : WireTask) (observation : Observation) (seed : ℕ) (s : ComponentHost W)
      → Fixed s (serve (run_request task observation seed) s)
  unfolding serve run_agent
  run_agent-Fixed task observation seed s = record {
    local = ground arith;
    bound = ground arith;
    chosen = ground arith;
  }

  close-Fixed : (s : ComponentHost W) → Fixed s (close world s).1
  unfolding close
  close-Fixed s = record { local = ground arith; bound = ground arith; chosen = ground arith }

  freeze_tools-Fixed : (s : ComponentHost W) → Fixed s (freeze_tools world s).1
  unfolding freeze_tools
  freeze_tools-Fixed s = run_on_loop-Fixed _ s

Agree-Fixed : {W : Type 0} (s t : ComponentHost W) → Fixed s t → Agree s → Agree t
Agree-Fixed s t f a = record {
  own = subst AllLocal (sym f.local) a.own;
  matching = rw (f.bound, f.local) a.matching;
}

-- No table of the agent without one of the process.
Matches-none : (bindings : Option (List Binding)) → Matches bindings none → bindings ≡ none
Matches-none none h = refl
Matches-none (some table) h = cc

same_table-local_of :
    (tools : List Binding) (local : Option (List Binding))
    → same_table (local_of tools) local ≡ true
    → local ≡ some (local_of tools)
same_table-local_of tools none h = cc
same_table-local_of tools (some table) h = ap some (sym (same_bindings_eq (local_of tools) table h))

module _ {W : Type 0} (world : ComponentWorld W) where
  prepare_tools-Agree :
      (tools : List Binding) (s : ComponentHost W) → Agree s → Agree (prepare_tools world tools s).1
  unfolding prepare_tools
  prepare_tools-Agree tools s a = elim (Option-cases s.local_bindings) [
    | inr (table, e) ↦ rw (e, prepare_tools) a
    | inl e ↦ elim (Bool-cases (any (λ b. not (is_local b)) tools)) [
      | inl f ↦ rw (e, f, prepare_tools) a
      | inr f ↦
          let fresh = Matches-none s.bindings (subst (Matches s.bindings) e a.matching) in
          rw (e, f, prepare_tools) (record { own = f; matching = rw fresh tt })
    ]
  ]

  prepare_agent-refused :
      (spec : AgentSpec) (tools : List Binding) (model_id : String) (s : ComponentHost W)
      → (has_agent s.agent_spec || not (same_table (local_of tools) s.local_bindings)) ≡ true
      → (prepare_agent world spec tools model_id s).1 ≡ s
  unfolding prepare_agent
  prepare_agent-refused spec tools model_id s h = rw h refl

  prepare_agent-Fixed :
      (spec : AgentSpec) (tools : List Binding) (model_id : String) (s : ComponentHost W)
      → (has_agent s.agent_spec || not (same_table (local_of tools) s.local_bindings)) ≡ false
      → Fixed
          (record s { bindings = some tools; agent_spec = some spec })
          (prepare_agent world spec tools model_id s).1
  unfolding prepare_agent
  prepare_agent-Fixed spec tools model_id s h =
      let t = record s { bindings = some tools; agent_spec = some spec } in
      rw h (
        (prepare_checked-Preserves world spec tools model_id t).after t
          (record { local = refl; bound = refl; chosen = refl }))

  prepare_agent-Agree :
      (spec : AgentSpec) (tools : List Binding) (model_id : String) (s : ComponentHost W)
      → Agree s
      → Agree (prepare_agent world spec tools model_id s).1
  prepare_agent-Agree spec tools model_id s a =
      elim (Bool-cases
        (has_agent s.agent_spec || not (same_table (local_of tools) s.local_bindings))) [
          | inl e ↦ subst Agree (sym (prepare_agent-refused spec tools model_id s e)) a
          | inr e ↦ Agree-Fixed _ _ (prepare_agent-Fixed spec tools model_id s e) (record {
            own = a.own;
            matching = same_table-local_of tools s.local_bindings (ground arith);
          })
        ]

module _ {W : Type 0} (world : ComponentWorld W) (k : Knowledge) where
  serve-Agree : (r : Request) (s : ComponentHost W) → Agree s → Agree (serve world k r s)
  unfolding serve
  serve-Agree (tools_request tools) s a = prepare_tools-Agree world tools s a
  serve-Agree (agent_request spec tools model_id) s a =
      prepare_agent-Agree world spec tools model_id s a
  serve-Agree (run_request task observation seed) s a =
      Agree-Fixed s _ (run_agent-Fixed world k task observation seed s) a
  serve-Agree (execute_request binding call) s a =
      Agree-Fixed s _ (execute_tool-Fixed world k binding call s) a
  serve-Agree freeze_request s a = Agree-Fixed s _ (freeze_tools-Fixed world k s) a
  serve-Agree close_request s a = Agree-Fixed s _ (close-Fixed world k s) a

  serve_all-kept :
      (rs : List Request) (s : ComponentHost W) → Agree s → Agree (serve_all world k rs s)
  unfolding serve_all
  serve_all-kept [] s a = a
  serve_all-kept (r ∷ rs) s a = serve_all-kept rs (serve world k r s) (serve-Agree r s a)

  -- After any requests to a new agent process, its own table holds bindings of the agent's state
  -- alone, and the table of the agent, if one was accepted, has just these of that kind, in their order.
  pub serve_all-Agree :
      (rs : List Request) (w : W) → Agree (serve_all world k rs (new_component_host w))
  serve_all-Agree rs w =
      serve_all-kept rs (new_component_host w) (record { own = tt; matching = tt })

  serve-Fixed :
      (r : Request) (s : ComponentHost W) (spec : AgentSpec) (table : List Binding)
      → s.agent_spec ≡ some spec
      → s.local_bindings ≡ some table
      → Fixed s (serve world k r s)
  unfolding serve prepare_tools
  serve-Fixed (tools_request tools) s spec table chosen local =
      rw (local, prepare_tools) (record { local = refl; bound = refl; chosen = refl })
  serve-Fixed (agent_request new_spec tools model_id) s spec table chosen local =
      subst (Fixed s) (sym (prepare_agent-refused world new_spec tools model_id s (rw chosen refl)))
        (record { local = refl; bound = refl; chosen = refl })
  serve-Fixed (run_request task observation seed) s spec table chosen local =
      run_agent-Fixed world k task observation seed s
  serve-Fixed (execute_request binding call) s spec table chosen local =
      execute_tool-Fixed world k binding call s
  serve-Fixed freeze_request s spec table chosen local = freeze_tools-Fixed world k s
  serve-Fixed close_request s spec table chosen local = close-Fixed world k s

  -- Once an agent has been chosen, no request changes it, its table of tools or the table of the process.
  pub serve_all-Fixed :
      (rs : List Request) (s : ComponentHost W) (spec : AgentSpec) (table : List Binding)
      → s.agent_spec ≡ some spec
      → s.local_bindings ≡ some table
      → Fixed s (serve_all world k rs s)
  unfolding serve_all
  serve_all-Fixed [] s spec table chosen local = record {
    local = refl;
    bound = refl;
    chosen = refl;
  }
  serve_all-Fixed (r ∷ rs) s spec table chosen local =
      let step = serve-Fixed r s spec table chosen local in
      Fixed-trans step (
        serve_all-Fixed rs (serve world k r s) spec table (step.chosen ∙ chosen)
          (step.local ∙ local))
