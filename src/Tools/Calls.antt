-- ===== src/Tools/Calls.antt =====
-- What `ToolHost.execute` lets through.
use uenv_design.Base.{ℕ, true, false, not, ◌≡◌, refl, some, List, [], ◌∷◌}
use uenv_design.Base.{◌&&◌, ◌++◌, arith, contains, nat_eq, string_eq, inl, inr}
use mathlib.Core.List.{append_assoc}
use uenv_design.Base.Dict
use uenv_design.Base.Dict.{contains_middle}
use uenv_design.Result.{Error, Result, ok, err, Result-cases}
use uenv_design.Result.Holds.{
  Holds, Holds-return, Holds-check, Holds-require, Holds-required, Holds-bind,
}
use uenv_design.Result.Holds.{Holds-reject}
use uenv_design.Value.{obj}
use uenv_design.Wire.{Arguments, ended, fields_of, ToolCall, ToolResult, Observation}
use uenv_design.Tools.{
  Checks, Output, ToolDefinition, ToolContext, Entry, ToolHost, observation_from_output,
  check_arguments,
}
use uenv_design.Tools.Execute.{Process, admit, result_of, run_admitted, execute, without}

-- What holds of a call that reaches its tool.
pub record IsAdmitted {W : Type 0} (c : Checks) (h : ToolHost W) (call : ToolCall) (e : Entry W)
    : Type 0 where
  pub open_host : h.frozen ≡ false
  pub selected : Dict.lookup call.name h.tools ≡ some e
  pub bound : call.implementation ≡ e.binding.implementation
  pub no_context : contains (Dict.keys call.arguments) "context" ≡ false
  pub conforming : c.conforms e.definition.input_schema (obj (fields_of call.arguments)) ≡ true

-- What holds of a result that the host hands back.
pub record IsPublic (c : Checks) (call : ToolCall) (context : ToolContext) (r : ToolResult)
    : Type 0 where
  pub same_call : r.tool_call_id ≡ call.tool_call_id
  pub success : r.status ≡ "ok"
  pub feedback : Observation
  pub shown : r.observation ≡ some feedback
  pub valid : c.valid_observation feedback ≡ true
  pub stateful : (ended feedback && not context.has_environment) ≡ false

module _ {W : Type 0} (c : Checks) where
  check_arguments_lem :
      (d : ToolDefinition W) (arguments : Arguments)
      → check_arguments c d arguments ≡ ok tt
      → (contains (Dict.keys arguments) "context" ≡ false)
        × (c.conforms d.input_schema (obj (fields_of arguments)) ≡ true)
  unfolding check_arguments
  check_arguments_lem d arguments h = ground arith

  admit-IsAdmitted :
      (h : ToolHost W) (call : ToolCall) → Holds (IsAdmitted c h call) (admit c h call)
  unfolding admit
  admit-IsAdmitted h call = Holds-reject _ _ _ λ open_host. Holds-required _ _ _ λ e selected.
      Holds-require _ _ _ λ bound.
        Holds-bind (c.dumps (obj (fields_of call.arguments))) _ λ encoded finite.
          Holds-check (check_arguments c e.definition call.arguments) _ λ checked.
            Holds-return _ (record {
              open_host = open_host;
              selected = selected;
              bound = ground arith;
              no_context = (check_arguments_lem e.definition call.arguments checked).0;
              conforming = (check_arguments_lem e.definition call.arguments checked).1;
            })

result_of-IsPublic :
    (c : Checks) (call : ToolCall) (context : ToolContext) (r : Result Output)
    → Holds (IsPublic c call context) (result_of c call context r)
unfolding result_of
result_of-IsPublic c call context r = Holds-bind r _ λ output returned.
    Holds-bind (observation_from_output c output) _ λ o seen. Holds-require _ _ _ λ valid.
      Holds-reject _ _ _ λ stateful. Holds-return _ (record {
        same_call = refl;
        success = refl;
        feedback = o;
        shown = refl;
        valid = valid;
        stateful = stateful;
      })

without_part : (ys xs : List ℕ) → without (ys ++ xs) xs ≡ []
without_part ys [] = refl
without_part ys (x ∷ xs) =
    rw (contains_middle ys xs x)
      (rw (append_assoc ys (x ∷ []) xs) at (without_part (ys ++ x ∷ []) xs))

module _ {W : Type 0} (c : Checks) (p : Process W) where
  -- A call that returns was admitted by an open host: it names a selected tool, by its implementation,
  -- and its arguments conform to the tool's schema and hold no `context`. Its result is for that
  -- call, with a valid observation, which ends the episode only for a tool that has an environment.
  -- The host's table and its three flags are unchanged.
  pub execute-IsPublic :
      (call : ToolCall) (h h' : ToolHost W) (w w' : W) (r : ToolResult)
      → execute c p call (h, w) ≡ (ok r, h', w')
      → (e : Entry W) × IsAdmitted c h call e
        × IsPublic c call e.context r
        × (h'.tools ≡ h.tools)
        × (h'.frozen ≡ h.frozen)
        × (h'.prepared ≡ h.prepared)
        × (h'.settled ≡ h.settled)
  unfolding execute run_admitted
  execute-IsPublic call h h' w w' r e = elim (Result-cases (admit c h call)) [
    | inr (x, k) ↦ absurd (ground arith)
    | inl (entry, k) ↦ (
      entry,
      (admit-IsAdmitted c h call).at entry k,
      (result_of-IsPublic c call entry.context
            (entry.definition.execute call.arguments entry.context w).0).at
          r (ground arith),
      ground arith,
      ground arith,
      ground arith,
      ground arith,
    )
  ]

  -- A call that is not admitted raises, and leaves the world and the host as they were.
  pub execute_rejected :
      (call : ToolCall) (h : ToolHost W) (w : W) (x : Error)
      → admit c h call ≡ err x
      → execute c p call (h, w) ≡ (err x, h, w)
  unfolding execute run_admitted
  execute_rejected call h w x e = rw (e, run_admitted, execute, without_part []) refl
