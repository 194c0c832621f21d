-- ===== src/ComponentHost/Running.antt =====
-- `run_agent`: the class of the public input, the view of the task, and the agent.
use uenv_design.Base.{ℕ, String, Bool, true, false, not, Option, none, some, List, [], ◌∷◌}
use uenv_design.Base.{contains, string_eq, option_eq, if◌then◌else◌}
use uenv_design.Base.Dict
use uenv_design.Base.Dict.{Dict}
use uenv_design.Result.{
  Error, Result, ok, err, rpc_error, type_error, attribute_error, validation_error, key_error,
  required,
}
use uenv_design.Result
use uenv_design.Exec.{Exec, raise, lift, gets, modify, ◌>>=◌, ◌>>◌}
use uenv_design.Wire.{Part, Observation}
use uenv_design.Modeling.{
  Datum, null, str, obj, arr, Items, nil, cons, dict_of, Annotation, any_type, ModelClass, Classes,
}
use uenv_design.Task.{WireTask, TaskSpec, task_from_wire}
use uenv_design.ComponentHost.{AgentView, AgentType, ComponentHost}

-- The properties of a schema.
abbrev names_of : Datum → List String
names_of (obj properties) = Dict.keys (dict_of properties)
names_of _ = []

abbrev texts_of : Items → List String
texts_of nil = []
texts_of (cons (str s) items) = s ∷ texts_of items
texts_of (cons v items) = texts_of items

-- `schema.get('required', [])`
abbrev required_of : Option Datum → List String
required_of (some (arr items)) = texts_of items
required_of _ = []

abbrev hints_of : List String → Dict String Annotation
hints_of [] = []
hints_of (name ∷ names) = (name, any_type) ∷ hints_of names

abbrev defaults_of : List String → List String → Dict String Datum
defaults_of needed [] = []
defaults_of needed (name ∷ names) =
    let rest = defaults_of needed names in
    if contains needed name then rest else (name, null) ∷ rest

-- `PublicInput`: the properties of the schema, with `None` for those that are not required.
unfoldable pub public_input : String → Dict String Datum → Result ModelClass
public_input schema_id schema =
    Result.◌>>=◌ (required "properties" (Dict.lookup "properties" schema)) λ properties.
      ok (record {
        name = "PublicInput";
        doc = "";
        hints = hints_of (names_of properties);
        defaults = defaults_of (required_of (Dict.lookup "required" schema)) (names_of properties);
        schema_id = some schema_id;
      })

-- The class of the input of a task: an installed one, or one made of the package's schema.
unfoldable pub input_model :
    Dict String ModelClass → Dict String (Dict String Datum) → String → Result ModelClass
input_model models extensions schema_id = elim (Dict.lookup schema_id models) [
  | some c ↦ ok c
  | none ↦
      Result.◌>>=◌ (required schema_id (Dict.lookup schema_id extensions)) (public_input schema_id)
]

abbrev run_bound :
    {W : Type 0} → Option (AgentType W) → AgentView → Exec (ComponentHost W) (List Part)
run_bound none view = raise (attribute_error "agent")
run_bound (some agent) view =
    λ s. let (r, w) = agent.run view s.world in (r, record s { world = w })

module _ (depth : ℕ) (classes : Classes) (valid_task : WireTask → Bool)
    (valid_observation : Observation → Bool) where
  abbrev has_task : Option TaskSpec → Bool
  has_task none = false
  has_task (some task) = true

  -- `WorkerAgentContext.bind_task`
  unfoldable pub bind_task : WireTask → Observation → ℕ → ModelClass → AgentView → Result AgentView
  bind_task task observation seed model view =
      if has_task view.task
      then err (rpc_error "AGENT_ALREADY_RUNNING")
      else if not (valid_task task)
      then err (validation_error "TaskSpec")
      else if not (valid_observation observation)
      then err (validation_error "Observation")
      else Result.◌>>=◌ (task_from_wire depth classes task model) (λ spec.
        ok (record view { task = some spec; observation = observation; seed = some seed }))

  abbrev bound_view : Option AgentView → WireTask → Observation → ℕ → ModelClass → Result AgentView
  bound_view none task observation seed model = err (attribute_error "context")
  bound_view (some view) task observation seed model = bind_task task observation seed model view

  -- `run_agent`. What the Worker asks of the host while the agent runs is no part of it.
  unfoldable pub run_agent :
      {W : Type 0}
      → Dict String ModelClass
      → Dict String (Dict String Datum)
      → WireTask
      → Observation
      → ℕ
      → Exec (ComponentHost W) (List Part)
  run_agent models extensions task observation seed = do
    model ← lift (input_model models extensions task.input.schema_ref)
    old ← gets (λ s. s.context)
    view ← lift (bound_view old task observation seed model)
    modify (λ s. record s { context = some view })
    agent ← gets (λ s. s.agent)
    run_bound agent view
