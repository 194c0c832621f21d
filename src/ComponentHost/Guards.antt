-- ===== src/ComponentHost/Guards.antt =====
-- What a tool call has passed before it runs.
use uenv_design.Base.{◌≡◌, refl, true, false, not, some, contains, option_eq, string_eq, arith}
use uenv_design.Base.{Option, none, ◌==◌, ◌||◌, List, inl, inr, ◌∙◌, ◌⊎◌}
use uenv_design.Base.Dict
use uenv_design.Result.{Error, err, Result-cases}
use uenv_design.Result.Holds.{
  Holds, Holds-return, Holds-raise, Holds-bind, Holds-require, Holds-reject, Holds-required,
  Holds-weaken,
}
use uenv_design.Value.{obj}
use uenv_design.Wire.{Binding, binding_eq, component_eq, ToolCall, fields_of}
use uenv_design.Tools.{ToolDefinition}
use uenv_design.ComponentHost.{
  ComponentHost, ComponentWorld, listed, check_call, validate_tool, execute_tool,
}

-- The binding stands in both tables, the call is one of it, and its arguments are those of the schema
-- that the agent's definition has.
pub record IsBound {W : Type 0} (world : ComponentWorld W) (s : ComponentHost W) (binding : Binding)
    (call : ToolCall) : Type 0 where
  pub local_table : List Binding
  pub agent_table : List Binding
  pub has_local : s.local_bindings ≡ some local_table
  pub has_table : s.bindings ≡ some agent_table
  pub is_local : contains local_table binding ≡ true
  pub is_bound : contains agent_table binding ≡ true
  pub same_tool : call.implementation ≡ binding.implementation
  pub same_name : call.name ≡ binding.name
  pub definition : ToolDefinition W
  pub defined : Dict.lookup call.name s.definitions ≡ some definition
  pub conforming :
      world.checks.conforms definition.input_schema (obj (fields_of call.arguments)) ≡ true
  pub no_context : contains (Dict.keys call.arguments) "context" ≡ false

listed-Holds :
    (o : Option (List Binding)) (b : Binding)
    → Holds
        (λ found. (table : List Binding) × (o ≡ some table) × (contains table b ≡ found))
        (listed o b)
listed-Holds none b = Holds-raise _
listed-Holds (some table) b = Holds-return _ (table, refl, refl)

check_call-Holds :
    {W : Type 0} (world : ComponentWorld W) (definition : ToolDefinition W) (call : ToolCall)
    → Holds
        (λ _.
          (world.checks.conforms definition.input_schema (obj (fields_of call.arguments)) ≡ true)
          × (contains (Dict.keys call.arguments) "context" ≡ false))
        (check_call world definition call)
unfolding check_call
check_call-Holds world definition call = record { at = λ u h. (ground arith, ground arith) }

module _ {W : Type 0} (world : ComponentWorld W) (binding : Binding) (call : ToolCall) where
  validate_tool-IsBound :
      (s : ComponentHost W)
      → Holds (λ _. IsBound world s binding call) (validate_tool world binding call s)
  unfolding validate_tool check_call
  validate_tool-IsBound s = Holds-bind (listed s.local_bindings binding) _ λ here e.
      let (table, has, is) = (listed-Holds s.local_bindings binding).at here e in
      Holds-require here _ _ λ yes_here. Holds-bind (listed s.bindings binding) _ λ bound f.
        let (agent_table, also, listed_too) = (listed-Holds s.bindings binding).at bound f in
        Holds-reject
          (not bound
            || not (call.implementation == binding.implementation)
            || not (call.name == binding.name))
          _ _
          λ matches.
            Holds-required call.name (Dict.lookup call.name s.definitions) _ λ definition known.
              Holds-weaken (check_call world definition call)
                (λ u (fits, plain). record {
                  local_table = table;
                  agent_table = agent_table;
                  has_local = has;
                  has_table = also;
                  is_local = is ∙ yes_here;
                  is_bound = listed_too ∙ ground arith;
                  same_tool = ground arith;
                  same_name = ground arith;
                  definition = definition;
                  defined = known;
                  conforming = fits;
                  no_context = plain;
                })
                (check_call-Holds world definition call)

  -- A tool of the agent process runs only for a binding that both tables have: a request is refused
  -- with an exception that leaves the process as it was, or its binding stands in the table of the
  -- process and in that of the agent, the call names that binding's tool, and its arguments conform to
  -- the tool's schema and do not give a context.
  pub execute_tool-IsBound :
      (s : ComponentHost W)
      → ((e : Error) × (execute_tool world binding call s ≡ (err e, s)))
        ⊎ IsBound world s binding call
  unfolding execute_tool
  execute_tool-IsBound s = elim (Result-cases (validate_tool world binding call s)) [
    | inl (u, e) ↦ inr ((validate_tool-IsBound s).at u e)
    | inr (x, e) ↦ inl (x, rw (e, execute_tool) refl)
  ]
