-- ===== src/Tools.antt =====
-- reference/sdk/src/uenv/sdk/tools.py: the `ToolHost` of one attempt. The tools, their shutdown hooks,
-- the threads and the tasks of the process live in an unknown world. The JSON Schema validator and
-- `json.dumps` are parameters.
pub mod Execute
pub mod Declare
pub mod Freeze
pub mod Staging
pub mod Calls
pub mod Freezing
pub mod Soundness
use uenv_design.Base.{
  ℕ, String, Bool, true, false, not, ◌&&◌, ◌||◌, Option, none, some, List, [], ◌∷◌,
}
use uenv_design.Base.{map, ◌++◌, ◌==◌, contains, any, string_eq, nat_eq, option_eq, if◌then◌else◌}
use uenv_design.Base.Dict
use uenv_design.Base.Dict.{Dict}
use uenv_design.Result.{Error, Result, ok, err, value_error, type_error, key_error, runtime_error}
use uenv_design.Result.{validation_error, raise_if, required, ◌>>=◌, ◌>>◌}
use uenv_design.Value.{Value, obj, value_eq}
use uenv_design.Wire.{ComponentRef, component_eq, TypedConfig, Part, text, structured, Observation}
use uenv_design.Wire.{ended, Arguments, fields_of, ToolCall, ToolResult, Binding, binding_eq}

-- What a tool's function may return: the last case is any other type.
pub data Output : Type 0 where
  observed : Observation → Output
  plain_text : String → Output
  model : Result TypedConfig → Output
  json : Value → Output
  unsupported : Output

-- What the host asks of `jsonschema`, of the registry and of `json`.
pub record Checks : Type 0 where
  pub schema_ok : Value → Bool
  pub conforms : Value → Value → Bool
  pub valid_config : TypedConfig → Bool
  pub valid_observation : Observation → Bool
  pub dumps : Value → Result String

-- `observation_from_output`
unfoldable pub observation_from_output : Checks → Output → Result Observation
observation_from_output c (observed o) = ok o
observation_from_output c (plain_text s) =
    ok (record { content = text s ∷ []; terminated = false; episode_truncated = false })
observation_from_output c (model envelope) = do
  config ← envelope
  ok (record { content = structured config ∷ []; terminated = false; episode_truncated = false })
observation_from_output c (json v) = do
  s ← c.dumps v
  ok (record { content = text s ∷ []; terminated = false; episode_truncated = false })
observation_from_output c unsupported = err (type_error "Unsupported tool return type")

-- The context that a tool is given. `freeze` names a function by its identity.
pub record ToolContext : Type 0 where
  pub config : Value
  pub has_environment : Bool
  pub freeze : Option ℕ

-- A tool's function is run with the world; it gives back the tasks that it created, too.
pub record ToolDefinition (W : Type 0) : Type 0 where
  pub description : String
  pub input_schema : Value
  pub execute : Arguments → ToolContext → W → Result Output × W × List ℕ
  pub shutdown : Option ℕ

pub record Entry (W : Type 0) : Type 0 where
  pub binding : Binding
  pub definition : ToolDefinition W
  pub context : ToolContext

-- `ToolHost`, without its lock: the operations below are what runs while the lock is held.
pub record ToolHost (W : Type 0) : Type 0 where
  pub tools : Dict String (Entry W)
  pub frozen : Bool
  pub prepared : Bool
  pub tasks : List ℕ
  pub threads : List ℕ
  pub settled : Bool

-- `ToolHost.__init__`
abbrev pub new_host : {W : Type 0} → ToolHost W
new_host = record {
  tools = [];
  frozen = false;
  prepared = false;
  tasks = [];
  threads = [];
  settled = false;
}

abbrev pub check_owner : Option ComponentRef → Binding → Option ComponentRef → Result (Unit {0})
check_owner agent binding none = ok tt
check_owner agent binding (some owner) = do
  raise_if (not (agent == some owner)) (value_error "NATIVE_TOOL_AGENT_MISMATCH")
  raise_if
      (not (binding.implementation.version == owner.version)
        || not (binding.implementation.digest == owner.digest))
      (value_error "NATIVE_TOOL_VERSION_MISMATCH")

module _ {W : Type 0} (c : Checks) where
  -- The tests that a call passes before its tool runs, in `validate_call` and `_execute` alike.
  unfoldable pub check_arguments : ToolDefinition W → Arguments → Result (Unit {0})
  check_arguments d arguments = do
    raise_if (contains (Dict.keys arguments) "context")
        (value_error "TOOL_CONTEXT_IS_SYSTEM_INJECTED")
    raise_if (not (c.conforms d.input_schema (obj (fields_of arguments))))
        (validation_error "arguments")

  abbrev check_registered : Binding → ToolCall → Option (Entry W) → Result (Unit {0})
  check_registered binding call none = err (value_error "TOOL_CALL_BINDING_MISMATCH")
  check_registered binding call (some entry) = do
    raise_if (not (entry.binding == binding) || not (call.implementation == binding.implementation))
        (value_error "TOOL_CALL_BINDING_MISMATCH")
    check_arguments entry.definition call.arguments

  -- `validate_call`
  unfoldable pub validate_call : ToolHost W → Binding → ToolCall → Result (Unit {0})
  validate_call h binding call = check_registered binding call (Dict.lookup call.name h.tools)

  module _ (definitions : Dict String (ToolDefinition W)) (contexts : Dict String ToolContext)
      (agent : Option ComponentRef) where
    -- The body of the loop of `prepare`, but for the table.
    unfoldable pub stage_one : Binding → Result (Entry W)
    stage_one b = do
      check_owner agent b b.native_agent
      definition ← required b.implementation.id (Dict.lookup b.implementation.id definitions)
      raise_if (not (c.valid_config b.config)) (validation_error "TypedConfig")
      raise_if (not (c.schema_ok definition.input_schema)) (validation_error "schema")
      context ← required b.name (Dict.lookup b.name contexts)
      raise_if (not (context.config == b.config.content)) (value_error "TOOL_CONFIG_MISMATCH")
      ok (record { binding = b; definition = definition; context = context })

    unfoldable pub stage : List Binding → Dict String (Entry W) → Result (Dict String (Entry W))
    stage [] staged = ok staged
    stage (b ∷ bs) staged =
        let rest = λ (e : Entry W). stage bs (Dict.insert b.name e staged) in
        raise_if (contains (Dict.keys staged) b.name) (value_error "DUPLICATE_TOOL_NAME")
        >> (stage_one b >>= rest)

    abbrev pub keep_staged :
        ToolHost W → Result (Dict String (Entry W)) → Result (List Binding) × ToolHost W
    keep_staged h (ok staged) = (
      ok (map (λ e. e.binding) (Dict.values staged)),
      record h { tools = staged; prepared = true },
    )
    keep_staged h (err e) = (err e, h)

    -- `prepare`
    unfoldable pub prepare : List Binding → ToolHost W → Result (List Binding) × ToolHost W
    prepare bindings h =
        if h.prepared || h.frozen
        then (err (runtime_error "TOOL_HOST_ALREADY_PREPARED"), h)
        else keep_staged h (stage bindings [])
