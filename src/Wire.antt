-- ===== src/Wire.antt =====
-- The wire objects that the Python side handles, from `contracts/proto/uenv/v1`, as the sources read
-- them: `common.proto`, `interaction.proto` and `execution.proto`.
use uenv_design.Base.{ℕ, String, Bool, Option, List, [], ◌∷◌, ◌||◌}
use uenv_design.Base.{Eq, string_eq, string_dec}
use uenv_design.Base.Dict.{Dict}
use uenv_design.Value.{Value, Fields, end, field, Value-discrete}

-- A component by id and version, with the digest of the installed package.
pub record ComponentRef : Type 0 where
  pub id : String
  pub version : String
  pub digest : String

unfoldable pub ComponentRef-discrete : Discrete ComponentRef
ComponentRef-discrete = hlevel string_dec

instance unfoldable pub component_eq : Eq ComponentRef
unfolding ComponentRef-discrete
component_eq = record { dec = ComponentRef-discrete }

-- `TypedConfig`: the envelope of package-owned data.
pub record TypedConfig : Type 0 where
  pub schema_ref : String
  pub content : Value

pub record ArtifactRef : Type 0 where
  pub uri : String
  pub digest : String
  pub size_bytes : ℕ
  pub media_type : String

-- `ContentPart`, by its `kind`.
pub data Part : Type 0 where
  text : String → Part
  structured : TypedConfig → Part
  artifact : ArtifactRef → Part

pub record Observation : Type 0 where
  pub content : List Part
  pub terminated : Bool
  pub episode_truncated : Bool

-- `observation.terminated or observation.episode_truncated`
unfoldable pub ended : Observation → Bool
ended o = o.terminated || o.episode_truncated

-- The JSON object of a call's arguments.
abbrev pub Arguments : Type 0
Arguments = Dict String Value

pub record ToolCall : Type 0 where
  pub tool_call_id : String
  pub name : String
  pub implementation : ComponentRef
  pub arguments : Arguments

-- `error` is the code of the `ErrorRecord`.
pub record ToolResult : Type 0 where
  pub tool_call_id : String
  pub status : String
  pub observation : Option Observation
  pub error : Option String

pub record Generation : Type 0 where
  pub response : List Part
  pub finish_reason : String
  pub tool_calls : List ToolCall

pub record Message : Type 0 where
  pub role : String
  pub content : List Part
  pub tool_call_id : Option String
  pub tool_calls : List ToolCall

-- `ResolvedToolBinding`
pub record Binding : Type 0 where
  pub name : String
  pub implementation : ComponentRef
  pub config : TypedConfig
  pub execution_scope : String
  pub native_agent : Option ComponentRef

unfoldable pub Binding-discrete : Discrete Binding
Binding-discrete = hlevel (string_dec, Value-discrete)

instance unfoldable pub binding_eq : Eq Binding
unfolding Binding-discrete
binding_eq = record { dec = Binding-discrete }

-- The arguments as one JSON value.
abbrev pub fields_of : Arguments → Fields
fields_of [] = end
fields_of ((k, v) ∷ d) = field k v (fields_of d)
