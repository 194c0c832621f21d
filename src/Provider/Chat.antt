-- ===== src/Provider/Chat.antt =====
-- reference/sdk/src/uenv/sdk/model_provider.py: the request to the endpoint, its reply and the generation, with
-- what is read off them without the world.
use uenv_design.Base.{ℕ, zero, String, Bool, true, false, not, ◌||◌, Option, List, [], ◌∷◌}
use uenv_design.Base.{◌==◌, ◌<>◌, any, nat_eq, string_eq, if◌then◌else◌}
use uenv_design.Base.Dict
use uenv_design.Base.Dict.{Dict}
use uenv_design.Result.{Result, ok, err, rpc_error}
use uenv_design.Value.{Value, pos, null, bool, int, real, str, arr, obj, nil, end}
use uenv_design.Wire.{Part, text, Message, ToolCall, Binding}

abbrev is_text : Part → Bool
is_text (text s) = true
is_text p = false

abbrev joined : List Part → String
joined [] = ""
joined (text s ∷ parts) = s <> joined parts
joined (p ∷ parts) = joined parts

-- `text_content`
unfoldable pub text_content : List Part → Result String
text_content parts =
    if any (λ p. not (is_text p)) parts
    then err (rpc_error "MODEL_CONTENT_KIND_NOT_SUPPORTED")
    else ok (joined parts)

-- `GenerationConfig` and `ModelSpec`. A float is kept by the text of its `repr`.
pub record GenerationConfig : Type 0 where
  pub temperature : String
  pub top_p : String
  pub max_output_tokens : ℕ
  pub stop : List String

pub record ModelSpec : Type 0 where
  pub model_id : String
  pub endpoint : String
  pub credential_ref : String
  pub origin : String
  pub max_transport_retries : ℕ
  pub generation : GenerationConfig

-- The command of the Worker.
pub record Command : Type 0 where
  pub model : ModelSpec
  pub messages : List Message
  pub seed : ℕ
  pub training : Option Value
  pub tools : List Binding
  pub generation_id : String
  pub remaining_timeout_ms : ℕ

-- A function call in the endpoint's format, its arguments as JSON text.
pub record ChatCall : Type 0 where
  pub id : String
  pub name : String
  pub arguments : String

pub record ChatMessage : Type 0 where
  pub role : String
  pub content : String
  pub tool_call_id : Option String
  pub tool_calls : List ChatCall

pub record ChatTool : Type 0 where
  pub name : String
  pub description : String
  pub parameters : Value

-- The body of the request: empty lists and `none` stand for keys that are left out.
pub record ChatBody : Type 0 where
  pub model : String
  pub messages : List ChatMessage
  pub generation : GenerationConfig
  pub seed : ℕ
  pub training : Option Value
  pub tools : List ChatTool

pub record HttpRequest : Type 0 where
  pub url : String
  pub authorization : Option String
  pub content : List ℕ

-- What is read of the reply. `facts` are the trainer's fields that it has.
pub record Reply : Type 0 where
  pub reasoning_content : Value
  pub refusal : Value
  pub content : Value
  pub finish_reason : String
  pub completion_tokens : ℕ
  pub tool_calls : List ChatCall
  pub facts : Dict String Value

-- A normalized tool call, and the generation.
pub record ProvidedCall : Type 0 where
  pub call : ToolCall
  pub generation_id : String
  pub timeout_ms : ℕ

pub record Provided : Type 0 where
  pub generation_id : String
  pub model_id : String
  pub origin : String
  pub messages : List Message
  pub response : List Part
  pub output_token_count : ℕ
  pub finish_reason : String
  pub duration_ms : ℕ
  pub tool_calls : List ProvidedCall
  pub facts : Dict String Value

-- `{item["name"]: item for item in command["tools"]}`
abbrev pub bindings_from : List Binding → Dict String Binding → Dict String Binding
bindings_from [] d = d
bindings_from (b ∷ bs) d = bindings_from bs (Dict.insert b.name b d)

unfoldable pub bindings_of : List Binding → Dict String Binding
bindings_of bs = bindings_from bs []

-- `not value`
unfoldable pub falsy : Value → Bool
falsy null = true
falsy (bool b) = not b
falsy (int (pos zero)) = true
falsy (int n) = false
falsy (real r) = r == "0.0" || r == "-0.0"
falsy (str s) = s == ""
falsy (arr nil) = true
falsy (arr items) = false
falsy (obj end) = true
falsy (obj fields) = false

abbrev text_of : Value → Result String
text_of (str s) = ok s
text_of v = err (rpc_error "MODEL_CONTENT_KIND_NOT_SUPPORTED")

-- `message.get("content") or ""`, which must be a text.
unfoldable pub content_of : Value → Result String
content_of v = if falsy v then ok "" else text_of v

abbrev pub response_of : String → List Part
response_of s = if s == "" then [] else text s ∷ []
