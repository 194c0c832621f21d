-- ===== src/Provider.antt =====
-- reference/sdk/src/uenv/sdk/model_provider.py: one generation by an OpenAI-compatible endpoint.
pub mod Chat
pub mod Selection
use uenv_design.Base.{ℕ, ◌*◌, ◌-◌, ◌/◌, String, not, ◌&&◌, ◌||◌, Option, none, some, List, [], ◌∷◌}
use uenv_design.Base.{◌==◌, ◌<>◌, ltb, nat_eq, string_eq, if◌then◌else◌}
use uenv_design.Base.Dict
use uenv_design.Base.Dict.{Dict}
use uenv_design.Result.{Result, ok, err, rpc_error, required, raise_if, ◌>>=◌, ◌>>◌}
use uenv_design.Value.{Value, obj}
use uenv_design.Wire.{Message, ToolCall, Binding, Arguments, fields_of}
use uenv_design.Provider.Chat.{
  text_content, Command, ChatCall, ChatMessage, ChatTool, ChatBody, HttpRequest, Reply,
  ProvidedCall, Provided, bindings_of, falsy, content_of, response_of,
}

-- The tool definitions by name with description and schema, the credentials, `rstrip("/")`, JSON, the
-- clock in microseconds, and the HTTP client.
pub record ProviderWorld (W : Type 0) : Type 0 where
  pub definitions : Dict String (String × Value)
  pub resolve_credential : String → String
  pub without_slash : String → String
  pub dumps : Value → Result String
  pub encode : ChatBody → Result (List ℕ)
  pub decode : List ℕ → Result Reply
  pub loads : String → Result Arguments
  pub monotonic : W → ℕ × W
  pub urlopen : HttpRequest → ℕ → W → Result (List ℕ) × W
  pub size : List ℕ → ℕ

module _ {W : Type 0} (world : ProviderWorld W) where
  abbrev chat_calls : List ToolCall → Result (List ChatCall)
  chat_calls [] = ok []
  chat_calls (c ∷ cs) = do
    arguments ← world.dumps (obj (fields_of c.arguments))
    rest ← chat_calls cs
    ok (record { id = c.tool_call_id; name = c.name; arguments = arguments } ∷ rest)

  -- The loop over the messages.
  unfoldable pub chat_messages : List Message → Result (List ChatMessage)
  chat_messages [] = ok []
  chat_messages (m ∷ ms) = do
    content ← text_content m.content
    calls ← chat_calls m.tool_calls
    rest ← chat_messages ms
    ok (
        record {
          role = m.role;
          content = content;
          tool_call_id = m.tool_call_id;
          tool_calls = calls;
        }
        ∷ rest)

  -- `body["tools"]`
  unfoldable pub chat_tools : List String → Result (List ChatTool)
  chat_tools [] = ok []
  chat_tools (name ∷ names) = do
    d ← required name (Dict.lookup name world.definitions)
    rest ← chat_tools names
    ok (record { name = name; description = d.0; parameters = d.1 } ∷ rest)

  abbrev authorization_of : String → Option String
  authorization_of credential = if credential == "" then none else some ("Bearer " <> credential)

  -- `generate` up to the request, which it does not send yet.
  unfoldable pub request_of : Command → Result HttpRequest
  request_of command = do
    messages ← chat_messages command.messages
    tools ← chat_tools (Dict.keys (bindings_of command.tools))
    let credential = world.resolve_credential command.model.credential_ref
    raise_if (not (command.model.credential_ref == "") && credential == "")
        (rpc_error "MODEL_CREDENTIAL_NOT_FOUND")
    content ← world.encode (record {
      model = command.model.model_id;
      messages = messages;
      generation = command.model.generation;
      seed = command.seed;
      training = command.training;
      tools = tools;
    })
    ok (record {
      url = world.without_slash command.model.endpoint <> "/chat/completions";
      authorization = authorization_of credential;
      content = content;
    })

  abbrev pub chosen : Option Binding → Result Binding
  chosen none = err (rpc_error "TOOL_NOT_SELECTED")
  chosen (some binding) = ok binding

  -- The loop over the calls of the reply.
  unfoldable pub provided_calls : Command → List ChatCall → Result (List ProvidedCall)
  provided_calls command [] = ok []
  provided_calls command (item ∷ items) = do
    binding ← chosen (Dict.lookup item.name (bindings_of command.tools))
    arguments ← world.loads item.arguments
    rest ← provided_calls command items
    ok (
        record {
          call = record {
            tool_call_id = item.id;
            name = binding.name;
            implementation = binding.implementation;
            arguments = arguments;
          };
          generation_id = command.generation_id;
          timeout_ms = command.remaining_timeout_ms;
        }
        ∷ rest)

  -- What becomes of a reply.
  unfoldable pub provided_of : Command → Reply → ℕ → Result Provided
  provided_of command reply duration_ms = do
    raise_if (not (falsy reply.reasoning_content) || not (falsy reply.refusal))
        (rpc_error "MODEL_RESPONSE_KIND_NOT_SUPPORTED")
    content ← content_of reply.content
    calls ← provided_calls command reply.tool_calls
    ok (record {
      generation_id = command.generation_id;
      model_id = command.model.model_id;
      origin = command.model.origin;
      messages = command.messages;
      response = response_of content;
      output_token_count = reply.completion_tokens;
      finish_reason = reply.finish_reason;
      duration_ms = duration_ms;
      tool_calls = calls;
      facts = reply.facts;
    })

  -- The bytes of the response, at most eight mebibytes of them.
  unfoldable pub reply_of : List ℕ → Result Reply
  reply_of raw = do
    raise_if (ltb (8 * 1024 * 1024) (world.size raw)) (rpc_error "MODEL_RESPONSE_LIMIT")
    world.decode raw

  -- The second look at the clock comes before the reply is read, which takes no time here.
  abbrev pub finish : Command → ℕ → Result (List ℕ) → W → Result Provided × W
  finish command started (err e) w = (err e, w)
  finish command started (ok raw) w =
      let (t, w') = world.monotonic w in
      (reply_of raw >>= λ reply. provided_of command reply ((t - started) / 1000), w')

  -- The request is sent once, if at all.
  unfoldable pub send : Command → HttpRequest → W → Result Provided × W
  send command request w =
      let (started, w') = world.monotonic w in
      if not (command.model.max_transport_retries == 0)
      then (err (rpc_error "MODEL_RETRIES_NOT_SUPPORTED"), w')
      else (let (raw, w'') = world.urlopen request command.remaining_timeout_ms w' in
          finish command started raw w'')

  -- `OpenAIModelProvider.generate`
  unfoldable pub generate : Command → W → Result Provided × W
  generate command w = elim (request_of command) [
    | err e ↦ (err e, w)
    | ok request ↦ send command request w
  ]
