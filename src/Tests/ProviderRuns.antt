-- ===== src/Tests/ProviderRuns.antt =====
-- An endpoint that calls the tool that it was offered.
use uenv_design.Base.{ℕ, suc, String, none, ◌≡◌, refl, List, [], ◌∷◌, All, string_eq, nat_eq}
use uenv_design.Result.{ok, err, rpc_error}
use uenv_design.Value.{null, str}
use uenv_design.Wire.{Binding, text}
use uenv_design.Provider.{ProviderWorld, generate}
use uenv_design.Provider.Chat.{Command, ModelSpec, Provided, ChatCall}
use uenv_design.Provider.{request_of, chat_messages, chat_tools, provided_calls}
use uenv_design.Provider.Chat.{text_content, bindings_of}
use uenv_design.Provider.{provided_of, reply_of, send}
use uenv_design.Provider.Chat.{content_of, falsy}
use uenv_design.Provider.Selection.{IsSelected, generate-IsSelected}

abbrev echo : Binding
echo = record {
  name = "echo";
  implementation = record { id = "tools/echo"; version = "1.0.0"; digest = "sha256:e" };
  config = record { schema_ref = "uenv://schemas/vnext/EmptyConfig"; content = null };
  execution_scope = "sandbox";
  native_agent = none;
}

abbrev model : ModelSpec
model = record {
  model_id = "m";
  endpoint = "http://model";
  credential_ref = "";
  origin = "base";
  max_transport_retries = 0;
  generation = record { temperature = "0.0"; top_p = "1.0"; max_output_tokens = 64; stop = [] };
}

abbrev command : Command
command = record {
  model = model;
  messages =
      record { role = "user"; content = text "hi" ∷ []; tool_call_id = none; tool_calls = [] } ∷ [];
  seed = 7;
  training = none;
  tools = echo ∷ [];
  generation_id = "g1";
  remaining_timeout_ms = 100;
}

-- The world counts the requests.
abbrev calling : List ChatCall → ProviderWorld ℕ
calling calls = record {
  definitions = ("echo", ("Echo", null)) ∷ [];
  resolve_credential = λ ref. "";
  without_slash = λ url. url;
  dumps = λ v. ok "{}";
  encode = λ body. ok [];
  decode = λ raw. ok (record {
    reasoning_content = null;
    refusal = str "";
    content = null;
    finish_reason = "tool_calls";
    completion_tokens = 3;
    tool_calls = calls;
    facts = [];
  });
  loads = λ text. ok [];
  monotonic = λ w. (0, w);
  urlopen = λ request timeout w. (ok [], suc w);
  size = λ raw. 0;
}

abbrev expected : Provided
expected = record {
  generation_id = "g1";
  model_id = "m";
  origin = "base";
  messages = command.messages;
  response = [];
  output_token_count = 3;
  finish_reason = "tool_calls";
  duration_ms = 0;
  tool_calls =
      record {
        call = record {
          tool_call_id = "c1";
          name = "echo";
          implementation = echo.implementation;
          arguments = [];
        };
        generation_id = "g1";
        timeout_ms = 100;
      }
      ∷ [];
  facts = [];
}

abbrev call_of : String → ChatCall
call_of name = record { id = "c1"; name = name; arguments = "{}" }

generated : generate (calling (call_of "echo" ∷ [])) command 0 ≡ (ok expected, 1)
unfolding generate request_of chat_messages text_content chat_tools bindings_of provided_calls
    provided_of content_of falsy reply_of send string_eq nat_eq
generated = refl

not_selected :
    generate (calling (call_of "shell" ∷ [])) command 0 ≡ (err (rpc_error "TOOL_NOT_SELECTED"), 1)
unfolding generate request_of chat_messages text_content chat_tools bindings_of provided_calls
    provided_of content_of falsy reply_of send string_eq nat_eq
not_selected = refl

generate-IsSelected_example : All (IsSelected (echo ∷ [])) expected.tool_calls
generate-IsSelected_example =
    generate-IsSelected (calling (call_of "echo" ∷ [])) command 0 1 expected generated
