-- ===== src/Tests/ToolRuns.antt =====
-- A `ToolHost` with one tool of its own and one native tool of the agent.
use uenv_design.Base.{ℕ, suc, ◌≡◌, refl, true, false, none, some, [], ◌∷◌, String, option_eq}
use uenv_design.Base.{string_eq, nat_eq, any, map}
use uenv_design.Base.Dict.{Dict}
use uenv_design.Result.{ok, err, runtime_error, value_error}
use uenv_design.Value.{null, value_eq}
use uenv_design.Wire.{
  ComponentRef, component_eq, TypedConfig, Binding, ToolCall, ToolResult, text, ended,
}
use uenv_design.Tools.{Checks, plain_text, ToolDefinition, ToolContext, Entry, ToolHost}
use uenv_design.Tools.{
  check_arguments, observation_from_output, new_host, prepare, stage, stage_one,
}
use uenv_design.Tools.Execute.{Process, execute, admit, result_of, run_admitted}
use uenv_design.Tools.Freeze.{freeze, begin_freeze, finish_freeze, shut_down, hooks, cancel_all}
use uenv_design.Tools.Staging.{IsPrepared, prepare-IsPrepared, prepare_refused}
use uenv_design.Tools.Calls.{IsAdmitted, IsPublic, execute-IsPublic}
use uenv_design.Tools.Freezing.{
  execute_all, steps, run, begin, complete, freeze_excludes_calls, freeze_settles,
}

abbrev agent : ComponentRef
agent = record { id = "agents/openhands"; version = "1.0.0"; digest = "sha256:a" }

abbrev pub config : TypedConfig
config = record { schema_ref = "uenv://schemas/vnext/EmptyConfig"; content = null }

abbrev echo : Binding
echo = record {
  name = "echo";
  implementation = record { id = "tools/echo"; version = "1.0.0"; digest = "sha256:e" };
  config = config;
  execution_scope = "sandbox";
  native_agent = none;
}

abbrev terminal : Binding
terminal = record {
  name = "terminal";
  implementation = record {
    id = "agents/openhands/tools/terminal";
    version = "1.0.0";
    digest = "sha256:a";
  };
  config = config;
  execution_scope = "agent_state";
  native_agent = some agent;
}

abbrev pub checks : Checks
checks = record {
  schema_ok = λ s. true;
  conforms = λ s v. true;
  valid_config = λ c. true;
  valid_observation = λ o. true;
  dumps = λ v. ok "";
}

-- The world counts the runs of tools.
abbrev pub definition : ToolDefinition ℕ
definition = record {
  description = "Echo";
  input_schema = null;
  execute = λ arguments context w. (ok (plain_text "hi"), suc w, 7 ∷ []);
  shutdown = some 1;
}

abbrev definitions : Dict String (ToolDefinition ℕ)
definitions = ("tools/echo", definition) ∷ ("agents/openhands/tools/terminal", definition) ∷ []

abbrev context : ToolContext
context = record { config = null; has_environment = false; freeze = some 2 }

abbrev contexts : Dict String ToolContext
contexts = ("echo", context) ∷ ("terminal", context) ∷ []

abbrev pub process : Process ℕ
process = record {
  threads = λ w. [];
  is_alive = λ w t. false;
  cancel = λ t w. w;
  gather = λ w. w;
  call_hook = λ f w. (ok tt, w);
}

abbrev host : ToolHost ℕ
host = record new_host {
  tools =
      ("echo", record { binding = echo; definition = definition; context = context })
      ∷ ("terminal", record { binding = terminal; definition = definition; context = context })
      ∷ [];
  prepared = true;
}

prepared_host :
    prepare checks definitions contexts (some agent) (echo ∷ terminal ∷ []) new_host
    ≡ (ok (echo ∷ terminal ∷ []), host)
unfolding prepare stage stage_one string_eq component_eq value_eq option_eq
prepared_host = refl

repeated_name :
    prepare checks definitions contexts (some agent) (echo ∷ echo ∷ []) new_host
    ≡ (err (value_error "DUPLICATE_TOOL_NAME"), new_host)
unfolding prepare stage stage_one string_eq component_eq value_eq option_eq
repeated_name = refl

abbrev call : ToolCall
call = record {
  tool_call_id = "c1";
  name = "echo";
  implementation = echo.implementation;
  arguments = [];
}

abbrev stray : ToolCall
stray = record call { implementation = agent }

prepare-IsPrepared_example :
    IsPrepared checks definitions contexts
      (some agent)
      (echo ∷ terminal ∷ [])
      (echo ∷ terminal ∷ [])
      host
prepare-IsPrepared_example =
    prepare-IsPrepared checks definitions contexts (some agent) (echo ∷ terminal ∷ [])
      (echo ∷ terminal ∷ []) new_host host prepared_host

prepare_refused_example : ◌≡◌ {A = ToolHost ℕ} new_host new_host
prepare_refused_example =
    prepare_refused checks definitions contexts (some agent) (echo ∷ echo ∷ []) new_host new_host
      (value_error "DUPLICATE_TOOL_NAME") repeated_name

abbrev answer : ToolResult
answer = record {
  tool_call_id = "c1";
  status = "ok";
  observation =
      some (record { content = text "hi" ∷ []; terminated = false; episode_truncated = false });
  error = none;
}

executed : execute checks process call (host, 0) ≡ (ok answer, record host { tasks = 7 ∷ [] }, 1)
unfolding execute run_admitted admit check_arguments result_of observation_from_output string_eq
    component_eq nat_eq ended
executed = refl

execute-IsPublic_example :
    (e : Entry ℕ) × IsAdmitted checks host call e
    × IsPublic checks call e.context answer
    × ((record host { tasks = 7 ∷ [] }).tools ≡ host.tools)
    × ((record host { tasks = 7 ∷ [] }).frozen ≡ host.frozen)
    × ((record host { tasks = 7 ∷ [] }).prepared ≡ host.prepared)
    × ((record host { tasks = 7 ∷ [] }).settled ≡ host.settled)
execute-IsPublic_example =
    execute-IsPublic checks process call host (record host { tasks = 7 ∷ [] }) 0 1 answer executed

stray_call : admit checks host stray ≡ err (value_error "TOOL_CALL_BINDING_MISMATCH")
unfolding admit string_eq component_eq
stray_call = refl

freeze_excludes_calls_example :
    (execute_all checks process (call ∷ stray ∷ []) (begin_freeze host, 0) ≡ (
      map (λ c. err (runtime_error "TOOL_HOST_FROZEN")) (call ∷ stray ∷ []),
      begin_freeze host,
      0,
    ))
    × (steps checks process (begin ∷ run call ∷ run stray ∷ complete ∷ []) (host, 0)
        ≡ steps checks process (begin ∷ complete ∷ []) (host, 0))
freeze_excludes_calls_example =
    freeze_excludes_calls checks process (call ∷ stray ∷ []) host 0 (λ e. cc)

abbrev settled : ToolHost ℕ
settled = record host { frozen = true; settled = true }

frozen_host : freeze process (host, 0) ≡ (ok tt, settled, 0)
unfolding freeze finish_freeze shut_down hooks cancel_all begin_freeze nat_eq
frozen_host = refl

freeze_settles_example :
    (settled.frozen ≡ true)
    × (settled.settled ≡ true)
    × (any (process.is_alive 0) settled.threads ≡ false)
    × (freeze process (settled, 0) ≡ (ok tt, settled, 0))
    × ((c : ToolCall)
        → execute checks process c (settled, 0)
          ≡ (err (runtime_error "TOOL_HOST_FROZEN"), settled, 0))
freeze_settles_example = freeze_settles checks process host settled 0 0 refl frozen_host
