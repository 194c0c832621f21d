-- ===== src/Tests/EnvironmentRuns.antt =====
-- An environment host without tools, over a system that does nothing.
use uenv_design.Base.{ℕ, true, false, none, some, ◌≡◌, refl, [], ◌∷◌, string_eq, option_eq, nat_eq}
use uenv_design.Result.{Error, ok, err, rpc_error}
use uenv_design.Value.{null}
use uenv_design.Wire.{component_eq, ToolCall, Binding}
use uenv_design.Modeling.{
  model_from_envelope, init, fill, restore, restore_bare, obj, attribute, end,
}
use uenv_design.Modeling.{instance_of}
use uenv_design.Modeling
use uenv_design.Task.{TaskSpec, task_from_wire}
use uenv_design.Session.{System, Session, freeze_tools}
use uenv_design.Tools.Freeze.{freeze, finish_freeze, begin_freeze, hooks, shut_down, cancel_all}
use uenv_design.EnvironmentHost.{prepare_environment}
use uenv_design.EnvironmentHost.State.{EnvironmentHost, HostWorld, new_environment_host}
use uenv_design.EnvironmentHost.{accept_reset, reset, context_of, execute_tool, state_snapshot}
use uenv_design.EnvironmentHost.{freeze_environment, freeze_host, run_until_complete}
use uenv_design.EnvironmentHost.Requests.{
  prepare_request, reset_request, freeze_request, serve, serve_all,
}
use uenv_design.EnvironmentHost.Snapshots.{state_snapshot-excludes_calls}
use uenv_design.EnvironmentHost.Resets.{reset_once}
use uenv_design.Tests.TaskData.{component, input_class, wire_task, empty_config}

abbrev system : System ℕ
system = record {
  resolve = λ w p v. w;
  read_bytes = λ p v. (ok [], v);
  write_bytes = λ p c v. (ok tt, v);
  popen = λ argv p v. (ok v, v);
  communicate = λ p t v. (ok (record { exit_code = 0; stdout = []; stderr = [] }), v);
  stop = λ p v. v;
}

abbrev session : Session ℕ
session = record { identity = "s1"; workspace = []; frozen = false; processes = []; system = 0 }

abbrev world : HostWorld ℕ
world = record {
  component = component;
  input_model = input_class;
  environment_config_model = none;
  plugin = record {
    construct = λ c w. (ok tt, w);
    reset = λ t c w. (err (Error.value_error "broken"), w);
    state_snapshot = λ c w. (ok none, w);
    close = λ c w. (ok tt, w);
  };
  definitions = [];
  depth = 9;
  classes = [];
  checks = record {
    schema_ok = λ s. true;
    conforms = λ s v. true;
    valid_config = λ c. true;
    valid_observation = λ o. true;
    dumps = λ v. ok "";
  };
  valid_task = λ t. true;
  typed_state = λ s. true;
  monotonic = λ w. (0, w);
  process = record {
    threads = λ w. [];
    is_alive = λ w t. false;
    cancel = λ t w. w;
    gather = λ w. w;
    call_hook = λ f w. (ok tt, w);
  };
  system = system;
  freeze_hook = 0;
}

abbrev prepared : EnvironmentHost ℕ
prepared = record (new_environment_host session) { has_environment = true }

host_prepared :
    serve_all world
      (prepare_request component "s1" empty_config ∷ [])
      (new_environment_host session)
    ≡ prepared
unfolding serve_all serve prepare_environment string_eq option_eq component_eq
host_prepared = refl

abbrev view : TaskSpec
view = record {
  task_id = "t";
  dataset = null;
  sample_id = "1";
  input = instance_of "Input" (attribute "question" (Modeling.str "?") end);
  runtime = none;
}

task_accepted : accept_reset world wire_task prepared ≡ ok view
unfolding accept_reset task_from_wire model_from_envelope init fill restore restore_bare string_eq
    option_eq
task_accepted = refl

reset_once_example :
    reset world wire_task 1 1
      (serve_all world (reset_request wire_task 1 1 ∷ freeze_request ∷ []) prepared)
    ≡ (
      err (rpc_error "ENVIRONMENT_RESET_STATE_INVALID"),
      serve_all world (reset_request wire_task 1 1 ∷ freeze_request ∷ []) prepared,
    )
reset_once_example =
    reset_once world wire_task wire_task 1 1 1 1 view (freeze_request ∷ []) prepared _ task_accepted
      refl

abbrev frozen : EnvironmentHost ℕ
frozen = record (new_environment_host session) {
  tools = record {
    tools = [];
    frozen = true;
    prepared = false;
    tasks = [];
    threads = [];
    settled = true;
  };
  session = record session { frozen = true };
}

host_frozen : serve_all world (freeze_request ∷ []) (new_environment_host session) ≡ frozen
unfolding serve_all serve freeze_environment freeze_host run_until_complete freeze finish_freeze
    begin_freeze hooks shut_down cancel_all freeze_tools nat_eq
host_frozen = refl

snapshot_taken : state_snapshot world 5 frozen ≡ (ok none, record frozen { context = some none })
unfolding state_snapshot context_of
snapshot_taken = refl

frozen_again :
    serve_all world (freeze_request ∷ []) (record frozen { context = some none })
    ≡ record frozen { context = some none }
unfolding serve_all serve freeze_environment freeze_host run_until_complete freeze freeze_tools
frozen_again = refl

state_snapshot-excludes_calls_example :
    (frozen.tools.settled ≡ true)
    × (frozen.tools ≡ frozen.tools)
    × ((binding : Binding) (call : ToolCall)
        → (e : Error) × (execute_tool world binding call (record frozen { context = some none })
            ≡ (err e, record frozen { context = some none })))
state_snapshot-excludes_calls_example =
    state_snapshot-excludes_calls world session (freeze_request ∷ []) (freeze_request ∷ []) 5 none
      frozen (record frozen { context = some none }) (record frozen { context = some none })
      host_frozen snapshot_taken frozen_again
