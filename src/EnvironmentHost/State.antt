-- ===== src/EnvironmentHost/State.antt =====
-- reference/sdk/src/uenv/sdk/environment_host.py: the state of the host, and what it stands on.
use uenv_design.Base.{ℕ, String, Bool, false, Option, none}
use uenv_design.Base.{option_eq, string_eq}
use uenv_design.Base.Dict.{Dict}
use uenv_design.Result.{Result}
use uenv_design.Value.{Value}
use uenv_design.Wire.{ComponentRef, component_eq, TypedConfig, Observation}
use uenv_design.Modeling.{ModelClass, Classes}
use uenv_design.Task.{WireTask, TaskSpec}
use uenv_design.Session.{Session, System}
use uenv_design.Tools.{Checks, ToolDefinition, ToolHost, new_host}
use uenv_design.Tools.Execute.{Process}

-- `EnvironmentContext`: the deadline in microseconds, and the seed.
pub record EnvironmentContext : Type 0 where
  pub deadline : ℕ
  pub seed : Option ℕ

-- The environment class of the package: its constructor and its methods.
pub record Plugin (W : Type 0) : Type 0 where
  pub construct : Value → W → Result (Unit {0}) × W
  pub reset : TaskSpec → EnvironmentContext → W → Result Observation × W
  pub state_snapshot : EnvironmentContext → W → Result (Option TypedConfig) × W
  pub close : EnvironmentContext → W → Result (Unit {0}) × W

-- `monotonic` is in microseconds, `valid_task` the registry's check of a task, `typed_state` whether a
-- snapshot is an instance of the state model, and `freeze_hook` the name of `session.freeze_tools`.
pub record HostWorld (V : Type 0) : Type 0 where
  pub component : ComponentRef
  pub input_model : ModelClass
  pub environment_config_model : Option ModelClass
  pub plugin : Plugin (Session V)
  pub definitions : Dict String (ToolDefinition (Session V))
  pub depth : ℕ
  pub classes : Classes
  pub checks : Checks
  pub valid_task : WireTask → Bool
  pub typed_state : TypedConfig → Bool
  pub monotonic : Session V → ℕ × Session V
  pub process : Process (Session V)
  pub system : System V
  pub freeze_hook : ℕ

-- `EnvironmentHost`. `context` is the seed of `self.context`, if there is one.
pub record EnvironmentHost (V : Type 0) : Type 0 where
  pub has_environment : Bool
  pub context : Option (Option ℕ)
  pub tools : ToolHost (Session V)
  pub reset_done : Bool
  pub closed : Bool
  pub session : Session V

-- `EnvironmentHost.__init__`
abbrev pub new_environment_host : {V : Type 0} → Session V → EnvironmentHost V
new_environment_host session = record {
  has_environment = false;
  context = none;
  tools = new_host;
  reset_done = false;
  closed = false;
  session = session;
}
