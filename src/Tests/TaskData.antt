-- ===== src/Tests/TaskData.antt =====
-- A task of a package, as the Worker sends it.
use uenv_design.Base.{none, some, [], ◌∷◌}
use uenv_design.Value
use uenv_design.Wire.{ComponentRef, TypedConfig}
use uenv_design.Modeling.{ModelClass, obj, attribute, end, any_type, str}
use uenv_design.Task.{WireTask}

abbrev pub component : ComponentRef
component = record { id = "datasets/d"; version = "1"; digest = "sha256:0" }

abbrev pub input_class : ModelClass
input_class = record {
  name = "Input";
  doc = "";
  hints = ("question", any_type) ∷ [];
  defaults = [];
  schema_id = some "urn:input";
}

abbrev pub wire_task : WireTask
wire_task = record {
  task_id = "t";
  dataset = Value.null;
  sample_id = "1";
  input = record { schema_ref = "urn:input"; content = obj (attribute "question" (str "?") end) };
  runtime = none;
}

abbrev pub empty_config : TypedConfig
empty_config = record { schema_ref = "uenv://schemas/vnext/EmptyConfig"; content = Value.null }
