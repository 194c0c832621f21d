-- ===== src/Task.antt =====
-- `task_from_wire` of reference/sdk/src/uenv/sdk/__init__.py, and the config schema that a host expects.
use uenv_design.Base.{ℕ, String, Option, none, some}
use uenv_design.Result.{Result, ok, ◌>>=◌}
use uenv_design.Value.{Value}
use uenv_design.Modeling.{Datum, ModelClass, Classes, Envelope, model_from_envelope}

-- A task on the wire, and the view that components have.
pub record WireTask : Type 0 where
  pub task_id : String
  pub dataset : Value
  pub sample_id : String
  pub input : Envelope
  pub runtime : Option Value

pub record TaskSpec : Type 0 where
  pub task_id : String
  pub dataset : Value
  pub sample_id : String
  pub input : Datum
  pub runtime : Option Value

unfoldable pub task_from_wire : ℕ → Classes → WireTask → ModelClass → Result TaskSpec
task_from_wire depth classes task input_model = do
  input ← model_from_envelope depth classes input_model task.input
  ok (record {
    task_id = task.task_id;
    dataset = task.dataset;
    sample_id = task.sample_id;
    input = input;
    runtime = task.runtime;
  })

-- `model.__schema_id__ if model else 'uenv://schemas/vnext/EmptyConfig'`
abbrev pub expected_schema : Option ModelClass → Option String
expected_schema none = some "uenv://schemas/vnext/EmptyConfig"
expected_schema (some c) = c.schema_id
