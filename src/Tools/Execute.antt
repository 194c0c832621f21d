-- ===== src/Tools/Execute.antt =====
-- `ToolHost.execute` and `_execute`: what runs while the host's lock is held.
use uenv_design.Base.{ℕ, Bool, not, ◌&&◌, none, some, List, [], ◌∷◌}
use uenv_design.Base.{◌++◌, ◌==◌, contains, string_eq, nat_eq, if◌then◌else◌}
use uenv_design.Base.Dict
use uenv_design.Result.{Result, ok, err, value_error, runtime_error, validation_error}
use uenv_design.Result.{raise_if, required, ◌>>=◌, ◌>>◌}
use uenv_design.Value.{obj}
use uenv_design.Wire.{component_eq, ended, fields_of, ToolCall, ToolResult}
use uenv_design.Tools.{Output, Checks, observation_from_output, ToolContext, Entry, ToolHost}
use uenv_design.Tools.{check_arguments}

-- What the host does with the process: `threads` is `threading.enumerate()`, `call_hook` calls a
-- shutdown function and awaits it, and `gather` waits for the cancelled tasks.
pub record Process (W : Type 0) : Type 0 where
  pub threads : W → List ℕ
  pub is_alive : W → ℕ → Bool
  pub cancel : ℕ → W → W
  pub gather : W → W
  pub call_hook : ℕ → W → Result (Unit {0}) × W

-- `set.update`: what is not there yet is added.
abbrev pub add_new : List ℕ → List ℕ → List ℕ
add_new old [] = old
add_new old (x ∷ xs) = add_new (if contains old x then old else old ++ (x ∷ [])) xs

-- Set difference.
abbrev pub without : List ℕ → List ℕ → List ℕ
without old [] = []
without old (x ∷ xs) = let rest = without old xs in if contains old x then rest else x ∷ rest

-- The tests of `_execute` on what the tool returned.
unfoldable pub result_of : Checks → ToolCall → ToolContext → Result Output → Result ToolResult
result_of c call context r = do
  output ← r
  o ← observation_from_output c output
  raise_if (not (c.valid_observation o)) (validation_error "Observation")
  raise_if (ended o && not context.has_environment) (value_error "TOOL_HAS_NO_ENVIRONMENT_STATE")
  ok (record {
    tool_call_id = call.tool_call_id;
    status = "ok";
    observation = some o;
    error = none;
  })

module _ {W : Type 0} (c : Checks) where
  -- The tests of `_execute` before the tool runs.
  unfoldable pub admit : ToolHost W → ToolCall → Result (Entry W)
  admit h call = do
    raise_if h.frozen (runtime_error "TOOL_HOST_FROZEN")
    entry ← required call.name (Dict.lookup call.name h.tools)
    raise_if (not (call.implementation == entry.binding.implementation))
        (value_error "TOOL_CALL_BINDING_MISMATCH")
    encoded ← c.dumps (obj (fields_of call.arguments))
    check_arguments c entry.definition call.arguments
    ok entry

  -- `_execute`, with the tasks that were created in it.
  unfoldable pub run_admitted : ToolCall → Result (Entry W) → W → Result ToolResult × W × List ℕ
  run_admitted call (err e) w = (err e, w, [])
  run_admitted call (ok entry) w =
      let (r, w', tasks) = entry.definition.execute call.arguments entry.context w in
      (result_of c call entry.context r, w', tasks)

  module _ (p : Process W) where
    -- `execute`: the `finally` clause notes the new threads, on every way out.
    unfoldable pub execute : ToolCall → ToolHost W × W → Result ToolResult × ToolHost W × W
    execute call (h, w) =
        let (r, w', tasks) = run_admitted call (admit h call) w in
        (
          r,
          record h {
            tasks = add_new h.tasks tasks;
            threads = add_new h.threads (without (p.threads w) (p.threads w'));
          },
          w',
        )
