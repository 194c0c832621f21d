-- ===== src/Tools/Soundness.antt =====
-- Whatever is asked of a tool host, it is never settled without being frozen.
use uenv_design.Base.{String, true, ◌||◌, ◌≡◌, refl, List, [], Option, arith, Bool-cases, inl, inr}
use uenv_design.Base.Dict.{Dict}
use uenv_design.Result.{Result, Result-cases}
use uenv_design.Wire.{Binding, ComponentRef, ToolCall}
use uenv_design.Tools.{Checks, ToolDefinition, ToolContext, ToolHost, prepare, stage}
use uenv_design.Tools.Execute.{Process, execute}
use uenv_design.Tools.Freeze.{freeze, finish_freeze, begin_freeze}
use uenv_design.Tools.Freezing.{IsSound}

module _ {W : Type 0} (c : Checks) where
  pub prepare-IsSound :
      (definitions : Dict String (ToolDefinition W)) (contexts : Dict String ToolContext)
      (agent : Option ComponentRef) (bindings : List Binding) (h : ToolHost W)
      → IsSound h
      → IsSound (prepare c definitions contexts agent bindings h).1
  unfolding prepare
  prepare-IsSound definitions contexts agent bindings h sound =
      elim (Bool-cases (h.prepared || h.frozen)) [
        | inl e ↦ rw e sound
        | inr e ↦ elim (Result-cases (stage c definitions contexts agent bindings [])) [
          | inl (staged, good) ↦ rw (e, good) sound
          | inr (wrong, bad) ↦ rw (e, bad) sound
        ]
      ]

  pub execute-IsSound :
      (p : Process W) (call : ToolCall) (h : ToolHost W) (w : W)
      → IsSound h
      → IsSound (execute c p call (h, w)).1
  unfolding execute
  execute-IsSound p call h w sound = sound

module _ {W : Type 0} (p : Process W) where
  freeze_outcome :
      (h h' : ToolHost W) (w w' : W) (r : Result (Unit {0}))
      → freeze p (h, w) ≡ (r, h', w')
      → (h.settled ≡ true → h.frozen ≡ true)
      → h'.settled ≡ true
      → h'.frozen ≡ true
  unfolding freeze finish_freeze begin_freeze
  freeze_outcome h h' w w' r e sound settled = ground arith

  pub freeze-IsSound : (h : ToolHost W) (w : W) → IsSound h → IsSound (freeze p (h, w)).1
  freeze-IsSound h w sound = freeze_outcome h _ w _ _ refl sound
