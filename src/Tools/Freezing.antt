-- ===== src/Tools/Freezing.antt =====
-- What `ToolHost.freeze` does, alone and with calls that run between its two steps.
use uenv_design.Base.{String, Option, true, false, ◌≡◌, refl, ◌∙◌, List, [], ◌∷◌, ◌++◌}
use uenv_design.Base.{arith, map, ap, any, nat_eq, Bool-cases, inl, inr}
use uenv_design.Result.{Result, ok, err, runtime_error}
use uenv_design.Wire.{ToolCall, ToolResult, ComponentRef, Binding}
use uenv_design.Base.Dict.{Dict}
use uenv_design.Tools.{Checks, ToolHost, ToolDefinition, ToolContext, prepare}
use uenv_design.Tools.Execute.{Process, admit, execute}
use uenv_design.Tools.Calls.{execute_rejected}
use uenv_design.Tools.Freeze.{begin_freeze, finish_freeze, freeze}

-- A frozen host admits no call.
pub admit_frozen :
    {W : Type 0} (c : Checks) (h : ToolHost W) (call : ToolCall)
    → h.frozen ≡ true
    → admit c h call ≡ err (runtime_error "TOOL_HOST_FROZEN")
unfolding admit
admit_frozen c h call f = rw f

-- A frozen host prepares no tools.
pub prepare_frozen :
    {W : Type 0} (c : Checks) (definitions : Dict String (ToolDefinition W))
    (contexts : Dict String ToolContext) (agent : Option ComponentRef) (bs : List Binding)
    (h : ToolHost W)
    → h.frozen ≡ true
    → (prepare c definitions contexts agent bs h).1 ≡ h
unfolding prepare
prepare_frozen c definitions contexts agent bs h f = ground arith

-- What the coroutines of a host do, in the order in which the lock lets them through.
pub data Event : Type 0 where
  run : ToolCall → Event
  begin : Event
  complete : Event

module _ {W : Type 0} (c : Checks) (p : Process W) where
  unfoldable pub step : Event → ToolHost W × W → ToolHost W × W
  step (run call) (h, w) = let (r, h', w') = execute c p call (h, w) in (h', w')
  step begin (h, w) = (begin_freeze h, w)
  step complete (h, w) = let (r, h', w') = finish_freeze p (h, w) in (h', w')

  unfoldable pub steps : List Event → ToolHost W × W → ToolHost W × W
  unfolding step
  steps [] s = s
  steps (e ∷ es) s = steps es (step e s)

  -- The calls that the lock lets through, one after the other, with their results.
  unfoldable pub execute_all :
      List ToolCall → ToolHost W × W → List (Result ToolResult) × ToolHost W × W
  execute_all [] (h, w) = ([], h, w)
  execute_all (call ∷ calls) s =
      let (r, t, v) = execute c p call s in
      let (rs, h, w) = execute_all calls (t, v) in (r ∷ rs, h, w)

-- A host that is settled is frozen.
abbrev pub IsSound : {W : Type 0} → ToolHost W → Type 0
IsSound h = h.settled ≡ true → h.frozen ≡ true

begin_freeze-frozen : {W : Type 0} (h : ToolHost W) → IsSound h → (begin_freeze h).frozen ≡ true
unfolding begin_freeze
begin_freeze-frozen h sound = elim (Bool-cases h.settled) [
  | inl e ↦ rw e (sound e)
  | inr e ↦ rw e refl
]

module _ {W : Type 0} (c : Checks) (p : Process W) where
  steps_frozen :
      (calls : List ToolCall) (h : ToolHost W) (w : W)
      → h.frozen ≡ true
      → steps c p (map run calls) (h, w) ≡ (h, w)
  unfolding steps
  steps_frozen [] h w f = refl
  steps_frozen (call ∷ calls) h w f =
      rw (steps, step, execute_rejected c p call h w _ (admit_frozen c h call f))
        (steps_frozen calls h w f)

  steps-append :
      (es ds : List Event) (s : ToolHost W × W)
      → steps c p (es ++ ds) s ≡ steps c p ds (steps c p es s)
  unfolding steps
  steps-append [] ds s = refl
  steps-append (e ∷ es) ds s = steps-append es ds (step c p e s)

  execute_all_frozen :
      (calls : List ToolCall) (h : ToolHost W) (w : W)
      → h.frozen ≡ true
      → execute_all c p calls (h, w)
        ≡ (map (λ call. err (runtime_error "TOOL_HOST_FROZEN")) calls, h, w)
  unfolding execute_all
  execute_all_frozen [] h w f = refl
  execute_all_frozen (call ∷ calls) h w f =
      rw
        (
          execute_all,
          execute_rejected c p call h w _ (admit_frozen c h call f),
          execute_all_frozen calls h w f,
        )
        refl

  -- On a host that is frozen if it is settled, once `freeze` has set its flag, every call that the lock
  -- lets through before the rest of `freeze` is refused with `TOOL_HOST_FROZEN`, and leaves the host
  -- and the world as they are. So the freeze completes as if the calls had not been made.
  pub freeze_excludes_calls :
      (calls : List ToolCall) (h : ToolHost W) (w : W)
      → IsSound h
      → (execute_all c p calls (begin_freeze h, w)
          ≡ (map (λ call. err (runtime_error "TOOL_HOST_FROZEN")) calls, begin_freeze h, w))
        × (steps c p (begin ∷ (map run calls ++ (complete ∷ []))) (h, w)
            ≡ steps c p (begin ∷ complete ∷ []) (h, w))
  unfolding steps
  freeze_excludes_calls calls h w sound =
      let frozen = begin_freeze-frozen h sound in
      (
        execute_all_frozen calls (begin_freeze h) w frozen,
        steps-append (map run calls) (complete ∷ []) (begin_freeze h, w)
            ∙ ap (steps c p (complete ∷ [])) (steps_frozen calls (begin_freeze h) w frozen),
      )

freeze_done :
    {W : Type 0} (p : Process W) (h h' : ToolHost W) (w w' : W)
    → h.settled ≡ false
    → freeze p (h, w) ≡ (ok tt, h', w')
    → (h'.frozen ≡ true) × (h'.settled ≡ true) × (any (p.is_alive w') h'.threads ≡ false)
unfolding freeze finish_freeze begin_freeze
freeze_done p h h' w w' fresh e = ground arith

-- After a successful `freeze` of a host that had not settled, the host is frozen and settled, and none of its threads is alive.
-- Another `freeze` does nothing, and every call is refused and changes nothing.
pub freeze_settles :
    {W : Type 0} (c : Checks) (p : Process W) (h h' : ToolHost W) (w w' : W)
    → h.settled ≡ false
    → freeze p (h, w) ≡ (ok tt, h', w')
    → (h'.frozen ≡ true)
      × (h'.settled ≡ true)
      × (any (p.is_alive w') h'.threads ≡ false)
      × (freeze p (h', w') ≡ (ok tt, h', w'))
      × ((call : ToolCall)
          → execute c p call (h', w') ≡ (err (runtime_error "TOOL_HOST_FROZEN"), h', w'))
unfolding freeze
freeze_settles c p h h' w w' fresh e =
    let (frozen, settled, dead) = freeze_done p h h' w w' fresh e in
    (
      frozen,
      settled,
      dead,
      rw settled refl,
      λ call. execute_rejected c p call h' w' _ (admit_frozen c h' call frozen),
    )
