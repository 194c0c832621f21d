-- ===== src/Tools/Freeze.antt =====
-- `ToolHost.freeze`, in the two steps that other coroutines can tell apart: the flag is set at once,
-- and the rest waits for the lock.
use uenv_design.Base.{ℕ, true, false, Option, none, some, List, [], ◌∷◌, ◌++◌}
use uenv_design.Base.{contains, any, nat_eq, if◌then◌else◌}
use uenv_design.Base.Dict
use uenv_design.Result.{Result, ok, err, runtime_error}
use uenv_design.Tools.{ToolHost, Entry}
use uenv_design.Tools.Execute.{Process}

abbrev hook : Option ℕ → List ℕ → List ℕ
hook none rest = rest
hook (some f) rest = f ∷ rest

-- The functions that the two loops come by, `None` left out.
unfoldable pub hooks : {W : Type 0} → List (Entry W) → List ℕ
hooks [] = []
hooks (e ∷ es) = hook e.definition.shutdown (hook e.context.freeze (hooks es))

-- `self._frozen = True`
unfoldable pub begin_freeze : {W : Type 0} → ToolHost W → ToolHost W
begin_freeze h = if h.settled then h else record h { frozen = true }

module _ {W : Type 0} (p : Process W) where
  -- The two loops, with the functions seen so far. An exception ends them.
  unfoldable pub shut_down : List ℕ → List ℕ → W → Result (Unit {0}) × W
  shut_down [] seen w = (ok tt, w)
  shut_down (f ∷ fs) seen w = elim (contains seen f) [
    | true ↦ shut_down fs seen w
    | false ↦
        let (r, w') = p.call_hook f w in
        elim r [ ok _ ↦ shut_down fs (seen ++ (f ∷ [])) w' | err e ↦ (err e, w') ]
  ]

  unfoldable pub cancel_all : List ℕ → W → W
  cancel_all [] w = w
  cancel_all (t ∷ ts) w = cancel_all ts (p.cancel t w)

  abbrev gather_if : List ℕ → W → W
  gather_if [] w = w
  gather_if (t ∷ ts) w = p.gather w

  abbrev finish : Result (Unit {0}) × W → ToolHost W → Result (Unit {0}) × ToolHost W × W
  finish (err e, w) h = (err e, h, w)
  finish (ok _, w) h =
      if any (p.is_alive w) h.threads
      then (err (runtime_error "TOOL_BACKGROUND_WRITER_NOT_STOPPED"), h, w)
      else (ok tt, record h { settled = true }, w)

  -- What runs under the lock.
  unfoldable pub finish_freeze : ToolHost W × W → Result (Unit {0}) × ToolHost W × W
  finish_freeze (h, w) =
      finish (shut_down (hooks (Dict.values h.tools)) [] (gather_if h.tasks (cancel_all h.tasks w)))
        h

  -- `freeze`
  unfoldable pub freeze : ToolHost W × W → Result (Unit {0}) × ToolHost W × W
  freeze (h, w) = if h.settled then (ok tt, h, w) else finish_freeze (begin_freeze h, w)
