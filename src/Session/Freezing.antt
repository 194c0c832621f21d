-- ===== src/Session/Freezing.antt =====
-- A frozen session: what tools still can do with it.
use uenv_design.Base.{
  ℕ, String, Bool, true, false, All, ◌≡◌, refl, sym, ap, ◌∙◌, Bool-cases, leb, List, [], ◌∷◌, inl,
  inr,
}
use uenv_design.Result.{err, runtime_error, Result-cases}
use uenv_design.Value.{Value}
use uenv_design.Session.{
  System, Session, write_file, begin_run, run, freeze_tools, argv_of, stop_all,
}

-- What a tool may do, besides reading, and a second `freeze_tools`.
pub data Act : Type 0 where
  write : String → List ℕ → Act
  start : Value → ℕ → String → Act
  freeze : Act

module _ {V : Type 0} (sys : System V) where
  unfoldable pub act : Act → Session V → Session V
  act (write path content) s = (write_file sys path content s).1
  act (start argv timeout_ms cwd) s = (run sys argv timeout_ms cwd s).1
  act freeze s = freeze_tools sys s

  unfoldable pub acts : List Act → Session V → Session V
  acts [] s = s
  acts (e ∷ es) s = acts es (act e s)

  write_file_frozen :
      (path : String) (content : List ℕ) (s : Session V)
      → s.frozen ≡ true
      → write_file sys path content s ≡ (err (runtime_error "TOOLS_FROZEN"), s)
  unfolding write_file
  write_file_frozen path content s f = rw f refl

  run_frozen :
      (argv : Value) (timeout_ms : ℕ) (cwd : String) (s : Session V)
      → s.frozen ≡ true
      → (run sys argv timeout_ms cwd s).1 ≡ s
  unfolding run begin_run
  run_frozen argv timeout_ms cwd s f = elim (Result-cases (argv_of argv)) [
    | inr (e, no_argv) ↦ rw (no_argv, begin_run) refl
    | inl (words, argv_given) ↦ elim (Bool-cases (leb timeout_ms 0)) [
      | inl late ↦ rw (argv_given, begin_run, late) refl
      | inr early ↦ rw (argv_given, begin_run, early, f) refl
    ]
  ]

  freeze_again : (s : Session V) → s.frozen ≡ true → s.processes ≡ [] → freeze_tools sys s ≡ s
  unfolding freeze_tools
  freeze_again s f p = rw p (ap (λ b. record s { frozen = b; processes = [] }) (sym f) ∙ refl)

  act_frozen : (a : Act) (s : Session V) → s.frozen ≡ true → s.processes ≡ [] → act a s ≡ s
  unfolding act
  act_frozen (write path content) s f p = ap (λ o. o.1) (write_file_frozen path content s f)
  act_frozen (start argv timeout_ms cwd) s f p = run_frozen argv timeout_ms cwd s f
  act_frozen freeze s f p = freeze_again s f p

  acts_frozen : (es : List Act) (s : Session V) → s.frozen ≡ true → s.processes ≡ [] → acts es s ≡ s
  unfolding acts
  acts_frozen [] s f p = refl
  acts_frozen (e ∷ es) s f p = ap (acts es) (act_frozen e s f p) ∙ acts_frozen es s f p

-- Which processes run: one that was stopped does not, and stopping starts none.
pub record IsStopping {V : Type 0} (sys : System V) (running : V → ℕ → Bool) : Type 0 where
  pub stops : (process : ℕ) (v : V) → running (sys.stop process v) process ≡ false
  pub starts_none :
      (process other : ℕ) (v : V)
      → running v other ≡ false
      → running (sys.stop process v) other ≡ false

module _ {V : Type 0} (sys : System V) (running : V → ℕ → Bool)
    (stopping : IsStopping sys running) where
  stop_all_keeps :
      (processes : List ℕ) (other : ℕ) (v : V)
      → running v other ≡ false
      → running (stop_all sys processes v) other ≡ false
  stop_all_keeps [] other v h = h
  stop_all_keeps (p ∷ processes) other v h =
      stop_all_keeps processes other (sys.stop p v) (stopping.starts_none p other v h)

  stop_all_stops :
      (processes : List ℕ) (v : V)
      → All (λ p. running (stop_all sys processes v) p ≡ false) processes
  stop_all_stops [] v = tt
  stop_all_stops (p ∷ processes) v = (
    stop_all_keeps processes p (sys.stop p v) (stopping.stops p v),
    stop_all_stops processes (sys.stop p v),
  )

  -- After `freeze_tools`, whatever tools try to write or to start, and however often the session is
  -- frozen again, neither the session nor the system behind it changes. No process that the session
  -- had noted runs any more, where stopping a process ends it and starts none, and none is noted.
  pub acts-freeze_tools :
      (es : List Act) (s : Session V)
      → (acts sys es (freeze_tools sys s) ≡ freeze_tools sys s)
        × ((freeze_tools sys s).frozen ≡ true)
        × ((freeze_tools sys s).processes ≡ [])
        × All (λ p. running (freeze_tools sys s).system p ≡ false) s.processes
  unfolding freeze_tools
  acts-freeze_tools es s =
      (acts_frozen sys es _ refl refl, refl, refl, stop_all_stops s.processes s.system)
