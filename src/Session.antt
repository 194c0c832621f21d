-- ===== src/Session.antt =====
-- reference/sdk/src/uenv/sdk/session.py: files and processes inside the isolated session of an attempt.
-- The file system and the processes are a parameter, over an unknown state `V`.
pub mod Freezing
pub mod Paths
use uenv_design.Base.{
  ℕ, String, Bool, true, false, not, ◌&&◌, ◌||◌, Option, none, some, List, [], ◌∷◌, ◌++◌,
}
use uenv_design.Base.{◌==◌, contains, leb, nat_eq, string_eq, if◌then◌else◌}
use uenv_design.Result.{
  Error, Result, ok, err, value_error, type_error, runtime_error, timeout_error,
}
use uenv_design.Exec.{Exec, pure, raise, lift, gets, modify, raise_if, ◌>>=◌, ◌>>◌}
use uenv_design.Value.{Value, str, arr, Items, nil, cons}

-- A resolved path, by its components.
abbrev pub ResolvedPath : Type 0
ResolvedPath = List String

pub record Completed : Type 0 where
  pub exit_code : ℕ
  pub stdout : List ℕ
  pub stderr : List ℕ

-- `Path.resolve` of a text against a directory, the file operations, and `subprocess`: `popen` starts a
-- process and returns its id, `communicate` waits for it, `stop` kills its group and waits.
pub record System (V : Type 0) : Type 0 where
  pub resolve : ResolvedPath → String → V → ResolvedPath
  pub read_bytes : ResolvedPath → V → Result (List ℕ) × V
  pub write_bytes : ResolvedPath → List ℕ → V → Result (Unit {0}) × V
  pub popen : List String → ResolvedPath → V → Result ℕ × V
  pub communicate : ℕ → ℕ → V → Result Completed × V
  pub stop : ℕ → V → V

-- `Session`, with the system behind it.
pub record Session (V : Type 0) : Type 0 where
  pub identity : String
  pub workspace : ResolvedPath
  pub frozen : Bool
  pub processes : List ℕ
  pub system : V

-- `target.is_relative_to(workspace)`
unfoldable pub is_relative_to : ResolvedPath → ResolvedPath → Bool
is_relative_to path [] = true
is_relative_to [] (d ∷ directory) = false
is_relative_to (p ∷ path) (d ∷ directory) = p == d && is_relative_to path directory

-- `isinstance(argv, list) and argv and all(isinstance(v, str) for v in argv)`
abbrev texts_of : Items → Option (List String)
texts_of nil = some []
texts_of (cons (str s) items) = elim (texts_of items) [ none ↦ none | some rest ↦ some (s ∷ rest) ]
texts_of (cons v items) = none

unfoldable pub argv_of : Value → Result (List String)
argv_of (arr (cons v items)) = elim (texts_of (cons v items)) [
  | none ↦ err (type_error "SESSION_COMMAND_REQUIRES_ARGV")
  | some argv ↦ ok argv
]
argv_of v = err (type_error "SESSION_COMMAND_REQUIRES_ARGV")

-- `set.discard`
abbrev pub discard : ℕ → List ℕ → List ℕ
discard p [] = []
discard p (q ∷ ps) = let rest = discard p ps in if p == q then rest else q ∷ rest

module _ {V : Type 0} (sys : System V) where
  -- A call of the system.
  abbrev pub system : {A : Type 0} → (V → Result A × V) → Exec (Session V) A
  system f s = let (r, v) = f s.system in (r, record s { system = v })

  -- `_path`
  unfoldable pub path_of : String → Exec (Session V) ResolvedPath
  path_of path = do
    target ← gets (λ s. sys.resolve s.workspace path s.system)
    workspace ← gets (λ s. s.workspace)
    raise_if (not (is_relative_to target workspace)) (value_error "SESSION_PATH_OUTSIDE_WORKSPACE")
    pure target

  abbrev check_open : Exec (Session V) Unit
  check_open = do frozen ← gets (λ s. s.frozen); raise_if frozen (runtime_error "TOOLS_FROZEN")

  -- `read_file`
  unfoldable pub read_file : String → Exec (Session V) (List ℕ)
  read_file path = do target ← path_of path; system (sys.read_bytes target)

  -- `write_file`
  unfoldable pub write_file : String → List ℕ → Exec (Session V) Unit
  write_file path content = do
    check_open
    target ← path_of path
    system (sys.write_bytes target content)

  -- `run` up to the end of its first use of the lock: the process is started and noted.
  unfoldable pub begin_run : Value → ℕ → String → Exec (Session V) ℕ
  begin_run argv timeout_ms cwd = do
    words ← lift (argv_of argv)
    raise_if (leb timeout_ms 0) (timeout_error "SESSION_COMMAND_TIMEOUT")
    check_open
    target ← path_of cwd
    process ← system (sys.popen words target)
    modify (λ s. record s { processes = process ∷ s.processes })
    pure process

  -- The `finally` clause of `run`.
  unfoldable pub end_run : ℕ → Session V → Session V
  end_run process s = record s {
    system = sys.stop process s.system;
    processes = discard process s.processes;
  }

  abbrev communicate_and_end : ℕ → Result ℕ → Session V → Result Completed × Session V
  communicate_and_end timeout_ms (err e) s = (err e, s)
  communicate_and_end timeout_ms (ok process) s =
      let (r, v) = sys.communicate process timeout_ms s.system in
      (r, end_run process (record s { system = v }))

  -- `run`, where nothing else happens while the process runs.
  unfoldable pub run : Value → ℕ → String → Exec (Session V) Completed
  run argv timeout_ms cwd s =
      let (r, t) = begin_run argv timeout_ms cwd s in communicate_and_end timeout_ms r t

  abbrev pub stop_all : List ℕ → V → V
  stop_all [] v = v
  stop_all (p ∷ ps) v = stop_all ps (sys.stop p v)

  -- `freeze_tools`
  unfoldable pub freeze_tools : Session V → Session V
  freeze_tools s = record s {
    frozen = true;
    system = stop_all s.processes s.system;
    processes = [];
  }
