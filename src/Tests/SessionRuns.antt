-- ===== src/Tests/SessionRuns.antt =====
-- A session over a system that counts what it does.
use uenv_design.Base.{
  zero, All, Bool, ℕ, suc, ◌==◌, if◌then◌else◌, true, false, ◌≡◌, refl, List, [], ◌∷◌, string_eq,
}
use uenv_design.Result.{ok, err, value_error}
use uenv_design.Value.{str, arr, cons, nil}
use uenv_design.Session.{
  System, Session, is_relative_to, path_of, read_file, write_file, begin_run, freeze_tools,
}
use uenv_design.Session.Freezing.{acts, Act, write, start, freeze, acts-freeze_tools, IsStopping}
use uenv_design.Session.Paths.{confined, path_of_confines}

-- A path "out" leads outside, any other into the workspace.
abbrev system : System ℕ
system = record {
  resolve = λ w p v. if p == "out" then "etc" ∷ [] else "work" ∷ p ∷ [];
  read_bytes = λ p v. (ok [], v);
  write_bytes = λ p c v. (ok tt, suc v);
  popen = λ argv p v. (ok v, suc v);
  communicate = λ p t v. (ok (record { exit_code = 0; stdout = []; stderr = [] }), v);
  stop = λ p v. suc v;
}

abbrev session : Session ℕ
session = record {
  identity = "s1";
  workspace = "work" ∷ [];
  frozen = false;
  processes = 4 ∷ [];
  system = 0;
}

wrote_inside : write_file system "a" [] session ≡ (ok tt, record session { system = 1 })
unfolding write_file path_of is_relative_to string_eq
wrote_inside = refl

denied_outside :
    write_file system "out" [] session
    ≡ (err (value_error "SESSION_PATH_OUTSIDE_WORKSPACE"), session)
unfolding write_file path_of is_relative_to string_eq
denied_outside = refl

abbrev tries : List Act
tries = write "a" [] ∷ freeze ∷ start (arr (cons (str "ls") nil)) 5 "." ∷ []

-- All processes run until the system has done something.
abbrev running : ℕ → ℕ → Bool
running zero p = true
running (suc v) p = false

system-IsStopping : IsStopping system running
system-IsStopping = record { stops = λ p v. refl; starts_none = λ p q v h. refl }

acts-freeze_tools_example :
    (acts system tries (freeze_tools system session) ≡ freeze_tools system session)
    × ((freeze_tools system session).frozen ≡ true)
    × ((freeze_tools system session).processes ≡ [])
    × All (λ p. running (freeze_tools system session).system p ≡ false) session.processes
acts-freeze_tools_example = acts-freeze_tools system running system-IsStopping tries session

path_of_confines_example :
    (read_file (confined ("work" ∷ []) (value_error "denied") system) "out" session
      ≡ read_file system "out" session)
    × (write_file (confined ("work" ∷ []) (value_error "denied") system) "out" [] session
        ≡ write_file system "out" [] session)
    × (begin_run (confined ("work" ∷ []) (value_error "denied") system) (str "ls") 5 "out" session
        ≡ begin_run system (str "ls") 5 "out" session)
path_of_confines_example =
    path_of_confines system (value_error "denied") session "out" [] (str "ls") 5
