-- ===== src/Session/Paths.antt =====
-- Every file that a session reads or writes, and every directory it starts a process in, lies in its
-- workspace.
use uenv_design.Base.{
  ℕ, String, Bool, true, false, ◌≡◌, refl, List, inl, inr, Bool-cases, leb, if◌then◌else◌,
}
use uenv_design.Result.{Error, Result, ok, err}
use uenv_design.Exec.{Exec, lift, raise_if, ◌>>=◌, ◌>>◌}
use uenv_design.Value.{Value}
use uenv_design.Session.{
  ResolvedPath, System, Session, is_relative_to, path_of, read_file, write_file, begin_run,
}
use uenv_design.Session.{argv_of}

-- The system with all of a directory's outside denied.
unfoldable pub confined : {V : Type 0} → ResolvedPath → Error → System V → System V
confined directory denied sys = record {
  resolve = sys.resolve;
  read_bytes = λ p v. if is_relative_to p directory then sys.read_bytes p v else (err denied, v);
  write_bytes =
      λ p c v. if is_relative_to p directory then sys.write_bytes p c v else (err denied, v);
  popen = λ a p v. if is_relative_to p directory then sys.popen a p v else (err denied, v);
  communicate = sys.communicate;
  stop = sys.stop;
}

module _ {V : Type 0} (sys : System V) {A : Type 0} where
  path_of_agree :
      (path : String) (f g : ResolvedPath → Exec (Session V) A) (s : Session V)
      → ((t : ResolvedPath) → is_relative_to t s.workspace ≡ true → f t s ≡ g t s)
      → (path_of sys path >>= f) s ≡ (path_of sys path >>= g) s
  unfolding path_of
  path_of_agree path f g s h =
      elim (Bool-cases (is_relative_to (sys.resolve s.workspace path s.system) s.workspace)) [
        | inl inside ↦ rw inside (h _ inside)
        | inr outside ↦ rw outside refl
      ]

module _ {S A B : Type 0} where
  lift_agree :
      (r : Result A) (f g : A → Exec S B) (s : S)
      → ((a : A) → f a s ≡ g a s)
      → (lift r >>= f) s ≡ (lift r >>= g) s
  lift_agree (ok a) f g s h = h a
  lift_agree (err e) f g s h = refl

module _ {S B : Type 0} where
  raise_if_agree :
      (b : Bool) (e : Error) (m n : Exec S B) (s : S)
      → m s ≡ n s
      → (raise_if b e >> m) s ≡ (raise_if b e >> n) s
  raise_if_agree true e m n s h = refl
  raise_if_agree false e m n s h = h

module _ {V : Type 0} (sys : System V) (denied : Error) (s : Session V) where
  read_file-confined :
      (path : String) → read_file (confined s.workspace denied sys) path s ≡ read_file sys path s
  unfolding read_file path_of confined
  read_file-confined path = path_of_agree sys path _ _ s λ t inside. rw inside refl

  write_file-confined :
      (path : String) (content : List ℕ)
      → write_file (confined s.workspace denied sys) path content s ≡ write_file sys path content s
  unfolding write_file path_of confined
  write_file-confined path content =
      raise_if_agree s.frozen _ _ _ s (path_of_agree sys path _ _ s λ t inside. rw inside refl)

  begin_run-confined :
      (argv : Value) (timeout_ms : ℕ) (path : String)
      → begin_run (confined s.workspace denied sys) argv timeout_ms path s
        ≡ begin_run sys argv timeout_ms path s
  unfolding begin_run path_of confined
  begin_run-confined argv timeout_ms path = lift_agree (argv_of argv) _ _ s λ words.
      raise_if_agree (leb timeout_ms 0) _ _ _ s
        (raise_if_agree s.frozen _ _ _ s (path_of_agree sys path _ _ s λ t inside. rw inside refl))

-- A session never reaches outside its workspace: if the system denied it every path that does not lie in
-- the workspace, then reading, writing and starting a process would do exactly the same, whatever
-- path they are given.
pub path_of_confines :
    {V : Type 0} (sys : System V) (denied : Error) (s : Session V) (path : String)
    (content : List ℕ) (argv : Value) (timeout_ms : ℕ)
    → (read_file (confined s.workspace denied sys) path s ≡ read_file sys path s)
      × (write_file (confined s.workspace denied sys) path content s
          ≡ write_file sys path content s)
      × (begin_run (confined s.workspace denied sys) argv timeout_ms path s
          ≡ begin_run sys argv timeout_ms path s)
path_of_confines sys denied s path content argv timeout_ms = (
  read_file-confined sys denied s path,
  write_file-confined sys denied s path content,
  begin_run-confined sys denied s argv timeout_ms path,
)
