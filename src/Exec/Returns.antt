-- ===== src/Exec/Returns.antt =====
-- What the value that a method returns satisfies, from whatever state it starts.
use uenv_design.Base.{Bool, true, false, ◌≡◌, refl}
use uenv_design.Result.{Error, Result, ok, err}
use uenv_design.Result.Holds.{Holds, Holds-return, Holds-raise, Holds-weaken}
use uenv_design.Exec.{Exec, proceed, pure, lift, raise_if, ◌>>=◌, ◌>>◌}

module _ {S : Type 0} {A : Type 0} where
  pub record Returns (P : A → Type 0) (m : Exec S A) : Type 0 where
    pub holds : (s : S) → Holds P (m s).0

  pub Returns-pure : {P : A → Type 0} (a : A) → P a → Returns P (λ s. pure a s)
  Returns-pure a h = record { holds = λ s. Holds-return a h }

  pub Returns-lift : {P : A → Type 0} (r : Result A) → Holds P r → Returns P (λ s. lift r s)
  Returns-lift r h = record { holds = λ s. h }

  -- The value is that of a run from some state.
  pub Returns-ran : (m : Exec S A) → Returns (λ a. (s : S) × ((m s).0 ≡ ok a)) m
  Returns-ran m = record { holds = λ s. record { at = λ a e. (s, e) } }

module _ {S : Type 0} {A B : Type 0} {P : A → Type 0} {Q : B → Type 0} where
  proceed-Holds :
      (r : Result A) (f : A → Exec S B) (s : S)
      → Holds P r
      → ((a : A) → P a → Returns Q (f a))
      → Holds Q (proceed r f s).0
  proceed-Holds (ok a) f s h k = (k a (h.at a refl)).holds s
  proceed-Holds (err e) f s h k = Holds-raise e

  pub Returns-bind :
      (m : Exec S A) (f : A → Exec S B)
      → Returns P m
      → ((a : A) → P a → Returns Q (f a))
      → Returns Q (λ s. (m >>= f) s)
  Returns-bind m f h k = record { holds = λ s. proceed-Holds (m s).0 f (m s).1 (h.holds s) k }

module _ {S : Type 0} {B : Type 0} {Q : B → Type 0} where
  pub Returns-reject :
      (b : Bool) (e : Error) (m : Exec S B)
      → (b ≡ false → Returns Q m)
      → Returns Q (λ s. (raise_if b e >> m) s)
  Returns-reject true e m h = record { holds = λ s. Holds-raise e }
  Returns-reject false e m h = record { holds = λ s. (h refl).holds s }

  -- A check first, of which nothing is used.
  pub Returns-check : (c : Exec S Unit) (m : Exec S B) → Returns Q m → Returns Q (λ s. (c >> m) s)
  Returns-check c m h =
      Returns-bind {P = λ a. Unit {0}} c (λ _. m)
        (record { holds = λ s. record { at = λ a e. tt } }) (λ a _. h)

module _ {S : Type 0} {A : Type 0} {P Q : A → Type 0} where
  pub Returns-weaken : (m : Exec S A) → ((a : A) → P a → Q a) → Returns P m → Returns Q m
  Returns-weaken m f h = record { holds = λ s. Holds-weaken _ f (h.holds s) }
