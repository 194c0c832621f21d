-- ===== src/Exec/Preserves.antt =====
-- What a method leaves true of its object, whether it returns or raises.
use uenv_design.Base.{Bool, true, false}
use uenv_design.Result.{Error, Result, ok, err}
use uenv_design.Exec.{Exec, proceed, pure, lift, gets, raise_if, ◌>>=◌, ◌>>◌}

module _ {S : Type 0} where
  pub record Preserves {A : Type 0} (I : S → Type 0) (m : Exec S A) : Type 0 where
    pub after : (s : S) → I s → I (m s).1

module _ {S A B : Type 0} {I : S → Type 0} where
  proceed-preserves :
      (r : Result A) (f : A → Exec S B) (s : S)
      → I s
      → ((a : A) → Preserves I (f a))
      → I (proceed r f s).1
  proceed-preserves (ok a) f s h k = (k a).after s h
  proceed-preserves (err e) f s h k = h

  pub Preserves-bind :
      (m : Exec S A) (f : A → Exec S B)
      → Preserves I m
      → ((a : A) → Preserves I (f a))
      → Preserves I (λ s. (m >>= f) s)
  Preserves-bind m f h k = record {
    after = λ s i. proceed-preserves (m s).0 f (m s).1 (h.after s i) k;
  }

module _ {S B : Type 0} {I : S → Type 0} where
  pub Preserves-reject :
      (b : Bool) (e : Error) (m : Exec S B)
      → Preserves I m
      → Preserves I (λ s. (raise_if b e >> m) s)
  Preserves-reject true e m h = record { after = λ s i. i }
  Preserves-reject false e m h = record { after = λ s i. h.after s i }

  pub Preserves-gets :
      {A : Type 0} (f : S → A) (k : A → Exec S B)
      → ((a : A) → Preserves I (k a))
      → Preserves I (λ s. (gets f >>= k) s)
  Preserves-gets f k h = record { after = λ s i. (h (f s)).after s i }

  pub Preserves-pure : (b : B) → Preserves I (λ s. pure b s)
  Preserves-pure b = record { after = λ s i. i }

  pub Preserves-lift : (r : Result B) → Preserves I (λ s. lift r s)
  Preserves-lift r = record { after = λ s i. i }
