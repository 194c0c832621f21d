-- ===== src/Result/Holds.antt =====
-- What a successful result satisfies, one rule for each way to build a result.
use uenv_design.Base.{String, ◌≡◌, refl, Bool, true, false, not, Option, none, some, subst}
use uenv_design.Base.{if◌then◌else◌}
use uenv_design.Result.{Error, Result, ok, err, key_error, raise_if, required, ◌>>=◌, ◌>>◌}

-- The value satisfies `P`, if there is one.
pub record Holds {ℓ κ} {A : Type ℓ} (P : A → Type κ) (r : Result A) : Type (ℓ ⊔ κ) where
  pub at : (a : A) → r ≡ ok a → P a

abbrev OfValue {ℓ κ} : {A : Type ℓ} → (A → Type κ) → Result A → Type κ
OfValue P (ok a) = P a
OfValue P (err e) = Unit

module _ {ℓ κ} {A : Type ℓ} {P : A → Type κ} where
  pub Holds-return : (a : A) → P a → Holds P (ok a)
  Holds-return a h = record { at = λ b e. subst (OfValue P) e h }

  pub Holds-raise : (e : Error) → Holds P (err e)
  Holds-raise e = record { at = λ b h. cc }

  pub Holds-check :
      (m : Result (Unit {0})) (k : Result A) → (m ≡ ok tt → Holds P k) → Holds P (m >> k)
  Holds-check (ok _) k h = h refl
  Holds-check (err e) k h = Holds-raise e

  -- `if not b: raise e`
  pub Holds-require :
      (b : Bool) (e : Error) (k : Result A)
      → (b ≡ true → Holds P k)
      → Holds P (raise_if (not b) e >> k)
  Holds-require true e k h = h refl
  Holds-require false e k h = Holds-raise e

  -- `if b: raise e`
  pub Holds-reject :
      (b : Bool) (e : Error) (k : Result A) → (b ≡ false → Holds P k) → Holds P (raise_if b e >> k)
  Holds-reject true e k h = Holds-raise e
  Holds-reject false e k h = h refl

  pub Holds-if :
      (b : Bool) (r s : Result A)
      → (b ≡ true → Holds P r)
      → (b ≡ false → Holds P s)
      → Holds P (if b then r else s)
  Holds-if true r s h k = h refl
  Holds-if false r s h k = k refl

module _ {ℓ κ μ} {A : Type ℓ} {B : Type μ} {P : B → Type κ} where
  pub Holds-bind :
      (m : Result A) (f : A → Result B) → ((a : A) → m ≡ ok a → Holds P (f a)) → Holds P (m >>= f)
  Holds-bind (ok a) f h = h a refl
  Holds-bind (err e) f h = Holds-raise e

  -- `d[key]`
  pub Holds-required :
      (key : String) (o : Option A) (f : A → Result B)
      → ((a : A) → o ≡ some a → Holds P (f a))
      → Holds P (required key o >>= f)
  Holds-required key none f h = Holds-raise (key_error key)
  Holds-required key (some a) f h = h a refl

module _ {ℓ κ μ} {A : Type ℓ} {P : A → Type κ} {Q : A → Type μ} where
  pub Holds-weaken : (r : Result A) → ((a : A) → P a → Q a) → Holds P r → Holds Q r
  Holds-weaken r f h = record { at = λ a e. f a (h.at a e) }
