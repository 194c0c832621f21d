-- ===== src/Base/Distinct.antt =====
-- Lists without repetition, and how long they can be.
use Prim.Native.Nat.{suc, ◌≤◌}
use mathlib.Core.Path.{◌≡◌, refl}
use mathlib.Core.Bool.{true, false}
use mathlib.Core.List.{List, [], ◌∷◌, ◌++◌}
use native.Mathlib.Omega.{arith}
use uenv_design.Base.Equality.{Eq, ◌==◌, contains, if◌then◌else◌}
use uenv_design.Base.Lists.{length, all}
use uenv_design.Base.Dict.{contains-append}

module _ {ℓ} {A : Type ℓ} ⦃e : Eq A⦄ where
  abbrev pub Distinct : List A → Type 0
  Distinct [] = Unit
  Distinct (x ∷ xs) = (contains xs x ≡ false) × Distinct xs

  pub Distinct-append :
      (xs : List A) (x : A) → Distinct xs → contains xs x ≡ false → Distinct (xs ++ x ∷ [])
  Distinct-append [] x d h = (refl, tt)
  Distinct-append (y ∷ xs) x (new, d) h =
      (rw contains-append (ground arith), Distinct-append xs x d (ground arith))

  remove : A → List A → List A
  remove x [] = []
  remove x (y ∷ ys) = if x == y then ys else y ∷ remove x ys

  length-remove :
      (x : A) (ys : List A) → contains ys x ≡ true → length ys ≡ suc (length (remove x ys))
  unfolding remove
  length-remove x [] h = cc
  length-remove x (y ∷ ys) h = ground (arith, length-remove x ys)

  contains-remove :
      (x z : A) (ys : List A) → (z == x) ≡ false → contains (remove x ys) z ≡ contains ys z
  unfolding remove
  contains-remove x z [] h = refl
  contains-remove x z (y ∷ ys) h = ground (arith, contains-remove x z ys)

  all-remove :
      (x : A) (xs ys : List A)
      → contains xs x ≡ false
      → all (contains ys) xs ≡ true
      → all (contains (remove x ys)) xs ≡ true
  all-remove x [] ys h k = refl
  all-remove x (z ∷ xs) ys h k = ground (arith, contains-remove x z ys, all-remove x xs ys)

  -- Members of a list that do not repeat are no more than its length.
  pub length-Distinct_le :
      (xs ys : List A) → Distinct xs → all (contains ys) xs ≡ true → length xs ≤ length ys
  length-Distinct_le [] ys d h = omega arith
  length-Distinct_le (x ∷ xs) ys (new, d) h =
      ground (arith, length-remove x ys, length-Distinct_le xs (remove x ys) d, all-remove x xs ys)
