-- ===== src/Base/Dict.antt =====
-- Python's dicts in insertion order, over keys whose equality can be decided.
use uenv_design.Base.Equality.{Eq, ◌==◌, contains, if◌then◌else◌}
use mathlib.Core.Path.{◌≡◌, refl, ap}
use mathlib.Core.Bool.{true, false, ◌||◌}
use mathlib.Core.Option.{Option, none, some}
use mathlib.Core.List.{List, [], ◌∷◌, ◌++◌, append_assoc}
use uenv_design.Base.Lists.{all}
use native.Mathlib.Omega.{arith}

abbrev pub Dict {ℓ κ} : Type ℓ → Type κ → Type (ℓ ⊔ κ)
Dict K V = List (K × V)

-- `d.keys()`, in insertion order.
abbrev pub keys {ℓ κ} : {K : Type ℓ} {V : Type κ} → Dict K V → List K
keys [] = []
keys ((k, v) ∷ d) = k ∷ keys d

-- `d.values()`
abbrev pub values {ℓ κ} : {K : Type ℓ} {V : Type κ} → Dict K V → List V
values [] = []
values ((k, v) ∷ d) = v ∷ values d

module _ {ℓ κ} {K : Type ℓ} {V : Type κ} ⦃e : Eq K⦄ where
  -- `d.get(k)`
  abbrev pub lookup : K → Dict K V → Option V
  lookup k [] = none
  lookup k ((j, v) ∷ d) = if k == j then some v else lookup k d

  -- `d[k] = v`
  abbrev pub insert : K → V → Dict K V → Dict K V
  insert k v [] = (k, v) ∷ []
  insert k v ((j, w) ∷ d) = if k == j then (j, v) ∷ d else (j, w) ∷ insert k v d

  -- `d.pop(k, None)`, where a key stands once.
  abbrev pub erase : K → Dict K V → Dict K V
  erase k [] = []
  erase k ((j, w) ∷ d) = if k == j then d else (j, w) ∷ erase k d

  abbrev pub NodupKeys : Dict K V → Type 0
  NodupKeys [] = Unit
  NodupKeys ((k, _) ∷ d) = (contains (keys d) k ≡ false) × NodupKeys d

  pub lookup-insert :
      (j k : K) (v : V) (d : Dict K V)
      → lookup j (insert k v d) ≡ (if j == k then some v else lookup j d)
  lookup-insert j k v [] = refl
  lookup-insert j k v ((i, w) ∷ d) = ground (arith, lookup-insert j k v d)

  pub contains-keys-insert :
      (j k : K) (v : V) (d : Dict K V)
      → contains (keys (insert k v d)) j ≡ (j == k || contains (keys d) j)
  contains-keys-insert j k v [] = refl
  contains-keys-insert j k v ((i, w) ∷ d) = ground (arith, contains-keys-insert j k v d)

  pub insert-NodupKeys : (k : K) (v : V) (d : Dict K V) → NodupKeys d → NodupKeys (insert k v d)
  insert-NodupKeys k v [] h = (refl, tt)
  insert-NodupKeys k v ((j, w) ∷ d) (fresh, h) =
      ground (arith, insert-NodupKeys k v d h, contains-keys-insert j k v d)

  -- A key that is not listed is appended at the end.
  pub insert_fresh :
      (k : K) (v : V) (d : Dict K V) → contains (keys d) k ≡ false → insert k v d ≡ d ++ (k, v) ∷ []
  insert_fresh k v [] h = refl
  insert_fresh k v ((j, w) ∷ d) h = ground (arith, insert_fresh k v d)

module _ {ℓ κ} {K : Type ℓ} {V : Type κ} where
  pub keys-append : (c d : Dict K V) → keys (c ++ d) ≡ keys c ++ keys d
  keys-append [] d = refl
  keys-append ((k, v) ∷ c) d = ap (λ ks. k ∷ ks) (keys-append c d)

  pub values-append : (c d : Dict K V) → values (c ++ d) ≡ values c ++ values d
  values-append [] d = refl
  values-append ((k, v) ∷ c) d = ap (λ vs. v ∷ vs) (values-append c d)

module _ {ℓ κ} {K : Type ℓ} {V : Type κ} ⦃e : Eq K⦄ where
  -- The first entry of a key after entries of other keys.
  pub lookup_middle :
      (k : K) (v : V) (c d : Dict K V)
      → contains (keys c) k ≡ false
      → lookup k (c ++ (k, v) ∷ d) ≡ some v
  lookup_middle k v [] d h = ground arith
  lookup_middle k v ((j, w) ∷ c) d h = ground (arith, lookup_middle k v c d)

module _ {ℓ} {K : Type ℓ} ⦃e : Eq K⦄ where
  pub contains-append :
      (xs ys : List K) (k : K) → contains (xs ++ ys) k ≡ (contains xs k || contains ys k)
  contains-append [] ys k = refl
  contains-append (x ∷ xs) ys k = ground (arith, contains-append xs ys k)

  pub contains_middle : (ys xs : List K) (x : K) → contains (ys ++ x ∷ xs) x ≡ true
  contains_middle [] xs x = ground arith
  contains_middle (y ∷ ys) xs x = ground (arith, contains_middle ys xs x)

  all-contains_part : (ys xs : List K) → all (contains (ys ++ xs)) xs ≡ true
  all-contains_part ys [] = refl
  all-contains_part ys (x ∷ xs) =
      rw (contains_middle ys xs x)
        (rw (append_assoc ys (x ∷ []) xs) at (all-contains_part (ys ++ x ∷ []) xs))

  pub all-contains_self : (xs : List K) → all (contains xs) xs ≡ true
  all-contains_self xs = all-contains_part [] xs

module _ {ℓ κ} {K : Type ℓ} {V : Type κ} ⦃e : Eq K⦄ where
  -- None of the names is a key.
  abbrev pub Fresh : Dict K V → List K → Type 0
  Fresh d [] = Unit
  Fresh d (k ∷ ks) = (contains (keys d) k ≡ false) × Fresh d ks

  -- A name that is not among them may be added.
  pub Fresh-append :
      (d : Dict K V) (k : K) (v : V) (names : List K)
      → contains names k ≡ false
      → Fresh d names
      → Fresh (d ++ (k, v) ∷ []) names
  Fresh-append d k v [] h f = tt
  Fresh-append d k v (n ∷ names) h (new, f) =
      (rw (keys-append, contains-append) (ground arith), Fresh-append d k v names (ground arith) f)
