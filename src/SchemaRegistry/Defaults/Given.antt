-- ===== src/SchemaRegistry/Defaults/Given.antt =====
-- A key that was given a value is not overwritten by a default.
use uenv_design.Base.{
  ℕ, String, ◌≡◌, refl, sym, ap, ◌∙◌, subst, some, none, string_eq, Bool-cases, inl, inr,
}
use uenv_design.Base.{◌==◌, arith, true, false, ==_refl}
use uenv_design.Base.Dict.{Dict}
use uenv_design.Result.{ok}
use uenv_design.Value.{Value, arr, obj, Fields, field, end}
use uenv_design.SchemaRegistry.{key_of}
use uenv_design.SchemaRegistry.Defaults.{set_key, apply_defaults}
use uenv_design.SchemaRegistry.Defaults.Extensions.{
  Extends, same, after, added, within, members, apply_defaults-Extends,
}

pub key_of-set_key : (k : String) (v : Value) (f : Fields) → key_of k (set_key k v f) ≡ some v
unfolding set_key
key_of-set_key k v end = rw (==_refl k) refl
key_of-set_key k v (field j x rest) = elim (Bool-cases (j == k)) [
  | inl e ↦ rw e (rw e refl)
  | inr e ↦ rw e (rw e (key_of-set_key k v rest))
]

pub key_of-set_key_other :
    (j k : String) (v : Value) (f : Fields)
    → (k == j) ≡ false
    → key_of j (set_key k v f) ≡ key_of j f
unfolding set_key
key_of-set_key_other j k v end h = rw h refl
key_of-set_key_other j k v (field i x rest) h = ground (arith, key_of-set_key_other j k v rest h)

-- A value that has no keys and no members.
abbrev pub IsScalar : Value → Type 0
IsScalar (arr items) = ⊥
IsScalar (obj fields) = ⊥
IsScalar v = Unit

Extends-IsScalar : (v w : Value) → Extends v w → IsScalar v → w ≡ v
Extends-IsScalar v w (same _) h = refl
Extends-IsScalar v w (after _ u _ e f) h =
    let first = Extends-IsScalar v u e h in
    Extends-IsScalar u w f (subst IsScalar (sym first) h) ∙ first
Extends-IsScalar v w (added fields key x e) h = absurd h
Extends-IsScalar v w (within fields key x y e f) h = absurd h
Extends-IsScalar v w (members items others e) h = absurd h

none-some : {x : Value} → none ≡ some x → ⊥
none-some h = cc

-- The value is an object where the key has a value.
abbrev pub Keeps : String → Value → Value → Type 0
Keeps k x (obj fields) = key_of k fields ≡ some x
Keeps k x v = ⊥

some_inj : {x y : Value} → some x ≡ some y → x ≡ y
some_inj h = cc

==_eq : (j k : String) → (j == k) ≡ true → j ≡ k
==_eq j k h = ground arith

Extends-Keeps : (k : String) (x v w : Value) → IsScalar x → Extends v w → Keeps k x v → Keeps k x w
Extends-Keeps k x v w s (same _) h = h
Extends-Keeps k x v w s (after _ u _ e f) h =
    Extends-Keeps k x u w s f (Extends-Keeps k x v u s e h)
Extends-Keeps k x v w s (added fields key y e) h = elim (Bool-cases (key == k)) [
  | inr differ ↦ key_of-set_key_other k key y fields differ ∙ h
  | inl equal ↦ absurd (none-some (sym e ∙ ap (λ j. key_of j fields) (==_eq key k equal) ∙ h))
]
Extends-Keeps k x v w s (within fields key y z e f) h = elim (Bool-cases (key == k)) [
  | inr differ ↦ key_of-set_key_other k key z fields differ ∙ h
  | inl equal ↦
      let here : y ≡ x = some_inj (sym e ∙ ap (λ j. key_of j fields) (==_eq key k equal) ∙ h) in
      let stays : z ≡ y = Extends-IsScalar y z f (subst IsScalar (sym here) s) in
      ap (λ j. key_of j (set_key key z fields)) (sym (==_eq key k equal))
      ∙ key_of-set_key key z fields
      ∙ ap some (stays ∙ here)
]
Extends-Keeps k x v w s (members items others e) h = absurd h

-- An explicit value is kept: where `apply_defaults` returns for an object that has a text, a number, a
-- Boolean or null under a key, what it returns is an object with the same value under that key.
pub apply_defaults-Keeps :
    (core_id : String) (core : Value) (extensions : Dict String Value) (depth : ℕ) (name k : String)
    (x v w : Value)
    → IsScalar x
    → Keeps k x v
    → apply_defaults core_id core extensions depth name v ≡ ok w
    → Keeps k x w
apply_defaults-Keeps core_id core extensions depth name k x v w s h e =
    Extends-Keeps k x v w s (apply_defaults-Extends core_id core extensions depth name v w e) h
