-- ===== src/Modeling/Plain.antt =====
-- Models whose annotations name no other model, on values that are plain data: a field is restored
-- to the value that was given.
pub mod Instances
use uenv_design.Base.{ℕ, zero, suc, ◌+◌, String, Bool, true, false, ◌&&◌, ◌||◌, Option, none, some}
use uenv_design.Base.{
  List, [], ◌∷◌, ◌≡◌, refl, sym, ap, ◌∙◌, subst, All, all, contains, string_eq, arith,
}
use uenv_design.Base.{◌≢◌, ◌⊎◌, inl, inr, Bool-cases}
use uenv_design.Base.Dict
use uenv_design.Base.Dict.{Dict, NodupKeys}
use uenv_design.Result.{Error, Result, ok, err, type_error, Result-cases, raise_if, ◌>>=◌, ◌>>◌}
use uenv_design.Result.Holds.{
  Holds, Holds-return, Holds-bind, Holds-raise, Holds-reject, Holds-check,
}
use uenv_design.Modeling.{
  Datum, null, bool, int, real, str, arr, obj, instance_of, Items, nil, cons, Attributes, attribute,
  end, attributes_of, dict_of, Annotation, list_of, mapping, optional, model, annotated, bare,
  ModelClass, Classes, dump, dump_items, dump_attributes, restore_items, restore_values,
  restore_bare, restore, fill, init, field_value, model_to_envelope, model_from_envelope,
}
use uenv_design.Modeling.RoundTrip.{
  TypedFields, TypedInstance, init-dump, to_envelope-bound, from_envelope-bound,
}

-- No instance of a model anywhere.
abbrev mutual
  pub IsPlain : Datum → Type 0
  IsPlain (arr items) = ArePlain items
  IsPlain (obj fields) = HasPlain fields
  IsPlain (instance_of name fields) = ⊥
  IsPlain v = Unit

  pub ArePlain : Items → Type 0
  ArePlain nil = Unit
  ArePlain (cons v items) = IsPlain v × ArePlain items

  pub HasPlain : Attributes → Type 0
  HasPlain end = Unit
  HasPlain (attribute k v rest) = IsPlain v × HasPlain rest

mutual
  unfolding dump

  pub dump-IsPlain : (v : Datum) → IsPlain v → dump v ≡ v
  dump-IsPlain (arr items) h = ap arr (dump_items-ArePlain items h)
  dump-IsPlain (obj fields) h = ap obj (dump_attributes-HasPlain fields h)
  dump-IsPlain (instance_of name fields) h = absurd h
  dump-IsPlain null h = refl
  dump-IsPlain (bool b) h = refl
  dump-IsPlain (int n) h = refl
  dump-IsPlain (real r) h = refl
  dump-IsPlain (str s) h = refl

  dump_items-ArePlain : (items : Items) → ArePlain items → dump_items items ≡ items
  dump_items-ArePlain nil h = refl
  dump_items-ArePlain (cons v items) (h, hs) =
      rw (dump-IsPlain v h, dump_items-ArePlain items hs) refl

  dump_attributes-HasPlain :
      (fields : Attributes) → HasPlain fields → dump_attributes fields ≡ fields
  dump_attributes-HasPlain end h = refl
  dump_attributes-HasPlain (attribute k v rest) (h, hs) =
      rw (dump-IsPlain v h, dump_attributes-HasPlain rest hs) refl

-- The annotation names no model, and is nested less than so deep.
module _ (recur : Annotation → Bool) where
  abbrev simple_bare : Annotation → Bool
  simple_bare (optional a) = recur a
  simple_bare (list_of a) = recur a
  simple_bare (mapping text_keys a) = recur a
  simple_bare (model name) = false
  simple_bare a = true

abbrev pub simple : ℕ → Annotation → Bool
simple zero a = false
simple (suc depth) a = simple_bare (simple depth) (bare a)

module _ (recur : Annotation → Datum → Result Datum) (okay : Annotation → Bool)
    (keeps : (a : Annotation) (v : Datum) → okay a ≡ true → IsPlain v → recur a v ≡ ok v) where
  restore_items-ArePlain :
      (a : Annotation) (items : Items)
      → okay a ≡ true
      → ArePlain items
      → restore_items recur a items ≡ ok items
  restore_items-ArePlain a nil o h = refl
  restore_items-ArePlain a (cons v items) o (h, hs) =
      rw (keeps a v o h, restore_items-ArePlain a items o hs) refl

  restore_values-HasPlain :
      (a : Annotation) (fields : Attributes)
      → okay a ≡ true
      → HasPlain fields
      → restore_values recur a fields ≡ ok fields
  restore_values-HasPlain a end o h = refl
  restore_values-HasPlain a (attribute k v rest) o (h, hs) =
      rw (keeps a v o h, restore_values-HasPlain a rest o hs) refl

  restore_bare-IsPlain :
      (classes : Classes) (a : Annotation) (v : Datum)
      → simple_bare okay a ≡ true
      → IsPlain v
      → restore_bare recur classes a v ≡ ok v
  unfolding restore_bare
  restore_bare-IsPlain classes (optional a) null o h = refl
  restore_bare-IsPlain classes (optional a) (bool b) o h = keeps a (bool b) o h
  restore_bare-IsPlain classes (optional a) (int n) o h = keeps a (int n) o h
  restore_bare-IsPlain classes (optional a) (real r) o h = keeps a (real r) o h
  restore_bare-IsPlain classes (optional a) (str s) o h = keeps a (str s) o h
  restore_bare-IsPlain classes (optional a) (arr items) o h = keeps a (arr items) o h
  restore_bare-IsPlain classes (optional a) (obj fields) o h = keeps a (obj fields) o h
  restore_bare-IsPlain classes (optional a) (instance_of n fields) o h = absurd h
  restore_bare-IsPlain classes (model name) v o h = cc
  restore_bare-IsPlain classes (list_of a) (arr items) o h =
      rw (restore_items-ArePlain a items o h) refl
  restore_bare-IsPlain classes (mapping text_keys a) (obj fields) o h =
      rw (restore_values-HasPlain a fields o h) refl
  restore_bare-IsPlain classes a v o h = refl

pub restore-IsPlain :
    (depth : ℕ) (classes : Classes) (a : Annotation) (v : Datum)
    → simple depth a ≡ true
    → IsPlain v
    → restore depth classes a v ≡ ok v
unfolding restore
restore-IsPlain zero classes a v o h = cc
restore-IsPlain (suc depth) classes a v o h =
    restore_bare-IsPlain (restore depth classes) (simple depth) (restore-IsPlain depth classes)
      classes (bare a) v o h
