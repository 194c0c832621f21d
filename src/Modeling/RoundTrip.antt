-- ===== src/Modeling/RoundTrip.antt =====
-- An instance that goes to the wire and back is unchanged.
use uenv_design.Base.{ℕ, zero, suc, String, ◌≡◌, refl, ◌∙◌, some}
use uenv_design.Base.{List, [], ◌∷◌, ◌++◌, ap, string_eq, option_eq}
use uenv_design.Base.{==_refl, ==_ne, ◌≢◌}
use mathlib.Core.List.{append_assoc}
use uenv_design.Base.Dict
use uenv_design.Base.Dict.{Dict, NodupKeys, lookup_middle, Fresh, Fresh-append, all-contains_self}
use uenv_design.Result.{Result, ok, ◌>>=◌}
use uenv_design.Modeling.{
  Datum, null, bool, int, real, str, arr, obj, instance_of, Items, nil, cons,
}
use uenv_design.Modeling.{Attributes, end, attribute, attributes_of, dict_of, Annotation, list_of}
use uenv_design.Modeling.{mapping, optional, model, bare, ModelClass, Classes}
use uenv_design.Modeling.{
  dump, dump_items, dump_attributes, restore_items, restore_values, fill, init,
}
use uenv_design.Modeling.{
  restore_bare, restore, envelope_of, model_to_envelope, model_from_envelope,
}

module _ (typed : Annotation → Datum → Type 0) where
  abbrev pub TypedItems : Annotation → Items → Type 0
  TypedItems a nil = Unit
  TypedItems a (cons v items) = typed a v × TypedItems a items

  abbrev pub TypedValues : Annotation → Attributes → Type 0
  TypedValues a end = Unit
  TypedValues a (attribute k v rest) = typed a v × TypedValues a rest

  -- The attributes are those of the hints, in their order.
  abbrev pub TypedFields : Dict String Annotation → Attributes → Type 0
  TypedFields [] end = Unit
  TypedFields ((name, a) ∷ hints) (attribute k v rest) =
      (k ≡ name) × typed a v × TypedFields hints rest
  TypedFields _ _ = ⊥

  pub record TypedInstance (c : ModelClass) (name : String) (fields : Attributes) : Type 0 where
    pub named : c.name ≡ name
    pub once : NodupKeys c.hints
    pub fields_typed : TypedFields c.hints fields

  -- A value of the annotation. Where the annotation says nothing of models, a value without them.
  abbrev pub TypedBare : Classes → Annotation → Datum → Type 0
  TypedBare classes (optional a) null = Unit
  TypedBare classes (optional a) v = typed a v
  TypedBare classes (model name) (instance_of n fields) =
      (c : ModelClass) × (Dict.lookup name classes ≡ some c)
      × (n ≡ name)
      × TypedInstance c name fields
  TypedBare classes (model name) v = ⊥
  TypedBare classes (list_of a) (arr items) = TypedItems a items
  TypedBare classes (list_of a) v = ⊥
  TypedBare classes (mapping text_keys a) (obj fields) = TypedValues a fields
  TypedBare classes (mapping text_keys a) v = ⊥
  TypedBare classes a v = dump v ≡ v

-- A value of the annotation, nested at most so deep.
abbrev pub Typed : ℕ → Classes → Annotation → Datum → Type 0
Typed zero classes a v = ⊥
Typed (suc depth) classes a v = TypedBare (Typed depth classes) classes (bare a) v

Fresh-nil : (names : List String) → Fresh {V = Datum} [] names
Fresh-nil [] = tt
Fresh-nil (n ∷ names) = (refl, Fresh-nil names)

attributes_of-dict_of : (fields : Attributes) → attributes_of (dict_of fields) ≡ fields
attributes_of-dict_of end = refl
attributes_of-dict_of (attribute k v rest) = ap (attribute k v) (attributes_of-dict_of rest)

module _ (typed : Annotation → Datum → Type 0) (recur : Annotation → Datum → Result Datum)
    (back : (a : Annotation) (v : Datum) → typed a v → recur a (dump v) ≡ ok v) where
  restore_items-dump :
      (a : Annotation) (items : Items)
      → TypedItems typed a items
      → restore_items recur a (dump_items items) ≡ ok items
  unfolding dump
  restore_items-dump a nil h = refl
  restore_items-dump a (cons v items) (h, hs) = rw (back a v h, restore_items-dump a items hs) refl

  restore_values-dump :
      (a : Annotation) (fields : Attributes)
      → TypedValues typed a fields
      → restore_values recur a (dump_attributes fields) ≡ ok fields
  unfolding dump
  restore_values-dump a end h = refl
  restore_values-dump a (attribute k v rest) (h, hs) =
      rw (back a v h, restore_values-dump a rest hs) refl

  keys-dump :
      (hints : Dict String Annotation) (fields : Attributes)
      → TypedFields typed hints fields
      → Dict.keys (dict_of (dump_attributes fields)) ≡ Dict.keys hints
  unfolding dump
  keys-dump [] end h = refl
  keys-dump [] (attribute k v rest) h = absurd h
  keys-dump (hint ∷ hints) end h = absurd h
  keys-dump ((name, a) ∷ hints) (attribute k v rest) (same, h, hs) =
      rw (same, keys-dump hints rest hs) refl

  fill-dump :
      (hints : Dict String Annotation) (defaults before : Dict String Datum) (fields : Attributes)
      → NodupKeys hints
      → Fresh before (Dict.keys hints)
      → TypedFields typed hints fields
      → fill recur hints defaults (before ++ dict_of (dump_attributes fields)) ≡ ok (dict_of fields)
  unfolding dump fill
  fill-dump [] defaults before end u f h = refl
  fill-dump [] defaults before (attribute k v rest) u f h = absurd h
  fill-dump (hint ∷ hints) defaults before end u f h = absurd h
  fill-dump ((name, a) ∷ hints) defaults before (attribute k v rest) (fresh, u) (new, f)
        (same, h, hs) =
      rw
        (
          same,
          lookup_middle name (dump v) before (dict_of (dump_attributes rest)) new,
          back a v h,
          ← append_assoc before ((name, dump v) ∷ []) (dict_of (dump_attributes rest)),
          fill-dump hints defaults (before ++ (name, dump v) ∷ []) rest u
              (Fresh-append before name (dump v) (Dict.keys hints) fresh f) hs,
        )
        refl

  pub init-dump :
      (c : ModelClass) (name : String) (fields : Attributes)
      → TypedInstance typed c name fields
      → init recur c (dict_of (dump_attributes fields)) ≡ ok (instance_of name fields)
  unfolding init
  init-dump c name fields t =
      rw
        (
          keys-dump c.hints fields t.fields_typed,
          all-contains_self (Dict.keys c.hints),
          fill-dump c.hints c.defaults [] fields t.once (Fresh-nil (Dict.keys c.hints))
              t.fields_typed,
          attributes_of-dict_of,
          t.named,
        )
        refl

  restore_bare-dump :
      (classes : Classes) (a : Annotation) (v : Datum)
      → TypedBare typed classes a v
      → restore_bare recur classes a (dump v) ≡ ok v
  unfolding restore_bare dump
  restore_bare-dump classes (optional a) null h = refl
  restore_bare-dump classes (optional a) (bool b) h = back a (bool b) h
  restore_bare-dump classes (optional a) (int n) h = back a (int n) h
  restore_bare-dump classes (optional a) (real r) h = back a (real r) h
  restore_bare-dump classes (optional a) (str s) h = back a (str s) h
  restore_bare-dump classes (optional a) (arr items) h = back a (arr items) h
  restore_bare-dump classes (optional a) (obj fields) h = back a (obj fields) h
  restore_bare-dump classes (optional a) (instance_of n fields) h = back a (instance_of n fields) h
  restore_bare-dump classes (model name) (instance_of n fields) (c, known, same, t) =
      rw (known, init-dump c name fields t, same) refl
  restore_bare-dump classes (model name) v h = absurd h
  restore_bare-dump classes (list_of a) (arr items) h = rw (restore_items-dump a items h) refl
  restore_bare-dump classes (list_of a) v h = absurd h
  restore_bare-dump classes (mapping text_keys a) (obj fields) h =
      rw (restore_values-dump a fields h) refl
  restore_bare-dump classes (mapping text_keys a) v h = absurd h
  restore_bare-dump classes a v h = ap ok h

-- A value of an annotation, dumped and restored within the depth at which it is nested, is back.
restore-dump :
    (depth : ℕ) (classes : Classes) (a : Annotation) (v : Datum)
    → Typed depth classes a v
    → restore depth classes a (dump v) ≡ ok v
unfolding restore
restore-dump zero classes a v h = absurd h
restore-dump (suc depth) classes a v h =
    restore_bare-dump (Typed depth classes) (restore depth classes) (restore-dump depth classes)
      classes (bare a) v h

pub to_envelope-bound :
    (c : ModelClass) (schema_id : String) (fields : Attributes)
    → c.schema_id ≡ some schema_id
    → schema_id ≢ ""
    → model_to_envelope c fields
      ≡ ok (record { schema_ref = schema_id; content = obj (dump_attributes fields) })
unfolding model_to_envelope dump
to_envelope-bound c schema_id fields bound named =
    ap (λ o. envelope_of o (instance_of c.name fields)) bound ∙ rw (==_ne named) refl

pub from_envelope-bound :
    (depth : ℕ) (classes : Classes) (c : ModelClass) (schema_id : String) (fields : Attributes)
    → c.schema_id ≡ some schema_id
    → model_from_envelope depth classes c
        (record { schema_ref = schema_id; content = obj (dump_attributes fields) })
      ≡ init (restore depth classes) c (dict_of (dump_attributes fields))
unfolding model_from_envelope
from_envelope-bound depth classes c schema_id fields bound =
    rw (model_from_envelope, ← bound, ==_refl c.schema_id) refl

-- An instance of a bound class goes to its envelope and comes back unchanged, where the class has
-- each hint once, the instance has the attributes of the hints, and each is a value of its
-- annotation that is nested no deeper than Python's limit allows.
pub model_from_envelope-to_envelope :
    (depth : ℕ) (classes : Classes) (c : ModelClass) (schema_id : String) (fields : Attributes)
    → c.schema_id ≡ some schema_id
    → schema_id ≢ ""
    → TypedInstance (Typed depth classes) c c.name fields
    → (model_to_envelope c fields >>= model_from_envelope depth classes c)
      ≡ ok (instance_of c.name fields)
model_from_envelope-to_envelope depth classes c schema_id fields bound named t =
    rw
      (
        to_envelope-bound c schema_id fields bound named,
        from_envelope-bound depth classes c schema_id fields bound,
      )
      (init-dump (Typed depth classes) (restore depth classes) (restore-dump depth classes) c c.name
        fields t)
