-- ===== src/Modeling/Plain/Instances.antt =====
-- Instances of simple models that were made from plain data: their fields, and their round trip.
use uenv_design.Base.{ℕ, String, Bool, true, ◌||◌, Option, none, some, [], ◌∷◌}
use uenv_design.Base.{◌≡◌, refl, sym, ◌∙◌, subst, ◌≢◌, inl, inr, All, all, contains, string_eq}
use uenv_design.Base.{Bool-cases, Option-cases, ◌==◌, arith, not}
use uenv_design.Base.Dict
use uenv_design.Base.Dict.{Dict, NodupKeys}
use uenv_design.Result.{Result, ok, ok_inj, ◌>>=◌}
use uenv_design.Result.Holds.{Holds, Holds-return, Holds-raise, Holds-bind, Holds-reject}
use uenv_design.Modeling.{
  Datum, instance_of, Attributes, attributes_of, Annotation, ModelClass, Classes, dump, restore,
  fill, init, field_value, model_to_envelope, model_from_envelope,
}
use uenv_design.Modeling.RoundTrip.{TypedFields, init-dump, to_envelope-bound, from_envelope-bound}
use uenv_design.Modeling.Plain.{IsPlain, dump-IsPlain, simple, restore-IsPlain}

-- The values of a dict are plain.
abbrev pub PlainDict : Dict String Datum → Type 0
PlainDict = All (λ entry. IsPlain entry.1)

unfoldable pub PlainMaybe : Option Datum → Type 0
PlainMaybe none = Unit
PlainMaybe (some v) = IsPlain v

pub lookup-PlainDict :
    (k : String) (d : Dict String Datum) → PlainDict d → PlainMaybe (Dict.lookup k d)
unfolding PlainMaybe
lookup-PlainDict k [] h = tt
lookup-PlainDict k ((j, v) ∷ d) (h, hs) = elim (Bool-cases (k == j)) [
  | inl e ↦ rw (PlainMaybe, e) h
  | inr e ↦ rw (PlainMaybe, e) (lookup-PlainDict k d hs)
]

field_value-IsPlain :
    (given default : Option Datum)
    → PlainMaybe given
    → PlainMaybe default
    → Holds IsPlain (field_value given default)
unfolding PlainMaybe
field_value-IsPlain (some v) default h k = Holds-return v h
field_value-IsPlain none (some v) h k = Holds-return v k
field_value-IsPlain none none h k = Holds-raise _

-- An annotation that keeps plain data, and such data.
abbrev pub Kept : (Annotation → Bool) → Annotation → Datum → Type 0
Kept okay a v = (okay a ≡ true) × IsPlain v

module _ (recur : Annotation → Datum → Result Datum) (okay : Annotation → Bool)
    (keeps : (a : Annotation) (v : Datum) → okay a ≡ true → IsPlain v → recur a v ≡ ok v) where
  fill-Kept :
      (hints : Dict String Annotation) (defaults given : Dict String Datum)
      → All (λ hint. okay hint.1 ≡ true) hints
      → PlainDict defaults
      → PlainDict given
      → Holds
          (λ out. TypedFields (Kept okay) hints (attributes_of out))
          (fill recur hints defaults given)
  unfolding fill
  fill-Kept [] defaults given o d g = Holds-return [] tt
  fill-Kept ((name, a) ∷ hints) defaults given (o, os) d g =
      Holds-bind (field_value (Dict.lookup name given) (Dict.lookup name defaults)) _ λ v from.
        let plain : IsPlain v =
          (field_value-IsPlain (Dict.lookup name given) (Dict.lookup name defaults)
              (lookup-PlainDict name given g) (lookup-PlainDict name defaults d)).at
            v from in
        Holds-bind (recur a v) _ λ x restored.
          let same : v ≡ x = ok_inj v x (sym (keeps a v o plain) ∙ restored) in
          Holds-bind (fill recur hints defaults given) _ λ rest filled.
            Holds-return ((name, x) ∷ rest) (
              refl,
              (o, subst IsPlain same plain),
              (fill-Kept hints defaults given os d g).at rest filled,
            )

  -- A new instance has the fields of its class, each with plain data.
  pub init-Kept :
      (c : ModelClass) (given : Dict String Datum)
      → All (λ hint. okay hint.1 ≡ true) c.hints
      → PlainDict c.defaults
      → PlainDict given
      → Holds
          (λ x.
            (fields : Attributes) × (x ≡ instance_of c.name fields)
            × TypedFields (Kept okay) c.hints fields)
          (init recur c given)
  unfolding init
  init-Kept c given o d g =
      Holds-reject (not (all (contains (Dict.keys c.hints)) (Dict.keys given))) _ _ λ known.
        Holds-bind (fill recur c.hints c.defaults given) _ λ out filled.
          Holds-return _
            (attributes_of out, refl, (fill-Kept c.hints c.defaults given o d g).at out filled)

  contains-lookup :
      (k : String) (d : Dict String Datum)
      → contains (Dict.keys d) k ≡ true
      → (v : Datum) × (Dict.lookup k d ≡ some v)
  contains-lookup k [] h = cc
  contains-lookup k ((j, v) ∷ d) h = elim (Bool-cases (k == j)) [
    | inl e ↦ (v, rw e refl)
    | inr e ↦ let (u, f) = contains-lookup k d (ground arith) in (u, rw e f)
  ]

  -- A field is given, or has a default.
  field_value_given :
      (name : String) (defaults given : Dict String Datum)
      → (contains (Dict.keys given) name || contains (Dict.keys defaults) name) ≡ true
      → (v : Datum) × (field_value (Dict.lookup name given) (Dict.lookup name defaults) ≡ ok v)
  field_value_given name defaults given h = elim (Option-cases (Dict.lookup name given)) [
    | inr (v, e) ↦ (v, rw e refl)
    | inl e ↦ elim (Bool-cases (contains (Dict.keys given) name)) [
      | inl f ↦ let (v, g) = contains-lookup name given f in cc
      | inr f ↦ let (v, g) = contains-lookup name defaults (ground arith) in (v, rw (e, g) refl)
    ]
  ]

  fill_given :
      (hints : Dict String Annotation) (defaults given : Dict String Datum)
      → All (λ hint. okay hint.1 ≡ true) hints
      → PlainDict defaults
      → PlainDict given
      → all
          (λ name. contains (Dict.keys given) name || contains (Dict.keys defaults) name)
          (Dict.keys hints)
        ≡ true
      → (out : Dict String Datum) × (fill recur hints defaults given ≡ ok out)
  unfolding fill
  fill_given [] defaults given o d g h = ([], refl)
  fill_given ((name, a) ∷ hints) defaults given (o, os) d g h =
      let (v, e) = field_value_given name defaults given (ground arith) in
      let (rest, f) = fill_given hints defaults given os d g (ground arith) in
      (
        (name, v) ∷ rest,
        rw
            (
              e,
              keeps a v o (
                  (field_value-IsPlain (Dict.lookup name given) (Dict.lookup name defaults)
                      (lookup-PlainDict name given g) (lookup-PlainDict name defaults d)).at
                    v e),
              f,
            )
            refl,
      )

  -- A class takes plain values for its fields, where every field without a default is given.
  pub init_given :
      (c : ModelClass) (given : Dict String Datum)
      → All (λ hint. okay hint.1 ≡ true) c.hints
      → PlainDict c.defaults
      → PlainDict given
      → all (contains (Dict.keys c.hints)) (Dict.keys given) ≡ true
      → all
          (λ name. contains (Dict.keys given) name || contains (Dict.keys c.defaults) name)
          (Dict.keys c.hints)
        ≡ true
      → (x : Datum) × (init recur c given ≡ ok x)
  unfolding init
  init_given c given o d g known enough =
      let (out, e) = fill_given c.hints c.defaults given o d g enough in
      (instance_of c.name (attributes_of out), rw (known, e) refl)

restore-Kept :
    (depth : ℕ) (classes : Classes) (a : Annotation) (v : Datum)
    → Kept (simple depth) a v
    → restore depth classes a (dump v) ≡ ok v
restore-Kept depth classes a v (o, plain) =
    rw (dump-IsPlain v plain) (restore-IsPlain depth classes a v o plain)

-- An instance whose fields hold plain data goes to its envelope and back.
pub envelope-Kept :
    (depth : ℕ) (classes : Classes) (c : ModelClass) (schema_id : String) (fields : Attributes)
    → c.schema_id ≡ some schema_id
    → schema_id ≢ ""
    → NodupKeys c.hints
    → TypedFields (Kept (simple depth)) c.hints fields
    → (model_to_envelope c fields >>= model_from_envelope depth classes c)
      ≡ ok (instance_of c.name fields)
envelope-Kept depth classes c schema_id fields bound named once typed =
    rw
      (
        to_envelope-bound c schema_id fields bound named,
        from_envelope-bound depth classes c schema_id fields bound,
      )
      (init-dump (Kept (simple depth)) (restore depth classes) (restore-Kept depth classes) c c.name
        fields (record { named = refl; once = once; fields_typed = typed }))
