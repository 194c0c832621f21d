-- ===== src/Datasets/Samples/Instances.antt =====
-- What `normalize` makes of a row: instances of the models of the package, which survive the wire.
use uenv_design.Base.{ℕ, suc, String, Option, none, some, [], ◌∷◌}
use uenv_design.Base.{◌≡◌, ◌≢◌, refl, sym, ap, subst, string_eq}
use uenv_design.Base.Dict
use uenv_design.Base.Dict.{Dict, NodupKeys}
use uenv_design.Result.{ok, required, ◌>>=◌}
use uenv_design.Result.Holds.{
  Holds, Holds-return, Holds-raise, Holds-bind, Holds-check, Holds-required,
}
use uenv_design.Modeling.{
  Datum, str, instance_of, Attributes, ModelClass, Classes, restore, init, model_to_envelope,
  envelope_of, model_from_envelope,
}
use uenv_design.Modeling.RoundTrip.{TypedFields}
use uenv_design.Modeling.Plain.{IsPlain, simple, restore-IsPlain}
use uenv_design.Modeling.Plain.Instances.{
  PlainDict, PlainMaybe, lookup-PlainDict, Kept, init-Kept, envelope-Kept,
}
use uenv_design.Datasets.Adapters.{
  Row, Column, column, or_empty, last_answer, answer_of, or_blank, Adapter, PreparedSample,
  read_column, read_columns, check_variant, normalize,
}
use uenv_design.Datasets.Samples.{DatasetPackage, adapter_for, Fits, IsSound, adapter_for-IsSound}

required-IsPlain : (key : String) (o : Option Datum) → PlainMaybe o → Holds IsPlain (required key o)
unfolding PlainMaybe
required-IsPlain key none h = Holds-raise _
required-IsPlain key (some v) h = Holds-return v h

or_blank-IsPlain : (o : Option Datum) → PlainMaybe o → IsPlain (or_blank o)
unfolding PlainMaybe
or_blank-IsPlain none h = tt
or_blank-IsPlain (some v) h = h

answer_of-IsPlain : (v : Datum) → Holds IsPlain (answer_of v)
answer_of-IsPlain (str s) = Holds-return _ tt
answer_of-IsPlain v = Holds-raise _

read_column-IsPlain : (row : Row) (c : Column) → PlainDict row → Holds IsPlain (read_column row c)
unfolding read_column
read_column-IsPlain row (column key) h = required-IsPlain key _ (lookup-PlainDict key row h)
read_column-IsPlain row (or_empty key) h =
    Holds-return _ (or_blank-IsPlain _ (lookup-PlainDict key row h))
read_column-IsPlain row (last_answer key) h =
    Holds-bind (required key (Dict.lookup key row)) _ λ v _. answer_of-IsPlain v

-- What is read has the names of the columns, and plain data.
pub read_columns-PlainDict :
    (row : Row) (columns : Dict String Column)
    → PlainDict row
    → Holds
        (λ given. (Dict.keys given ≡ Dict.keys columns) × PlainDict given)
        (read_columns row columns)
unfolding read_columns
read_columns-PlainDict row [] h = Holds-return [] (refl, tt)
read_columns-PlainDict row ((field, c) ∷ columns) h = Holds-bind (read_column row c) _ λ v read.
    Holds-bind (read_columns row columns) _ λ rest others.
      let (same, plain) = (read_columns-PlainDict row columns h).at rest others in
      Holds-return ((field, v) ∷ rest)
        (ap (λ names. field ∷ names) same, ((read_column-IsPlain row c h).at v read, plain))

-- The fields of a model instance: those of the class in their order, each with data that its
-- annotation keeps.
pub record IsInstance (depth : ℕ) (c : ModelClass) (v : Datum) : Type 0 where
  pub fields : Attributes
  pub made : v ≡ instance_of c.name fields
  pub typed : TypedFields (Kept (simple depth)) c.hints fields

init-IsInstance :
    (depth : ℕ) (classes : Classes) (c : ModelClass) (columns : Dict String Column) (row : Row)
    (given : Dict String Datum)
    → Fits depth c columns
    → PlainDict given
    → Holds (IsInstance depth c) (init (restore depth classes) c given)
init-IsInstance depth classes c columns row given fits plain = record {
  at = λ v made.
      let (fields, e, typed) =
        (init-Kept (restore depth classes) (simple depth) (restore-IsPlain depth classes) c given
            fits.simple_hints fits.plain_defaults plain).at
          v made in
      record { fields = fields; made = e; typed = typed };
}

-- Both models of a sample are instances of the package's classes.
pub record IsSample (depth : ℕ) (a : Adapter) (s : PreparedSample) : Type 0 where
  pub input_made : IsInstance depth a.input_model s.input
  pub private_made : IsInstance depth a.private_model s.private_data

module _ (repr : Datum → String) (depth : ℕ) (classes : Classes) where
  normalize_sound :
      (a : Adapter) (row : Row)
      → IsSound depth a
      → PlainDict row
      → Holds (IsSample depth a) (normalize repr (restore depth classes) a row)
  unfolding normalize
  normalize_sound a row sound h = Holds-check (check_variant a.variant row) _ λ _.
      Holds-required a.id_column (Dict.lookup a.id_column row) _ λ id _.
        Holds-bind (read_columns row a.input_columns) _ λ given read.
          Holds-bind (init (restore depth classes) a.input_model given) _ λ input built.
            Holds-bind (read_columns row a.private_columns) _ λ hidden also_read.
              Holds-bind (init (restore depth classes) a.private_model hidden) _
                λ private also_built. Holds-return _ (record {
                  input_made =
                      (init-IsInstance depth classes a.input_model a.input_columns row given
                          sound.input_fits
                          ((read_columns-PlainDict row a.input_columns h).at given read).1).at
                        input built;
                  private_made =
                      (init-IsInstance depth classes a.private_model a.private_columns row hidden
                          sound.private_fits
                          ((read_columns-PlainDict row a.private_columns h).at hidden
                            also_read).1).at
                        private also_built;
                })

-- A sample of a package is data of its classes: where the adapter turns a row of JSON data into a
-- sample, the input and the private data are instances of the package's two classes, with the fields
-- of the class in their order and no instance of another model inside.
pub normalize-IsSample :
    (repr : Datum → String) (depth : ℕ) (classes : Classes) (p : DatasetPackage) (row : Row)
    (s : PreparedSample)
    → PlainDict row
    → normalize repr (restore (suc (suc (suc depth))) classes) (adapter_for p) row ≡ ok s
    → IsSample (suc (suc (suc depth))) (adapter_for p) s
normalize-IsSample repr depth classes p row s h made =
    (normalize_sound repr (suc (suc (suc depth))) classes (adapter_for p) row
        (adapter_for-IsSound depth p) h).at
      s made

-- An instance, on the wire under the id that its class is bound to, and back.
IsInstance-round :
    (depth : ℕ) (classes : Classes) (c : ModelClass) (columns : Dict String Column)
    (schema_id : String) (v : Datum)
    → Fits depth c columns
    → schema_id ≢ ""
    → IsInstance depth c v
    → (envelope_of (some schema_id) v
        >>= model_from_envelope depth classes (record c { schema_id = some schema_id }))
      ≡ ok v
unfolding model_to_envelope
IsInstance-round depth classes c columns schema_id v fits named inst =
    subst
      (λ u.
        (envelope_of (some schema_id) u
          >>= model_from_envelope depth classes (record c { schema_id = some schema_id }))
        ≡ ok u)
      (sym inst.made)
      (envelope-Kept depth classes (record c { schema_id = some schema_id }) schema_id inst.fields
        refl named fits.once inst.typed)

-- What a package's adapter makes of a row of JSON data crosses the wire unchanged: the input, put
-- into the envelope of its class and read back, is the input of the sample, and so is the private
-- data, whichever schema ids but the empty one the classes are bound to.
pub normalize-round :
    (repr : Datum → String) (depth : ℕ) (classes : Classes) (p : DatasetPackage) (row : Row)
    (s : PreparedSample) (input_id private_id : String)
    → PlainDict row
    → normalize repr (restore (suc (suc (suc depth))) classes) (adapter_for p) row ≡ ok s
    → input_id ≢ ""
    → private_id ≢ ""
    → ((envelope_of (some input_id) s.input
          >>= model_from_envelope
              (suc (suc (suc depth)))
              classes
              (record (adapter_for p).input_model { schema_id = some input_id }))
        ≡ ok s.input)
      × ((envelope_of (some private_id) s.private_data
            >>= model_from_envelope
                (suc (suc (suc depth)))
                classes
                (record (adapter_for p).private_model { schema_id = some private_id }))
          ≡ ok s.private_data)
normalize-round repr depth classes p row s input_id private_id h made input_named private_named =
    let sample = normalize-IsSample repr depth classes p row s h made in
    let sound = adapter_for-IsSound depth p in
    (
      IsInstance-round (suc (suc (suc depth))) classes (adapter_for p).input_model
          (adapter_for p).input_columns input_id s.input sound.input_fits input_named
          sample.input_made,
      IsInstance-round (suc (suc (suc depth))) classes (adapter_for p).private_model
          (adapter_for p).private_columns private_id s.private_data sound.private_fits private_named
          sample.private_made,
    )
