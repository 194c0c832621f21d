-- ===== src/Modeling.antt =====
-- reference/sdk/src/uenv/sdk/modeling.py: the typed models of dataset authors. A class is known by its
-- name, and the classes that a package can reach are an environment. Python's limit on nested calls
-- is the fuel of `restore`: beyond it Python raises `RecursionError`, a `RuntimeError`.
pub mod Schema
pub mod RoundTrip
pub mod Plain
use uenv_design.Base.{
  ℕ, zero, suc, String, Bool, true, false, not, Option, none, some, List, [], ◌∷◌,
}
use uenv_design.Base.{◌==◌, contains, all, string_eq, option_eq, if◌then◌else◌}
use uenv_design.Base.Dict
use uenv_design.Base.Dict.{Dict}
use uenv_design.Result.{Error, Result, ok, err, value_error, type_error, runtime_error}
use uenv_design.Result.{raise_if, required, ◌>>=◌, ◌>>◌}
use uenv_design.Value.{ℤ}

-- Python values: those of JSON, and instances of models with their attributes.
mutual
  pub data Datum : Type 0 where
    null : Datum
    bool : Bool → Datum
    int : ℤ → Datum
    real : String → Datum
    str : String → Datum
    arr : Items → Datum
    obj : Attributes → Datum
    instance_of : String → Attributes → Datum

  pub data Attributes : Type 0 where
    attribute : String → Datum → Attributes → Attributes
    end : Attributes

  pub data Items : Type 0 where
    cons : Datum → Items → Items
    nil : Items

abbrev pub attributes_of : Dict String Datum → Attributes
attributes_of [] = end
attributes_of ((k, v) ∷ d) = attribute k v (attributes_of d)

abbrev pub dict_of : Attributes → Dict String Datum
dict_of end = []
dict_of (attribute k v rest) = (k, v) ∷ dict_of rest

-- `Field`, the metadata of an annotation.
pub record Field : Type 0 where
  pub description : String
  pub minimum : Option ℤ
  pub min_length : Option ℕ

-- An annotation that `get_type_hints` resolved. `external` is a subclass of `_ExternalSchema` by its
-- `__schema_ref__`, `optional a` is `a | None`, and `ambiguous` any other union; `mapping`
-- says whether the keys are `str`.
pub data Annotation : Type 0 where
  any_type text_type int_type float_type bool_type : Annotation
  literal : Items → Annotation
  list_of : Annotation → Annotation
  mapping : Bool → Annotation → Annotation
  optional : Annotation → Annotation
  ambiguous : Annotation
  external : String → Annotation
  model : String → Annotation
  annotated : Annotation → List Field → Annotation

-- A subclass of `UEnvModel`: its docstring, stripped, its hints in order, the attributes that are
-- defaults, and `__schema_id__`.
pub record ModelClass : Type 0 where
  pub name : String
  pub doc : String
  pub hints : Dict String Annotation
  pub defaults : Dict String Datum
  pub schema_id : Option String

abbrev pub Classes : Type 0
Classes = Dict String ModelClass

-- `_dump`
unfoldable mutual
  pub dump : Datum → Datum
  dump (instance_of name fields) = obj (dump_attributes fields)
  dump (arr items) = arr (dump_items items)
  dump (obj fields) = obj (dump_attributes fields)
  dump null = null
  dump (bool b) = bool b
  dump (int n) = int n
  dump (real r) = real r
  dump (str s) = str s

  pub dump_items : Items → Items
  dump_items nil = nil
  dump_items (cons v items) = cons (dump v) (dump_items items)

  pub dump_attributes : Attributes → Attributes
  dump_attributes end = end
  dump_attributes (attribute k v rest) = attribute k (dump v) (dump_attributes rest)

-- One level of `Annotated` is all there is: Python flattens it.
abbrev pub bare : Annotation → Annotation
bare (annotated a fields) = a
bare a = a

-- The value of a field: given, or the default of the class.
abbrev pub field_value : Option Datum → Option Datum → Result Datum
field_value (some v) d = ok v
field_value none (some d) = ok d
field_value none none = err (type_error "Missing field")

module _ (recur : Annotation → Datum → Result Datum) where
  abbrev pub restore_items : Annotation → Items → Result Items
  restore_items a nil = ok nil
  restore_items a (cons v items) = do x ← recur a v; xs ← restore_items a items; ok (cons x xs)

  abbrev pub restore_values : Annotation → Attributes → Result Attributes
  restore_values a end = ok end
  restore_values a (attribute k v rest) = do
    x ← recur a v
    xs ← restore_values a rest
    ok (attribute k x xs)

  -- The loop of `UEnvModel.__init__`.
  unfoldable pub fill :
      Dict String Annotation → Dict String Datum → Dict String Datum → Result (Dict String Datum)
  fill [] defaults values = ok []
  fill ((name, a) ∷ hints) defaults values = do
    v ← field_value (Dict.lookup name values) (Dict.lookup name defaults)
    x ← recur a v
    rest ← fill hints defaults values
    ok ((name, x) ∷ rest)

  -- `UEnvModel.__init__`
  unfoldable pub init : ModelClass → Dict String Datum → Result Datum
  init c values = do
    raise_if (not (all (contains (Dict.keys c.hints)) (Dict.keys values)))
        (type_error "Unknown fields")
    fields ← fill c.hints c.defaults values
    ok (instance_of c.name (attributes_of fields))

  -- `_restore` on an annotation without metadata.
  unfoldable pub restore_bare : Classes → Annotation → Datum → Result Datum
  restore_bare classes (optional a) null = ok null
  restore_bare classes (optional a) v = recur a v
  restore_bare classes (model name) (obj fields) = do
    c ← required name (Dict.lookup name classes)
    init c (dict_of fields)
  restore_bare classes (list_of a) (arr items) = do xs ← restore_items a items; ok (arr xs)
  restore_bare classes (mapping text_keys a) (obj fields) = do
    xs ← restore_values a fields
    ok (obj xs)
  restore_bare classes a v = ok v

-- `_restore`, within a number of nested calls.
unfoldable pub restore : ℕ → Classes → Annotation → Datum → Result Datum
restore zero classes a v = err (runtime_error "RecursionError")
restore (suc depth) classes a v = restore_bare (restore depth classes) classes (bare a) v

-- `bind_schema` on a class of the environment, once `issubclass` has held.
unfoldable pub bind_schema : ModelClass → String → Result ModelClass
bind_schema c schema_id =
    if c.schema_id == none
    then ok (record c { schema_id = some schema_id })
    else if c.schema_id == some schema_id
    then ok c
    else err (value_error "Model already bound to another schema")

pub record Envelope : Type 0 where
  pub schema_ref : String
  pub content : Datum

abbrev pub envelope_of : Option String → Datum → Result Envelope
envelope_of none v = err (value_error "Model is not bound to a published schema")
envelope_of (some schema_id) v =
    if schema_id == ""
    then err (value_error "Model is not bound to a published schema")
    else ok (record { schema_ref = schema_id; content = dump v })

-- `model_to_envelope` on an instance of the class.
unfoldable pub model_to_envelope : ModelClass → Attributes → Result Envelope
model_to_envelope c fields = envelope_of c.schema_id (instance_of c.name fields)

-- `model(**data)`: a mapping is wanted.
abbrev pub init_from : (Annotation → Datum → Result Datum) → ModelClass → Datum → Result Datum
init_from recur c (obj fields) = init recur c (dict_of fields)
init_from recur c v = err (type_error "argument after ** must be a mapping")

-- `model_from_envelope`
unfoldable pub model_from_envelope : ℕ → Classes → ModelClass → Envelope → Result Datum
model_from_envelope depth classes c e =
    if some e.schema_ref == c.schema_id
    then init_from (restore depth classes) c e.content
    else err (value_error "Schema does not match")
