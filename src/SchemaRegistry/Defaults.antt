-- ===== src/SchemaRegistry/Defaults.antt =====
-- `apply_defaults`: the defaults that a schema declares are filled into a copy of the input. Python's
-- limit on nested calls is the fuel of `expand`.
pub mod Extensions
pub mod Given
use uenv_design.Base.{
  ℕ, zero, suc, String, ◌<>◌, Bool, true, false, Option, none, some, List, [], ◌∷◌,
}
use uenv_design.Base.{◌==◌, string_eq, if◌then◌else◌}
use uenv_design.Base.Dict
use uenv_design.Base.Dict.{Dict}
use uenv_design.Result.{
  Error, Result, ok, err, type_error, attribute_error, runtime_error, required, ◌>>=◌, ◌>>◌,
}
use uenv_design.Value.{
  Value, null, bool, int, real, str, arr, obj, Items, nil, cons, Fields, field, end,
}
use uenv_design.SchemaRegistry.{key_of}
use uenv_design.Strings.{replace_pair, lstrip_char, partition, split_on}

-- `value[key] = v`: in the place of the key, or at the end.
unfoldable pub set_key : String → Value → Fields → Fields
set_key key v end = field key v end
set_key key v (field k x rest) =
    let later = set_key key v rest in if k == key then field k v rest else field k x later

-- `key in schema` and `schema[key]` want an object.
abbrev pub object_of : Value → Result Fields
object_of (obj fields) = ok fields
object_of v = err (type_error "argument is not a mapping")

-- `part.replace('~1', '/').replace('~0', '~')`
abbrev pub unescaped_part : String → String
unescaped_part part = replace_pair 126 48 "~" (replace_pair 126 49 "/" part)

-- `resolved = resolved[part]`, for the parts of a fragment.
unfoldable pub walk : Value → List String → Result Value
walk v [] = ok v
walk v (part ∷ parts) = do
  fields ← object_of v
  next ← required (unescaped_part part) (key_of (unescaped_part part) fields)
  walk next parts

-- `fragment.lstrip('/').split('/') if fragment else []`
abbrev pub parts_of : String → List String
parts_of fragment = if fragment == "" then [] else split_on 47 (lstrip_char 47 fragment)

-- `schema.get('properties', {})`
abbrev pub properties_of : Option Value → Result Fields
properties_of none = ok end
properties_of (some (obj fields)) = ok fields
properties_of (some v) = err (attribute_error "items")

module _ (core_id : String) (core : Value) (extensions : Dict String Value) where
  -- The document that a reference leads to.
  unfoldable pub target_of : String → Value → Result Value
  target_of uri document =
      if uri == ""
      then ok document
      else if uri == core_id
      then ok core
      else required uri (Dict.lookup uri extensions)

  module _ (recur : Value → Value → Value → Result Value) where
    -- `if '$ref' in schema`
    unfoldable pub follow : Option Value → Value → Value → Result Value
    follow none value document = ok value
    follow (some (str ref)) value document = do
      target ← target_of (partition 35 ref).0 document
      resolved ← walk target (parts_of (partition 35 ref).1)
      recur resolved value target
    follow (some v) value document = err (attribute_error "partition")

    -- A missing key with a default is set; a key that is there is expanded.
    unfoldable pub fill_key : String → Value → Fields → Value → Result Fields
    fill_key key child fields document = elim (key_of key fields) [
      | some v ↦ do x ← recur child v document; ok (set_key key x fields)
      | none ↦ object_of child >>= λ entries. elim (key_of "default" entries) [
        | none ↦ ok fields
        | some default ↦ do x ← recur child default document; ok (set_key key x fields)
      ]
    ]

    -- The loop over the properties.
    unfoldable pub fill_properties : Fields → Fields → Value → Result Fields
    fill_properties end fields document = ok fields
    fill_properties (field key child rest) fields document = do
      next ← fill_key key child fields document
      fill_properties rest next document

    unfoldable pub expand_items : Value → Items → Value → Result Items
    expand_items schema nil document = ok nil
    expand_items schema (cons v items) document = do
      x ← recur schema v document
      xs ← expand_items schema items document
      ok (cons x xs)

    -- What is done with the value once a reference has been followed.
    unfoldable pub fill_value : Fields → Value → Value → Result Value
    fill_value schema (obj fields) document = do
      properties ← properties_of (key_of "properties" schema)
      filled ← fill_properties properties fields document
      ok (obj filled)
    fill_value schema (arr items) document = elim (key_of "items" schema) [
      | none ↦ ok (arr items)
      | some child ↦ do xs ← expand_items child items document; ok (arr xs)
    ]
    fill_value schema v document = ok v

  -- `expand`
  unfoldable pub expand : ℕ → Value → Value → Value → Result Value
  expand zero schema value document = err (runtime_error "RecursionError")
  expand (suc depth) schema value document = do
    fields ← object_of schema
    followed ← follow (expand depth) (key_of "$ref" fields) value document
    fill_value (expand depth) fields followed document

  -- The schema of a name: a definition of the core, or an extension.
  unfoldable pub schema_named : String → Result (Value × Value)
  schema_named name = do
    root ← object_of core
    definitions ← required "$defs" (key_of "$defs" root)
    known ← object_of definitions
    elim (key_of name known) [
      | some schema ↦ ok (core, schema)
      | none ↦ required name (Dict.lookup name extensions) >>= λ schema. ok (schema, schema)
    ]

  -- `apply_defaults`
  unfoldable pub apply_defaults : ℕ → String → Value → Result Value
  apply_defaults depth name value = do found ← schema_named name; expand depth found.1 value found.0
