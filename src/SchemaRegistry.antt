-- ===== src/SchemaRegistry.antt =====
-- reference/sdk/src/uenv/sdk/schema_registry.py: the schemas that packages register beside the core.
pub mod Stability
pub mod Defaults
use uenv_design.Base.{
  ℕ, String, Bool, true, false, not, ◌||◌, Option, none, some, List, [], ◌∷◌, ◌==◌, ◌<>◌,
}
use uenv_design.Base.{Eq, contains, length, nat_eq, string_eq, if◌then◌else◌}
use uenv_design.Base.Dict
use uenv_design.Base.Dict.{Dict}
use uenv_design.Result.{
  Error, Result, ok, err, value_error, type_error, validation_error, raise_if, ◌>>=◌, ◌>>◌,
}
use uenv_design.Value.{Value, obj, str, Fields, field, end}
use uenv_design.Wire.{ArtifactRef}
use native.Mathlib.Decide.{ℕ_discrete}

abbrev pub Bytes : Type 0
Bytes = List ℕ

unfoldable pub Bytes-discrete : Discrete Bytes
Bytes-discrete = hlevel ℕ_discrete

instance unfoldable pub bytes_eq : Eq Bytes
unfolding Bytes-discrete
bytes_eq = record { dec = Bytes-discrete }

-- `Draft202012Validator.check_schema`, `json.dumps` as `canonical_bytes` calls it, `json.loads`, and
-- `hashlib.sha256(...).hexdigest()`.
pub record Codec : Type 0 where
  pub valid_schema : Value → Bool
  pub canonical_bytes : Value → Result Bytes
  pub loads : Bytes → Result Value
  pub sha256 : Bytes → String

-- `SchemaRegistry`: the `$id` of the core contract, and the extensions by their ids.
pub record Registry : Type 0 where
  pub core_id : String
  pub extensions : Dict String Value

abbrev pub key_of : String → Fields → Option Value
key_of key end = none
key_of key (field k v rest) = let later = key_of key rest in if k == key then some v else later

abbrev id_text : String → Option Value → Result String
id_text core_id (some (str id)) =
    if id == ""
    then err (value_error "Extension requires a unique explicit $id")
    else if id == core_id
    then err (value_error "Extension requires a unique explicit $id")
    else ok id
id_text core_id _ = err (value_error "Extension requires a unique explicit $id")

-- The `$id` of an extension.
unfoldable pub identifier : String → Value → Result String
identifier core_id (obj fields) = id_text core_id (key_of "$id" fields)
identifier core_id v = err (type_error "Schema has no keys")

module _ (codec : Codec) where
  -- Whether a schema may stand where another was registered.
  unfoldable pub check_same : Option Value → Value → Result (Unit {0})
  check_same none schema = ok tt
  check_same (some old) schema = do
    before ← codec.canonical_bytes old
    now ← codec.canonical_bytes schema
    raise_if (not (before == now))
        (value_error "Schema ID already registered with different content")

  -- `register`
  unfoldable pub register : Value → Registry → Result Registry
  register schema registry = do
    raise_if (not (codec.valid_schema schema)) (validation_error "schema")
    id ← identifier registry.core_id schema
    check_same (Dict.lookup id registry.extensions) schema
    ok (record registry { extensions = Dict.insert id schema registry.extensions })

  -- `register_artifact`
  unfoldable pub register_artifact : ArtifactRef → Bytes → Registry → Result Registry
  register_artifact reference content registry = do
    raise_if
        (not (length content == reference.size_bytes)
          || not (("sha256:" <> codec.sha256 content) == reference.digest))
        (value_error "Schema artifact integrity mismatch")
    schema ← codec.loads content
    register schema registry
