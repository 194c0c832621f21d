-- ===== src/Tests/RegistryRuns.antt =====
-- A registry that is offered a schema twice, the second time with other content.
use uenv_design.Base.{ℕ, true, ◌≡◌, refl, some, [], ◌∷◌, string_eq, nat_eq}
use uenv_design.Base.Dict
use native.Mathlib.Decide.{ℕ_discrete}
use uenv_design.Result.{Result, ok, err, value_error}
use uenv_design.Value.{Value, obj, str, int, pos, field, end}
use uenv_design.Wire.{ArtifactRef}
use uenv_design.SchemaRegistry.{Bytes, bytes_eq, Codec, Registry, identifier, check_same, register}
use uenv_design.SchemaRegistry.Stability.{Keeps, register_all, register_all-Keeps}

abbrev schema : ℕ → Value
schema n = obj (field "$id" (str "urn:a") (field "version" (int (pos n)) end))

abbrev dumped : Value → Result Bytes
dumped (obj (field k v (field l (int (pos n)) end))) = ok (n ∷ [])
dumped v = ok []

abbrev loaded : Bytes → Result Value
loaded (n ∷ []) = ok (schema n)
loaded _ = err (value_error "json")

abbrev codec : Codec
codec = record {
  valid_schema = λ v. true;
  canonical_bytes = dumped;
  loads = loaded;
  sha256 = λ b. "d";
}

abbrev offer : ArtifactRef
offer = record { uri = "a"; digest = "sha256:d"; size_bytes = 1; media_type = "" }

abbrev registry : Registry
registry = record { core_id = "urn:core"; extensions = ("urn:a", schema 1) ∷ [] }

refused_change :
    register codec (schema 2) registry
    ≡ err (value_error "Schema ID already registered with different content")
unfolding register identifier check_same string_eq bytes_eq ℕ_discrete
refused_change = refl

accepted_again : register codec (schema 1) registry ≡ ok registry
unfolding register identifier check_same string_eq bytes_eq ℕ_discrete
accepted_again = refl

known : Dict.lookup "urn:a" registry.extensions ≡ some (schema 1)
unfolding string_eq
known = refl

register_all-Keeps_example :
    Keeps codec "urn:a"
      (schema 1)
      (register_all codec ((offer, 2 ∷ []) ∷ (offer, 1 ∷ []) ∷ []) registry)
register_all-Keeps_example =
    register_all-Keeps codec ((offer, 2 ∷ []) ∷ (offer, 1 ∷ []) ∷ []) "urn:a" (schema 1) registry
      known
