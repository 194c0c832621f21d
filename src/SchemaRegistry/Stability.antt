-- ===== src/SchemaRegistry/Stability.antt =====
-- A registered schema keeps its content.
use uenv_design.Base.{String, true, false, not, ◌==◌, ◌≡◌, refl, ap, sym, ◌∙◌, subst, some}
use uenv_design.Base.{List, [], ◌∷◌, arith, nat_eq, string_eq, Bool-cases, inl, inr, ==_refl}
use uenv_design.Base.Dict
use uenv_design.Base.Dict.{Dict, lookup-insert}
use uenv_design.Result.{Result, ok, err, Result-cases}
use uenv_design.Result.Holds.{
  Holds, Holds-return, Holds-raise, Holds-bind, Holds-check, Holds-reject,
}
use uenv_design.Value.{Value}
use uenv_design.Wire.{ArtifactRef}
use uenv_design.SchemaRegistry.{
  Bytes, bytes_eq, Codec, Registry, identifier, check_same, register, register_artifact,
}

-- What an attempt to register leaves.
abbrev pub kept : Registry → Result Registry → Registry
kept registry (ok r) = r
kept registry (err e) = registry

-- The same schema still stands there, up to the order of its keys.
pub record Keeps (codec : Codec) (id : String) (v : Value) (r : Registry) : Type 0 where
  pub content : Value
  pub found : Dict.lookup id r.extensions ≡ some content
  pub same : codec.canonical_bytes content ≡ codec.canonical_bytes v

equal : (a b : Bytes) → (a == b) ≡ true → a ≡ b
equal a b h = ground arith

equal_names : (a b : String) → (a == b) ≡ true → a ≡ b
equal_names a b h = ground arith

module _ (codec : Codec) where
  unfoldable pub register_all : List (ArtifactRef × Bytes) → Registry → Registry
  register_all [] r = r
  register_all ((reference, content) ∷ rest) r =
      register_all rest (kept r (register_artifact codec reference content r))

  check_same-Holds :
      (old schema : Value)
      → Holds
          (λ _. codec.canonical_bytes schema ≡ codec.canonical_bytes old)
          (check_same codec (some old) schema)
  unfolding check_same
  check_same-Holds old schema = Holds-bind (codec.canonical_bytes old) _ λ before was.
      Holds-bind (codec.canonical_bytes schema) _ λ now is. elim (Bool-cases (before == now)) [
        | inl e ↦ rw e (Holds-return tt (is ∙ ap ok (sym (equal before now e)) ∙ sym was))
        | inr e ↦ rw e (Holds-raise _)
      ]

  here :
      (id : String) (v schema : Value) (r : Registry)
      → check_same codec (Dict.lookup id r.extensions) schema ≡ ok tt
      → Dict.lookup id r.extensions ≡ some v
      → Keeps codec id v (record r { extensions = Dict.insert id schema r.extensions })
  here id v schema r passed known = record {
    content = schema;
    found = lookup-insert id id schema r.extensions ∙ rw (==_refl id) refl;
    same =
        (check_same-Holds v schema).at tt
          (subst (λ o. check_same codec o schema ≡ ok tt) known passed);
  }

  elsewhere :
      (id name : String) (v schema : Value) (r : Registry)
      → (id == name) ≡ false
      → Dict.lookup id r.extensions ≡ some v
      → Keeps codec id v (record r { extensions = Dict.insert name schema r.extensions })
  elsewhere id name v schema r other known = record {
    content = v;
    found = lookup-insert id name schema r.extensions ∙ rw other known;
    same = refl;
  }

  register-Keeps :
      (id : String) (v schema : Value) (r : Registry)
      → Dict.lookup id r.extensions ≡ some v
      → Holds (Keeps codec id v) (register codec schema r)
  unfolding register
  register-Keeps id v schema r known = Holds-reject (not (codec.valid_schema schema)) _ _ λ valid.
      Holds-bind (identifier r.core_id schema) _ λ name _.
        Holds-check (check_same codec (Dict.lookup name r.extensions) schema) _ λ passed.
          Holds-return _ (elim (Bool-cases (id == name)) [
            | inl e ↦
                subst
                  (λ n.
                    Keeps codec id v (record r { extensions = Dict.insert n schema r.extensions }))
                  (equal_names id name e)
                  (here id v schema r
                    (subst (λ n. check_same codec (Dict.lookup n r.extensions) schema ≡ ok tt)
                      (sym (equal_names id name e)) passed)
                    known)
            | inr e ↦ elsewhere id name v schema r e known
          ])

  register_artifact-Keeps :
      (id : String) (v : Value) (reference : ArtifactRef) (content : Bytes) (r : Registry)
      → Dict.lookup id r.extensions ≡ some v
      → Holds (Keeps codec id v) (register_artifact codec reference content r)
  unfolding register_artifact
  register_artifact-Keeps id v reference content r known =
      Holds-reject _ _ _
        λ intact. Holds-bind (codec.loads content) _ λ schema _. register-Keeps id v schema r known

  kept-Keeps :
      (id : String) (v : Value) (reference : ArtifactRef) (content : Bytes) (r : Registry)
      → Dict.lookup id r.extensions ≡ some v
      → Keeps codec id v (kept r (register_artifact codec reference content r))
  kept-Keeps id v reference content r known =
      elim (Result-cases (register_artifact codec reference content r)) [
        | inl (s, e) ↦
            subst (λ o. Keeps codec id v (kept r o)) (sym e)
              ((register_artifact-Keeps id v reference content r known).at s e)
        | inr (x, e) ↦
            subst (λ o. Keeps codec id v (kept r o)) (sym e)
              (record { content = v; found = known; same = refl })
      ]

  -- Whatever artifacts a registry is offered after a schema was registered, intact or not and under
  -- the same id or another, that id keeps a schema with the same canonical bytes.
  pub register_all-Keeps :
      (offers : List (ArtifactRef × Bytes)) (id : String) (v : Value) (r : Registry)
      → Dict.lookup id r.extensions ≡ some v
      → Keeps codec id v (register_all offers r)
  unfolding register_all
  register_all-Keeps [] id v r known = record { content = v; found = known; same = refl }
  register_all-Keeps ((reference, content) ∷ offers) id v r known =
      let k = kept-Keeps id v reference content r known in
      let l = register_all-Keeps offers id k.content _ k.found in
      record { content = l.content; found = l.found; same = l.same ∙ k.same }
