-- ===== src/Tools/Staging.antt =====
-- What `ToolHost.prepare` leaves in the host's table.
use uenv_design.Base.{
  sym, ◌||◌, String, true, false, ◌≡◌, refl, ◌∙◌, Option, none, some, List, [], ◌∷◌,
}
use uenv_design.Base.{map, ◌++◌, arith, All, All-append, contains, string_eq, Bool-cases, inl, inr}
use uenv_design.Base.Dict
use uenv_design.Base.Dict.{
  Dict, NodupKeys, insert-NodupKeys, insert_fresh, keys-append, values-append,
}
use uenv_design.Result.{Error, runtime_error, Result, ok, err, ok_inj}
use uenv_design.Result.Holds.{
  Holds, Holds-return, Holds-weaken, Holds-check, Holds-require, Holds-required, Holds-bind,
}
use uenv_design.Result.Holds.{Holds-reject}
use mathlib.Core.List.{append-nil, append_assoc, map-append}
use uenv_design.Base.{subst}
use uenv_design.Wire.{ComponentRef, Binding}
use uenv_design.Tools.{
  Checks, ToolDefinition, ToolContext, Entry, ToolHost, check_owner, stage_one, stage, keep_staged,
  prepare,
}

-- The native tool of an agent is the tool of the agent that runs, at its version.
abbrev pub OwnedBy : Option ComponentRef → Binding → Option ComponentRef → Type 0
OwnedBy agent b none = Unit
OwnedBy agent b (some owner) =
    (agent ≡ some owner)
    × (b.implementation.version ≡ owner.version)
    × (b.implementation.digest ≡ owner.digest)

-- What the host has made sure of for an entry of its table.
pub record IsStaged {W : Type 0} (c : Checks) (definitions : Dict String (ToolDefinition W))
    (contexts : Dict String ToolContext) (agent : Option ComponentRef) (e : Entry W) : Type 0 where
  pub owned : OwnedBy agent e.binding e.binding.native_agent
  pub defined : Dict.lookup e.binding.implementation.id definitions ≡ some e.definition
  pub given : Dict.lookup e.binding.name contexts ≡ some e.context
  pub valid : c.valid_config e.binding.config ≡ true
  pub checked : c.schema_ok e.definition.input_schema ≡ true
  pub configured : e.context.config ≡ e.binding.config.content

module _ {W : Type 0} (c : Checks) (definitions : Dict String (ToolDefinition W))
    (contexts : Dict String ToolContext) (agent : Option ComponentRef) where
  check_owner-OwnedBy :
      (b : Binding) (owner : Option ComponentRef)
      → check_owner agent b owner ≡ ok tt
      → OwnedBy agent b owner
  check_owner-OwnedBy b none h = tt
  check_owner-OwnedBy b (some owner) h = ground arith

  stage_one-IsStaged :
      (b : Binding)
      → Holds
          (λ e. (e.binding ≡ b) × IsStaged c definitions contexts agent e)
          (stage_one c definitions contexts agent b)
  unfolding stage_one
  stage_one-IsStaged b = Holds-check _ _ λ owned. Holds-required _ _ _ λ d defined.
      Holds-require _ _ _ λ valid. Holds-require _ _ _ λ checked. Holds-required _ _ _ λ x given.
        Holds-require _ _ _ λ configured. Holds-return _ (
          refl,
          record {
            owned = check_owner-OwnedBy b b.native_agent owned;
            defined = defined;
            given = given;
            valid = valid;
            checked = checked;
            configured = ground arith;
          },
        )

  -- Staging appends the entries of the bindings, in their order and under their names.
  abbrev pub Table : Dict String (Entry W) → List Binding → Dict String (Entry W) → Type 0
  Table staged bs table =
      NodupKeys table
      × All (IsStaged c definitions contexts agent) (Dict.values table)
      × (Dict.keys table ≡ Dict.keys staged ++ map (λ b. b.name) bs)
      × (map (λ e. e.binding) (Dict.values table) ≡ map (λ e. e.binding) (Dict.values staged) ++ bs)

  Table-cons :
      (b : Binding) (bs : List Binding) (staged : Dict String (Entry W)) (e : Entry W)
      → e.binding ≡ b
      → contains (Dict.keys staged) b.name ≡ false
      → (table : Dict String (Entry W)) → Table (Dict.insert b.name e staged) bs table
      → Table staged (b ∷ bs) table
  Table-cons b bs staged e bound fresh table (u, good, names, bindings) =
      let longer = insert_fresh b.name e staged fresh in
      (
        u,
        good,
        names ∙ rw (longer, keys-append, append_assoc),
        bindings ∙ rw (longer, values-append, map-append, append_assoc, bound),
      )

  stage-Table :
      (bs : List Binding) (staged : Dict String (Entry W))
      → NodupKeys staged
      → All (IsStaged c definitions contexts agent) (Dict.values staged)
      → Holds (Table staged bs) (stage c definitions contexts agent bs staged)
  unfolding stage
  stage-Table [] staged u a = Holds-return staged (u, a, rw append-nil, rw append-nil)
  stage-Table (b ∷ bs) staged u a = Holds-reject _ _ _ λ fresh. Holds-bind _ _ λ e made.
      let (bound, good) = (stage_one-IsStaged b).at e made in
      Holds-weaken _ (Table-cons b bs staged e bound fresh) (
        stage-Table bs (Dict.insert b.name e staged) (insert-NodupKeys b.name e staged u) (
          rw (insert_fresh b.name e staged fresh, values-append)
            (All-append _ (Dict.values staged) (e ∷ []) a (good, tt))))

-- What an accepted call of `prepare` leaves behind.
pub record IsPrepared {W : Type 0} (c : Checks) (definitions : Dict String (ToolDefinition W))
    (contexts : Dict String ToolContext) (agent : Option ComponentRef) (bs rs : List Binding)
    (h : ToolHost W) : Type 0 where
  pub returned : rs ≡ bs
  pub once : NodupKeys h.tools
  pub sound : All (IsStaged c definitions contexts agent) (Dict.values h.tools)
  pub names : Dict.keys h.tools ≡ map (λ b. b.name) bs
  pub bindings : map (λ e. e.binding) (Dict.values h.tools) ≡ bs
  pub closed :
      (again : List Binding)
      → prepare c definitions contexts agent again h
        ≡ (err (runtime_error "TOOL_HOST_ALREADY_PREPARED"), h)

module _ {W : Type 0} (c : Checks) (definitions : Dict String (ToolDefinition W))
    (contexts : Dict String ToolContext) (agent : Option ComponentRef) where
  keep_staged-IsPrepared :
      (bs : List Binding) (h : ToolHost W) (staged : Result (Dict String (Entry W)))
      → Holds (Table c definitions contexts agent [] bs) staged
      → {rs : List Binding} {h' : ToolHost W}
      → keep_staged c definitions contexts agent h staged ≡ (ok rs, h')
      → IsPrepared c definitions contexts agent bs rs h'
  unfolding prepare
  keep_staged-IsPrepared bs h (ok table) t {rs} {h'} e =
      let (u, good, names, bindings) = t.at table refl in
      subst
        (λ ((r, k) : Result (List Binding) × ToolHost W).
          (rs : List Binding) → r ≡ ok rs → IsPrepared c definitions contexts agent bs rs k)
        e
        (λ rs same. record {
          returned = sym (ok_inj _ _ same) ∙ bindings;
          once = u;
          sound = good;
          names = names;
          bindings = bindings;
          closed = λ again. refl;
        })
        rs refl
  keep_staged-IsPrepared bs h (err e) t k = absurd (ground arith)

  -- A host that `prepare` accepts lists each binding once, in the order of the call, under its name.
  -- Each entry has the definition and the context of its binding, its configuration was valid and is
  -- the context's, and a native tool is the running agent's, at its version. The call returns the
  -- bindings, and a second call is refused and changes nothing.
  pub prepare-IsPrepared :
      (bs rs : List Binding) (h h' : ToolHost W)
      → prepare c definitions contexts agent bs h ≡ (ok rs, h')
      → IsPrepared c definitions contexts agent bs rs h'
  unfolding prepare
  prepare-IsPrepared bs rs h h' e = elim (Bool-cases (h.prepared || h.frozen)) [
    | inl late ↦ absurd (ground arith)
    | inr ready ↦
        keep_staged-IsPrepared bs h (stage c definitions contexts agent bs [])
          (stage-Table c definitions contexts agent bs [] tt tt) (rw (ready, prepare) at e)
  ]

  -- A call of `prepare` that raises leaves the host as it was.
  pub prepare_refused :
      (bs : List Binding) (h h' : ToolHost W) (x : Error)
      → prepare c definitions contexts agent bs h ≡ (err x, h')
      → h' ≡ h
  unfolding prepare
  prepare_refused bs h h' x e = ground arith
