-- ===== src/Rpc/Futures.antt =====
-- The futures of a peer (reference/sdk/src/uenv/sdk/rpc.py), after each change of their table.
use uenv_design.Base.{
  ℕ, suc, ◌≤◌, true, false, ◌≡◌, ◌≢◌, ◌⊎◌, inl, inr, refl, Bool-cases, List, ◌++◌, ◌==◌, contains,
}
use uenv_design.Base.{[], ◌∷◌, arith, nat_eq}
use uenv_design.Base.Dict
use uenv_design.Base.Dict.{Dict}
use uenv_design.Rpc.{RpcPeer, Future, waiting, resolved, failed}
use uenv_design.Rpc.{shut, shut_one, without_id}

-- The ids are of requests that were made.
abbrev pub Made : ℕ → Dict ℕ Future → Type 0
Made n [] = Unit
Made n ((id, f) ∷ pending) = (id ≤ n) × Made n pending

-- A future that waits is one of these.
abbrev pub Covered : List ℕ → Dict ℕ Future → Type 0
Covered ids [] = Unit
Covered ids ((id, f) ∷ pending) = ((f ≢ waiting) ⊎ (contains ids id ≡ true)) × Covered ids pending

-- The ids were made by the peer, and what waits in a closed peer has been noted by a thread in `close`.
pub record IsSound (p : RpcPeer) : Type 0 where
  pub made : Made p.count p.pending
  pub covered : (p.closed ≡ false) ⊎ Covered p.closing p.pending

pub Made-suc : (n : ℕ) (pending : Dict ℕ Future) → Made n pending → Made (suc n) pending
Made-suc n [] h = tt
Made-suc n ((id, f) ∷ pending) (h, k) = (omega (arith, h), Made-suc n pending k)

pub Made-insert :
    (n id : ℕ) (f : Future) (pending : Dict ℕ Future)
    → id ≤ n
    → Made n pending
    → Made n (Dict.insert id f pending)
Made-insert n id f [] le h = (le, tt)
Made-insert n id f ((j, g) ∷ pending) le (h, k) = ground (arith, Made-insert n id f pending le k)

pub Made-erase :
    (n id : ℕ) (pending : Dict ℕ Future) → Made n pending → Made n (Dict.erase id pending)
Made-erase n id [] h = tt
Made-erase n id ((j, g) ∷ pending) (h, k) = ground (arith, Made-erase n id pending k)

pub Made-shut_one :
    (n id : ℕ) (pending : Dict ℕ Future) → Made n pending → Made n (shut_one id pending)
Made-shut_one n id [] h = tt
Made-shut_one n id ((j, g) ∷ pending) (h, k) = ground (arith, Made-shut_one n id pending k)

pub Covered-erase :
    (ids : List ℕ) (id : ℕ) (pending : Dict ℕ Future)
    → Covered ids pending
    → Covered ids (Dict.erase id pending)
Covered-erase ids id [] h = tt
Covered-erase ids id ((j, g) ∷ pending) (h, k) = elim (Bool-cases (id == j)) [
  | inl e ↦ rw e k
  | inr e ↦ rw e (h, Covered-erase ids id pending k)
]

pub Covered-insert :
    (ids : List ℕ) (id : ℕ) (f : Future) (pending : Dict ℕ Future)
    → f ≢ waiting
    → Covered ids pending
    → Covered ids (Dict.insert id f pending)
Covered-insert ids id f [] ne h = (inl ne, tt)
Covered-insert ids id f ((j, g) ∷ pending) ne (h, k) = elim (Bool-cases (id == j)) [
  | inl e ↦ rw e (inl ne, k)
  | inr e ↦ rw e (h, Covered-insert ids id f pending ne k)
]

Covered-cons :
    (id : ℕ) (ids : List ℕ) (pending : Dict ℕ Future)
    → Covered ids pending
    → Covered (id ∷ ids) pending
Covered-cons id ids [] h = tt
Covered-cons id ids ((j, g) ∷ pending) (inl ne, k) = (inl ne, Covered-cons id ids pending k)
Covered-cons id ids ((j, g) ∷ pending) (inr there, k) =
    (inr (ground arith), Covered-cons id ids pending k)

-- All the futures of a table are noted.
pub Covered-keys :
    (ids : List ℕ) (pending : Dict ℕ Future) → Covered (Dict.keys pending ++ ids) pending
Covered-keys ids [] = tt
Covered-keys ids ((j, g) ∷ pending) = (
  inr (ground arith),
  Covered-cons j (Dict.keys pending ++ ids) pending (Covered-keys ids pending),
)

shut_waits : (f : Future) → shut f ≢ waiting
shut_waits waiting = λ h. ground arith
shut_waits (resolved v) = λ h. ground arith
shut_waits (failed code) = λ h. ground arith

contains-without_id :
    (id j : ℕ) (ids : List ℕ) → (id == j) ≡ false → contains (without_id id ids) j ≡ contains ids j
contains-without_id id j [] other = refl
contains-without_id id j (k ∷ ids) other = ground (arith, contains-without_id id j ids other)

without_id_covers :
    (id j : ℕ) (ids : List ℕ) (f : Future)
    → (id == j) ≡ false
    → (f ≢ waiting) ⊎ (contains ids j ≡ true)
    → (f ≢ waiting) ⊎ (contains (without_id id ids) j ≡ true)
without_id_covers id j ids f other (inl ne) = inl ne
without_id_covers id j ids f other (inr there) = inr (rw (contains-without_id id j ids other) there)

-- A future that has been failed need not be noted any more.
pub Covered-shut_one :
    (ids : List ℕ) (id : ℕ) (pending : Dict ℕ Future)
    → Covered ids pending
    → Covered (without_id id ids) (shut_one id pending)
Covered-shut_one ids id [] h = tt
Covered-shut_one ids id ((j, g) ∷ pending) (h, k) = elim (Bool-cases (id == j)) [
  | inl e ↦ rw e (inl (shut_waits g), Covered-shut_one ids id pending k)
  | inr e ↦ rw e (without_id_covers id j ids g e h, Covered-shut_one ids id pending k)
]
