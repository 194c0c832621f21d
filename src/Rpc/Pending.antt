-- ===== src/Rpc/Pending.antt =====
-- The futures of a peer (reference/sdk/src/uenv/sdk/rpc.py) through any sequence of steps of its threads.
use uenv_design.Base.{ℕ, suc, ◌≤◌, false, not, ◌||◌, ◌≡◌, ◌≢◌, refl}
use uenv_design.Base.{Option, none, some, List, [], ◌∷◌, arith, ltb, nat_eq, contains, sym, subst}
use uenv_design.Base.{Bool-cases, inl, inr, ◌⊎◌}
use uenv_design.Base.Dict
use uenv_design.Base.Dict.{Dict}
use uenv_design.Rpc.{RpcPeer, new_peer, Future, waiting, resolved, failed, Frame, register}
use uenv_design.Rpc.{accept, settle, answer, own, foreign, no_text, method, failure, result}
use uenv_design.Rpc.{MessageId, Body, forget, begin_close, fail_one, receive, max_frame_bytes}
use uenv_design.Rpc.Futures.{
  Made, Covered, IsSound, Made-suc, Made-insert, Made-erase, Made-shut_one, Covered-erase,
  Covered-insert, Covered-keys, Covered-shut_one,
}

-- What the threads of a peer do, in the order in which the lock lets them through. A request registers, and
-- forgets its future at its end: when it has the answer, when the time is over, or when it could not be
-- sent. The reader takes a line. Whoever closes the peer first begins, and then fails one future after
-- the other.
pub data Step : Type 0 where
  begin : Step
  leave : ℕ → Step
  line : Frame → Step
  shutdown : Step
  fail : ℕ → Step

unfoldable pub step : Step → RpcPeer → RpcPeer
step begin p = (register p).1
step (leave id) p = forget id p
step (line f) p = receive f p
step shutdown p = begin_close p
step (fail id) p = fail_one id p

unfoldable pub steps : List Step → RpcPeer → RpcPeer
steps [] p = p
steps (s ∷ ss) p = steps ss (step s p)

-- A new id stands for no other request.
Made-fresh :
    (n : ℕ) (pending : Dict ℕ Future)
    → Made n pending
    → contains (Dict.keys pending) (suc n) ≡ false
Made-fresh n [] h = refl
Made-fresh n ((j, g) ∷ pending) (h, k) = ground (arith, Made-fresh n pending k)

begin_close-IsSound : (p : RpcPeer) → IsSound p → IsSound (begin_close p)
unfolding begin_close
begin_close-IsSound p s = record { made = s.made; covered = inr (Covered-keys p.closing p.pending) }

covered-map : {A B C : Type 0} → (B → C) → A ⊎ B → A ⊎ C
covered-map f (inl a) = inl a
covered-map f (inr b) = inr (f b)

forget-IsSound : (id : ℕ) (p : RpcPeer) → IsSound p → IsSound (forget id p)
unfolding forget
forget-IsSound id p s = record {
  made = Made-erase p.count id p.pending s.made;
  covered = covered-map (Covered-erase p.closing id p.pending) s.covered;
}

fail_one-IsSound : (id : ℕ) (p : RpcPeer) → IsSound p → IsSound (fail_one id p)
unfolding fail_one
fail_one-IsSound id p s = elim (Bool-cases (contains p.closing id)) [
  | inr e ↦ rw e s
  | inl e ↦ rw e (record {
    made = Made-shut_one p.count id p.pending s.made;
    covered = covered-map (Covered-shut_one p.closing id p.pending) s.covered;
  })
]

Made-lookup :
    (n id : ℕ) (f : Future) (pending : Dict ℕ Future)
    → Made n pending
    → Dict.lookup id pending ≡ some f
    → id ≤ n
Made-lookup n id f [] h e = cc
Made-lookup n id f ((j, g) ∷ pending) (h, k) e = ground (arith, Made-lookup n id f pending k)

insert-IsSound :
    (id : ℕ) (f : Future) (p : RpcPeer)
    → IsSound p
    → f ≢ waiting
    → Dict.lookup id p.pending ≡ some waiting
    → IsSound (record p { pending = Dict.insert id f p.pending })
insert-IsSound id f p s ne e = record {
  made =
      Made-insert p.count id f p.pending (Made-lookup p.count id waiting p.pending s.made e) s.made;
  covered = covered-map (Covered-insert p.closing id f p.pending ne) s.covered;
}

Future-cases :
    (o : Option Future)
    → (o ≡ some waiting) ⊎ ((id : ℕ) (b : Body) (p : RpcPeer) → settle id b o p ≡ begin_close p)
Future-cases none = inr (λ id b p. refl)
Future-cases (some waiting) = inl refl
Future-cases (some (resolved v)) = inr (λ id b p. refl)
Future-cases (some (failed code)) = inr (λ id b p. refl)

settle-IsSound :
    (id : ℕ) (b : Body) (p : RpcPeer)
    → IsSound p
    → answer b ≢ waiting
    → IsSound (settle id b (Dict.lookup id p.pending) p)
settle-IsSound id b p s ne = elim (Future-cases (Dict.lookup id p.pending)) [
  | inl e ↦ subst (λ o. IsSound (settle id b o p)) (sym e) (insert-IsSound id (answer b) p s ne e)
  | inr other ↦ subst IsSound (sym (other id b p)) (begin_close-IsSound p s)
]

accept-IsSound : (id : MessageId) (b : Body) (p : RpcPeer) → IsSound p → IsSound (accept id b p)
accept-IsSound no_text b p s = begin_close-IsSound p s
accept-IsSound (own id) (method name params) p s = s
accept-IsSound (own id) (failure code) p s =
    settle-IsSound id (failure code) p s (λ h. ground arith)
accept-IsSound (own id) (result v) p s = settle-IsSound id (result v) p s (λ h. ground arith)
accept-IsSound (foreign id) (method name params) p s = s
accept-IsSound (foreign id) (failure code) p s = begin_close-IsSound p s
accept-IsSound (foreign id) (result v) p s = begin_close-IsSound p s

receive-IsSound : (f : Frame) (p : RpcPeer) → IsSound p → IsSound (receive f p)
unfolding receive
receive-IsSound f p s =
    elim (Bool-cases (ltb max_frame_bytes f.size || not f.complete || not f.version_ok)) [
      | inl e ↦ rw (e, receive) (begin_close-IsSound p s)
      | inr e ↦ rw (e, receive) (accept-IsSound f.id f.body p s)
    ]

-- What `register` makes of an open peer.
abbrev registered : RpcPeer → RpcPeer
registered p = record p {
  count = suc p.count;
  pending = Dict.insert (suc p.count) waiting p.pending;
}

register-cases :
    (p : RpcPeer) → ((register p).1 ≡ p) ⊎ ((p.closed ≡ false) × ((register p).1 ≡ registered p))
unfolding register
register-cases p = ground arith

register-IsSound : (p : RpcPeer) → IsSound p → IsSound (register p).1
register-IsSound p s = elim (register-cases p) [
  | inl same ↦ subst IsSound (sym same) s
  | inr (live, made) ↦ subst IsSound (sym made) (record {
    made =
        Made-insert (suc p.count) (suc p.count) waiting p.pending (omega arith)
          (Made-suc p.count p.pending s.made);
    covered = inl live;
  })
]

step-IsSound : (s : Step) (p : RpcPeer) → IsSound p → IsSound (step s p)
unfolding step
step-IsSound begin p i = register-IsSound p i
step-IsSound (leave id) p i = forget-IsSound id p i
step-IsSound (line f) p i = receive-IsSound f p i
step-IsSound shutdown p i = begin_close-IsSound p i
step-IsSound (fail id) p i = fail_one-IsSound id p i

steps-IsSound : (ss : List Step) (p : RpcPeer) → IsSound p → IsSound (steps ss p)
unfolding steps
steps-IsSound [] p i = i
steps-IsSound (s ∷ ss) p i = steps-IsSound ss (step s p) (step-IsSound s p i)

new_peer-IsSound : IsSound new_peer
new_peer-IsSound = record { made = tt; covered = inl refl }

-- In whatever order the threads of a peer come to register requests, to forget them, to take a line, to begin
-- to close it and to fail a future, the id of the next request is none that is pending, so no request ever
-- takes the future of another. And the peer is open, or each pending future that still waits is one
-- that a thread inside `close` has noted and has still to fail, so none is left to wait for an answer
-- that cannot come.
pub steps-pending :
    (ss : List Step) (p : RpcPeer)
    → steps ss new_peer ≡ p
    → (contains (Dict.keys p.pending) (suc p.count) ≡ false)
      × ((p.closed ≡ false) ⊎ Covered p.closing p.pending)
steps-pending ss p e =
    let sound = subst IsSound e (steps-IsSound ss new_peer new_peer-IsSound) in
    (Made-fresh _ _ sound.made, sound.covered)
