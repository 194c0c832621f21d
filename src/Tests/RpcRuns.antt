-- ===== src/Tests/RpcRuns.antt =====
-- Two requests, one of which is answered before the peer closes.
use uenv_design.Base.{true, false, ◌≡◌, ◌⊎◌, refl, List, [], ◌∷◌, none, some, contains, nat_eq}
use uenv_design.Base.{string_eq}
use uenv_design.Base.Dict
use uenv_design.Result.{ok, err, value_error, rpc_error}
use uenv_design.Value.{str, null}
use uenv_design.Rpc.{RpcPeer, new_peer, waiting, resolved, Frame, own, result, register, outcome}
use uenv_design.Rpc.{begin_close, fail_one, receive, dispatch, code_of, failure}
use uenv_design.Rpc.Pending.{Step, begin, line, shutdown, fail, step, steps, steps-pending}
use uenv_design.Rpc.Futures.{Covered}

abbrev reply : Frame
reply = record {
  size = 40;
  complete = true;
  version_ok = true;
  id = own 1;
  body = result (str "yes");
}

-- Two requests register, the first is answered, and the peer begins to close. A third comes too late.
abbrev run : List Step
run = begin ∷ begin ∷ line reply ∷ shutdown ∷ begin ∷ []

abbrev closing_peer : RpcPeer
closing_peer = record {
  count = 2;
  pending = (1, resolved (str "yes")) ∷ (2, waiting) ∷ [];
  closed = true;
  closing = 1 ∷ 2 ∷ [];
}

ran : steps run new_peer ≡ closing_peer
unfolding steps step register begin_close receive nat_eq
ran = refl

answered : outcome false (Dict.lookup 1 closing_peer.pending) ≡ some (ok (str "yes"))
unfolding outcome nat_eq
answered = refl

still_waiting : outcome false (Dict.lookup 2 closing_peer.pending) ≡ none
unfolding outcome nat_eq
still_waiting = refl

closed_request :
    outcome false (Dict.lookup 2 (steps (fail 1 ∷ fail 2 ∷ []) closing_peer).pending)
    ≡ some (err (rpc_error "RPC_CLOSED"))
unfolding outcome steps step fail_one nat_eq
closed_request = refl

hidden_message :
    dispatch (("run", λ params. err (value_error "secret")) ∷ []) "run" null
    ≡ failure "COMPONENT_CALL_FAILED"
unfolding dispatch code_of string_eq
hidden_message = refl

steps-pending_example :
    (contains (Dict.keys closing_peer.pending) 3 ≡ false)
    × ((closing_peer.closed ≡ false) ⊎ Covered closing_peer.closing closing_peer.pending)
steps-pending_example = steps-pending run closing_peer ran
