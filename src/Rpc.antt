-- ===== src/Rpc.antt =====
-- reference/sdk/src/uenv/sdk/rpc.py: the two-way JSON-lines peer. What a method does each time that it holds
-- the lock, what the reader does with one line, and the end of one future in `close` are steps. The ids that the peer makes are
-- `python:1`, `python:2` and so on: a number stands for such a text.
pub mod Futures
pub mod Pending
use uenv_design.Base.{
  ℕ, suc, ◌*◌, String, Bool, true, false, not, ◌||◌, Option, none, some, List, [], ◌∷◌,
}
use uenv_design.Base.{ltb, nat_eq, string_eq, ◌++◌, ◌==◌, contains, if◌then◌else◌}
use uenv_design.Base.Dict
use uenv_design.Base.Dict.{Dict}
use uenv_design.Result.{Error, Result, ok, err, rpc_error, agent_error, timeout_error}
use uenv_design.Exec.{Exec, gets, modify, raise_if, ◌>>=◌, ◌>>◌}
use uenv_design.Value.{Value}

abbrev pub max_frame_bytes : ℕ
max_frame_bytes = 8 * 1024 * 1024

-- A future: `set_result` and `set_exception` want one that is waiting.
pub data Future : Type 0 where
  waiting : Future
  resolved : Value → Future
  failed : String → Future

-- `RpcPeer`: `_next`, `_pending` and `_closed`. `closing` are the requests whose futures the threads inside
-- `close` still have to look at, of those that they noted under the lock.
pub record RpcPeer : Type 0 where
  pub count : ℕ
  pub pending : Dict ℕ Future
  pub closed : Bool
  pub closing : List ℕ

abbrev pub new_peer : RpcPeer
new_peer = record { count = 0; pending = []; closed = false; closing = [] }

-- The `id` of a message: one that this peer made, another text, or no text.
pub data MessageId : Type 0 where
  own : ℕ → MessageId
  foreign : String → MessageId
  no_text : MessageId

pub data Body : Type 0 where
  method : String → Value → Body
  failure : String → Body
  result : Value → Body

-- A line that was read: its bytes, whether it ends in a newline, whether `jsonrpc` is "2.0", and the
-- message.
pub record Frame : Type 0 where
  pub size : ℕ
  pub complete : Bool
  pub version_ok : Bool
  pub id : MessageId
  pub body : Body

-- The checks of `_send` on a message of so many bytes.
unfoldable pub check_send : ℕ → Exec RpcPeer Unit
check_send size = do
  raise_if (ltb max_frame_bytes size) (rpc_error "RPC_FRAME_LIMIT")
  closed ← gets (λ p. p.closed)
  raise_if closed (rpc_error "RPC_CLOSED")

-- The first use of the lock in `request`: an id, and a future for it.
unfoldable pub register : Exec RpcPeer ℕ
register = do
  closed ← gets (λ p. p.closed)
  raise_if closed (rpc_error "RPC_CLOSED")
  modify
      (λ p. record p { count = suc p.count; pending = Dict.insert (suc p.count) waiting p.pending })
  gets (λ p. p.count)

-- The `finally` clause of `request`.
unfoldable pub forget : ℕ → RpcPeer → RpcPeer
forget id p = record p { pending = Dict.erase id p.pending }

-- `future.result(timeout)`, where `expired` says whether the time is over. `none`: it still waits.
unfoldable pub outcome : Bool → Option Future → Option (Result Value)
outcome expired (some (resolved v)) = some (ok v)
outcome expired (some (failed code)) = some (err (rpc_error code))
outcome true _ = some (err (timeout_error ""))
outcome false _ = none

-- `if not future.done(): future.set_exception(...)`
abbrev pub shut : Future → Future
shut waiting = failed "RPC_CLOSED"
shut f = f

abbrev pub shut_one : ℕ → Dict ℕ Future → Dict ℕ Future
shut_one id [] = []
shut_one id ((j, f) ∷ pending) =
    let rest = shut_one id pending in if id == j then (j, shut f) ∷ rest else (j, f) ∷ rest

-- `close` while it holds the lock: the flag is set and the futures are noted.
unfoldable pub begin_close : RpcPeer → RpcPeer
begin_close p = record p { closed = true; closing = Dict.keys p.pending ++ p.closing }

abbrev pub without_id : ℕ → List ℕ → List ℕ
without_id id [] = []
without_id id (j ∷ ids) = let rest = without_id id ids in if j == id then rest else j ∷ rest

-- One turn of the loop of `close`, for a future that was noted.
unfoldable pub fail_one : ℕ → RpcPeer → RpcPeer
fail_one id p =
    if contains p.closing id
    then record p { pending = shut_one id p.pending; closing = without_id id p.closing }
    else p

abbrev pub answer : Body → Future
answer (result v) = resolved v
answer (failure code) = failed code
answer (method name params) = waiting

-- A response for a future. A second one raises `InvalidStateError`, which ends the reader. The lookup and
-- setting the future are one step: only the reader resolves futures, and one that is forgotten in
-- between is seen by nobody.
abbrev pub settle : ℕ → Body → Option Future → RpcPeer → RpcPeer
settle id body (some waiting) p = record p { pending = Dict.insert id (answer body) p.pending }
settle id body _ p = begin_close p

-- What the reader does with a well-formed message. A call goes to the executor.
abbrev pub accept : MessageId → Body → RpcPeer → RpcPeer
accept no_text body p = begin_close p
accept id (method name params) p = p
accept (own id) body p = settle id body (Dict.lookup id p.pending) p
accept (foreign id) body p = begin_close p

-- One turn of the loop of `_read`: whatever is wrong with a line ends the reader, which begins to close the
-- peer.
unfoldable pub receive : Frame → RpcPeer → RpcPeer
receive f p = elim (ltb max_frame_bytes f.size || not f.complete || not f.version_ok) [
  | true ↦ begin_close p
  | false ↦ accept f.id f.body p
]

-- `getattr(error, "code", "COMPONENT_CALL_FAILED")`
unfoldable pub code_of : Error → String
code_of (rpc_error code) = code
code_of (agent_error code) = code
code_of _ = "COMPONENT_CALL_FAILED"

abbrev response : Result Value → Body
response (ok v) = result v
response (err e) = failure (code_of e)

abbrev call_handler : Option (Value → Result Value) → Value → Result Value
call_handler none params = err (rpc_error "RPC_METHOD_NOT_ALLOWED")
call_handler (some handler) params = handler params

-- `_dispatch`, up to sending: the handlers by method, the method and its parameters.
unfoldable pub dispatch : Dict String (Value → Result Value) → String → Value → Body
dispatch handlers name params = response (call_handler (Dict.lookup name handlers) params)
