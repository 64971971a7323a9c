-- ===== src/Rpc/Client.antt =====
-- A call over JSON-RPC: `rpc_handler` of crates/ursa-rpc-server/src/rpc/rpc.rs, and `call` of
-- crates/ursa-rpc-client/src/lib.rs. HTTP and the JSON of requests and answers are parameters.
pub mod Calls
use Prim.Native.String.{String}
use ursa.Prelude.{
  ℕ, Option, none, some, Bool, true, false, ◌==◌, if◌then◌else◌, Result, ok, err, panic, ◌>>=◌,
  some_or_panic,
}

-- The integers of an error's code, an `i64`: `negsuc n` is the number below zero by n + 1.
pub data ℤ : Type 0 where
  pos negsuc : ℕ → ℤ

pub record JsonRpcError : Type 0 where
  pub code : ℤ
  pub message : String

-- One answer of the method router: a value, or an error.
pub data JsonRpcResponse (R : Type 0) : Type 0 where
  result : R → JsonRpcResponse R
  error : JsonRpcError → JsonRpcResponse R

pub data ResponseObjects (R : Type 0) : Type 0 where
  one : JsonRpcResponse R → ResponseObjects R
  many : ResponseObjects R
  empty : ResponseObjects R

-- The body of an HTTP answer: a response object, or an error alone.
pub data Body (R : Type 0) : Type 0 where
  response : JsonRpcResponse R → Body R
  api_error : JsonRpcError → Body R

-- The server's answer to what the methods returned, with its status. Batches are a `todo!`.
unfoldable pub rpc_handler : {R E : Type 0} → ResponseObjects R → Result E (ℕ × Body R)
rpc_handler (one (result r)) = ok (200, response (result r))
rpc_handler (one (error e)) = ok (500, api_error e)
rpc_handler many = panic
rpc_handler empty = panic

pub data CallError : Type 0 where
  status_error : ℕ → CallError
  parse_error serialize_error params_error : CallError
  rpc_error : JsonRpcError → CallError

-- What the client's libraries do: whether the parameters and the request serialise, and how the text of an
-- answer parses.
pub record Wire (R : Type 0) : Type 1 where
  pub Text : Type 0
  pub to_text : Body R → Text
  pub from_text : Text → Option (JsonRpcResponse R)
  pub params_serialize : Bool
  pub request_serializes : Bool

abbrev pub outcome : {R : Type 0} → Option (JsonRpcResponse R) → Result CallError R
outcome none = err parse_error
outcome (some (result r)) = ok r
outcome (some (error e)) = err (rpc_error e)

abbrev pub received : {R : Type 0} → (w : Wire R) → ℕ × w.Text → Result CallError R
received w (code, text) =
    if code == 200 then outcome (w.from_text text) else err (status_error code)

-- `http` is the answer to the request, and `none` that the server was not reached, which is unwrapped.
unfoldable pub call : {R : Type 0} → (w : Wire R) → Option (ℕ × w.Text) → Result CallError R
call w http =
    if w.params_serialize
    then (if w.request_serializes
        then (some_or_panic http >>= λ answer. received w answer)
        else err serialize_error)
    else err params_error
