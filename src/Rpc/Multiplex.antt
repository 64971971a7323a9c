-- ===== src/Rpc/Multiplex.antt =====
-- `MultiplexService` of crates/ursa-rpc-server/src/service.rs: one service of the tower made of two. What a
-- service keeps, and what it does when it is polled or called, are parameters.
pub mod Contract
mod Tests
use Prim.Native.String.{String}
use Prim.Native.Char.{code}
use ursa.Prelude.{
  ℕ, List, [], ◌∷◌, Option, none, some, Bool, true, false, ◌==◌, ◌&&◌, if◌then◌else◌, Result, ok,
  ◌>>=◌,
}
use ursa.Store.{Bytes}

pub data Method : Type 0 where
  get put post other_method : Method

-- A request of HTTP: its verb, its path, its content type, if it has one, and its body.
pub record Request (B : Type 0) : Type 0 where
  pub method : Method
  pub path : String
  pub content_type : Option Bytes
  pub body : B

pub data Poll (E : Type 0) : Type 0 where
  pending : Poll E
  ready : Poll E
  failed : E → Poll E

-- The error of a service that cannot fail.
pub data Infallible : Type 0 where

-- A service of the tower: the answer of a call is what its future ends with.
pub record Service (E Req Res : Type 0) : Type 1 where
  pub State : Type 0
  pub poll_ready : State → State × Poll E
  pub call : State → Req → State × Result E Res

-- The bytes of an ASCII text.
abbrev pub codes : String → Bytes
codes String.[] = []
codes (String.◌∷◌ c s) = code c ∷ codes s

unfoldable pub starts_with : Bytes → Bytes → Bool
starts_with [] text = true
starts_with (p ∷ prefix) [] = false
starts_with (p ∷ prefix) (t ∷ text) = (p == t) && starts_with prefix text

abbrev pub json_type : Bytes
json_type = codes "application/json"

unfoldable pub is_rpc_request : {B : Type 0} → Request B → Bool
unfolding starts_with
is_rpc_request req = elim req.content_type [
  | none ↦ false
  | some content_type ↦ starts_with json_type content_type
]

module _ {E B A C Res : Type 0} (a : Service E (Request B) A) (b : Service E (Request B) C)
    (into_response : A → Res) (rpc_response : C → Res) where
  -- The RPC service is polled once HTTP is ready.
  unfoldable pub poll_rpc : a.State → b.State × Poll E → (a.State × b.State) × Poll E
  poll_rpc http (rpc, ready) = ((http, rpc), ready)
  poll_rpc http (rpc, failed e) = ((http, rpc), failed e)
  poll_rpc http (rpc, pending) = ((http, rpc), pending)

  unfoldable pub poll_http : b.State → a.State × Poll E → (a.State × b.State) × Poll E
  unfolding poll_rpc
  poll_http rpc (http, ready) = poll_rpc http (b.poll_ready rpc)
  poll_http rpc (http, failed e) = ((http, rpc), failed e)
  poll_http rpc (http, pending) = ((http, rpc), pending)

  unfoldable pub poll_both : a.State × b.State → (a.State × b.State) × Poll E
  unfolding poll_http
  poll_both (http, rpc) = poll_http rpc (a.poll_ready http)

  unfoldable pub call_one : a.State × b.State → Request B → (a.State × b.State) × Result E Res
  unfolding is_rpc_request
  call_one (http, rpc) req =
      if is_rpc_request req
      then (let (rpc', res) = b.call rpc req in ((http, rpc'), res >>= λ r. ok (rpc_response r)))
      else (let (http', res) = a.call http req in ((http', rpc), res >>= λ r. ok (into_response r)))

  abbrev pub multiplex : Service E (Request B) Res
  multiplex = record { State = a.State × b.State; poll_ready = poll_both; call = call_one }
