-- ===== src/Rpc/Functions.antt =====
-- The functions of crates/ursa-rpc-client/src/functions.rs with their parameters and answers
-- (crates/ursa-rpc-server/src/api.rs), and the methods that `RpcServer::new` of
-- crates/ursa-rpc-server/src/rpc/rpc.rs registers.
use Prim.Native.String.{String}
use ursa.Prelude.{List, [], ◌∷◌}
use ursa.Store.{Bytes}

-- The methods of JSON-RPC, named as the client's functions are.
pub data Function : Type 0 where
  get_block get_file put_file : Function

pub record NetworkGetParams : Type 0 where
  pub cid : String

pub record NetworkGetFileParams : Type 0 where
  pub path : String
  pub cid : String

pub record NetworkPutFileParams : Type 0 where
  pub path : String

abbrev pub Params : Function → Type 0
Params get_block = NetworkGetParams
Params get_file = NetworkGetFileParams
Params put_file = NetworkPutFileParams

abbrev pub Answer : Function → Type 0
Answer get_block = Bytes
Answer get_file = Unit {0}
Answer put_file = String

abbrev pub network_get : String
network_get = "ursa_get_cid"

abbrev pub network_get_file : String
network_get_file = "ursa_get_file"

abbrev pub network_put_file : String
network_put_file = "ursa_put_file"

-- The methods that `RpcServer::new` registers.
unfoldable pub methods : List (String × Function)
methods =
    ("ursa_get_cid", get_block) ∷ ("ursa_get_file", get_file) ∷ ("ursa_put_file", put_file) ∷ []
