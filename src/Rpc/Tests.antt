-- ===== src/Rpc/Tests.antt =====
-- A store where the root's DAG is complete and one where it is not, and the theorems at these.
use ursa.Prelude.{
  ℕ, Option, none, ◌⊎◌, ◌≡◌, refl, List, [], ◌∷◌, some, true, elem, Result, ok, err, panic, arith,
}
use ursa.Store.{Cid, Bytes, missing_part}
use ursa.Store.Links.{Link, Reach}
use ursa.Store.Dag.{dag_traversal}
use ursa.Store.Dag.Fuel.{Covers, rounds}
use ursa.Store.Dag.Outcome.{IsHealthy}
use ursa.Store.Tests.{table_store, plain_decoder, newest_first, diamond, gap, readable}
use ursa.Network.Service.{index}
use ursa.Rpc.Api.{
  ApiError, store_error, load_failed, NodeNetworkInterface, Service, Car, get_data, stream,
}
use ursa.Rpc.Api.Fetching.{Whole, stored_root_decides, stream-Whole}
use ursa.Rpc.Client.{Body as RpcBody, JsonRpcResponse, JsonRpcError, pos, response, api_error, Wire}
use ursa.Rpc.Client.Calls.{IsWire}
use ursa.Rpc.Routes.{Field, cids_json, upload_handler}
use ursa.Rpc.Routes.Answers.{Uploaded, upload_handler-Uploaded}

abbrev service : Service (List (Cid × Bytes))
service = record { is_open = true; answer = some (ok tt); store_after = diamond }

abbrev over : List (Cid × Bytes) → NodeNetworkInterface (List (Cid × Bytes))
over db = record { store = db; sent = [] }

abbrev three : List Cid
three = 1 ∷ 2 ∷ 4 ∷ []

gap-closed :
    (c d : Cid)
    → elem c three ≡ true
    → Link (table_store.get gap) plain_decoder c d
    → elem d three ≡ true
gap-closed c d m l = ground arith

gap-Covers : Covers (table_store.get gap) plain_decoder 1 three
gap-Covers = record { has_root = refl; closed = gap-closed }

gap-IsHealthy : IsHealthy (table_store.get gap) plain_decoder
gap-IsHealthy = record { readable = readable gap; verified = λ c bytes e. refl }

stored_root_decides_example :
    ((given : Car) × (stream table_store service newest_first plain_decoder
          (rounds three)
          (over gap)
          1
          80
        ≡ (over gap, some (ok given)))
      × (given.header.roots ≡ 1 ∷ [])
      × Whole table_store service newest_first plain_decoder gap 1 given.blocks)
    ⊎ ((c : Cid) × Reach (table_store.get gap) plain_decoder 1 c
        × (table_store.get gap c ≡ ok none)
        × (get_data table_store service newest_first plain_decoder (rounds three) (over gap) 1 80
            ≡ (over gap, some (err (store_error missing_part))))
        × (stream table_store service newest_first plain_decoder (rounds three) (over gap) 1 80
            ≡ (over gap, some panic)))
stored_root_decides_example =
    stored_root_decides table_store service newest_first plain_decoder (over gap) 1 three 80 refl
      gap-Covers gap-IsHealthy

-- From an empty store, after the service has fetched the blocks.
abbrev car : Car
car = record {
  header = record { roots = 1 ∷ []; version = 1 };
  blocks = (1, 2 ∷ 3 ∷ []) ∷ (3, []) ∷ (2, 3 ∷ []) ∷ [];
}

streamed :
    (stream table_store service newest_first plain_decoder 9 (over []) 1 80).1 ≡ some (ok car)
unfolding stream dag_traversal
streamed = refl

stream-Whole_example :
    (car.header.roots ≡ 1 ∷ [])
    × Whole table_store service newest_first plain_decoder
        (stream table_store service newest_first plain_decoder 9 (over []) 1 80).0.store
        1
        car.blocks
stream-Whole_example =
    stream-Whole table_store service newest_first plain_decoder 9 (over []) 1 80 car streamed

-- A CAR of one block, whose bytes are its Cid.
abbrev load_one : List (Cid × Bytes) → Bytes → List (Cid × Bytes) × Result ApiError (List Cid)
load_one db [] = (db, err load_failed)
load_one db (c ∷ bytes) = ((c, bytes) ∷ db, ok (c ∷ []))

abbrev form : Field
form = record { content_type = some "application/vnd.curl.car"; bytes = some (7 ∷ []) }

abbrev told : NodeNetworkInterface (List (Cid × Bytes))
told = record { store = (7, []) ∷ diamond; sent = index (7 ∷ []) 81 ∷ [] }

accepted :
    upload_handler table_store service load_one (over diamond) 81 (some form)
    ≡ (told, ok (200, cids_json (7 ∷ [])))
unfolding upload_handler
accepted = refl

upload_handler-Uploaded_example :
    Uploaded table_store service load_one (over diamond) 81 (some form) told (cids_json (7 ∷ []))
upload_handler-Uploaded_example =
    upload_handler-Uploaded table_store service load_one (over diamond) told 81 (some form)
      (cids_json (7 ∷ [])) accepted

abbrev read_response : RpcBody ℕ → Option (JsonRpcResponse ℕ)
read_response (response r) = some r
read_response (api_error e) = none

-- Answers travel as they are.
abbrev wire : Wire ℕ
wire = record {
  Text = RpcBody ℕ;
  to_text = λ body. body;
  from_text = read_response;
  params_serialize = true;
  request_serializes = true;
}

wire-IsWire : IsWire wire
wire-IsWire = record { reads = λ r. refl; params = refl; request = refl }

abbrev not_there : JsonRpcError
not_there = record { code = pos 404; message = "no such block" }
