-- ===== src/Rpc/Routes.antt =====
-- The handlers of crates/ursa-rpc-server/src/http/routes/network.rs and rpc/routes/network.rs. Parsing a
-- Cid is a parameter; an answer is its status and its body.
pub mod Answers
use mathlib.Core.Option
use Prim.Native.String.{String, ◌++◌ as append}
use text.Mathlib.Text.{◌==◌ as str_eq}
use ursa.Prelude.{
  ℕ, List, [], ◌∷◌, Option, none, some, Bool, true, false, if◌then◌else◌, Result, ok, err, panic,
  ◌>>=◌, unwrap, some_or_panic, map_err,
}
use ursa.Store.{Cid, Bytes, BlockStore, Decoder}
use ursa.Store.Dag.{Order}
use ursa.Network.Behaviour.{Sender}
use ursa.Rpc.Api.{
  ApiError, NodeNetworkInterface, Service, Car, Disk, get_cid, stream, get_file, put_car, put_file,
}

pub data Body : Type 0 where
  cids_json : List Cid → Body
  error_json : ApiError → Body
  wrong_content_type no_files_found : Body

pub data NetworkError : Type 0 where
  not_found_error internal_error : ApiError → NetworkError
  invalid_cid : NetworkError

pub data RpcError : Type 0 where
  internal : ApiError → RpcError
  invalid_params : RpcError

abbrev pub car_type : String
car_type = "application/vnd.curl.car"

-- A field of the upload: its content type, if it has one, and its bytes, if they can be read.
pub record Field : Type 0 where
  pub content_type : Option String
  pub bytes : Option Bytes

module _ (b : BlockStore) (s : Service b.Db) where
  module _ (load_car : b.Db → Bytes → b.Db × Result ApiError (List Cid)) where
    abbrev pub put_answer : Result ApiError (List Cid) → Result ApiError (ℕ × Body)
    put_answer (ok cids) = ok (200, cids_json cids)
    put_answer (err e) = ok (500, error_json e)
    put_answer panic = panic

    abbrev pub upload :
        NodeNetworkInterface b.Db
        → Sender
        → Option Bytes
        → NodeNetworkInterface b.Db × Result ApiError (ℕ × Body)
    upload i sender none = (i, panic)
    upload i sender (some reader) =
        let (i', stored) = put_car b s load_car i reader sender in (i', put_answer stored)

    unfoldable pub upload_handler :
        NodeNetworkInterface b.Db
        → Sender
        → Option Field
        → NodeNetworkInterface b.Db × Result ApiError (ℕ × Body)
    unfolding put_car
    upload_handler i sender none = (i, ok (400, no_files_found))
    upload_handler i sender (some field) = elim field.content_type [
      | none ↦ (i, panic)
      | some content_type ↦
          if str_eq content_type car_type
          then upload i sender field.bytes
          else (i, ok (400, wrong_content_type))
    ]

    -- The Cids' texts, one after the other.
    abbrev collected : (Cid → String) → List Cid → String
    collected show [] = ""
    collected show (c ∷ cs) = append (show c) (collected show cs)

    unfoldable put_file_handler :
        (Cid → String)
        → NodeNetworkInterface b.Db
        → Sender
        → Option Bytes
        → NodeNetworkInterface b.Db × Result RpcError String
    unfolding put_file
    put_file_handler show i sender file =
        let (i', stored) = put_file b s load_car i file sender in
        (i', map_err internal stored >>= λ cids. ok (collected show cids))

  -- A block that is not found is unwrapped.
  unfoldable get_cid_handler :
      (String → Option Cid)
      → NodeNetworkInterface b.Db
      → Sender
      → String
      → NodeNetworkInterface b.Db × Result RpcError Bytes
  unfolding get_cid
  get_cid_handler parse i sender text = elim (parse text) [
    | none ↦ (i, err invalid_params)
    | some cid ↦
        let (i', found) = get_cid b s i cid sender in
        (i', map_err internal found >>= λ block. some_or_panic block)
  ]

  module _ (order : Order) (ipld : Decoder) (rounds : ℕ) (parse : String → Option Cid) where
    -- The CAR, under status 200.
    unfoldable get_handler :
        NodeNetworkInterface b.Db
        → Sender
        → String
        → NodeNetworkInterface b.Db × Option (Result NetworkError Car)
    unfolding stream
    get_handler i sender text = elim (parse text) [
      | none ↦ (i, some (err invalid_cid))
      | some cid ↦
          let (i', streamed) = stream b s order ipld rounds i cid sender in
          (i', Option.map (map_err internal_error) streamed)
    ]

    unfoldable get_file_handler :
        (String → Cid → ℕ)
        → Disk
        → NodeNetworkInterface b.Db
        → Sender
        → String
        → String
        → NodeNetworkInterface b.Db × Option (Result RpcError Disk)
    unfolding get_file
    get_file_handler file_of disk i sender path text = elim (parse text) [
      | none ↦ (i, some (err invalid_params))
      | some cid ↦
          let (i', written) = get_file b s order ipld rounds file_of disk i path cid sender in
          (i', Option.map (map_err internal) written)
    ]
