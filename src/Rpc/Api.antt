-- ===== src/Rpc/Api.antt =====
-- `NodeNetworkInterface` of crates/ursa-rpc-server/src/api.rs. The interface sends commands to the service
-- of the network and waits for its answer; meanwhile the store can change. The loader of CAR files, the
-- database and the paths of files are parameters.
pub mod Fetching
mod Tests
pub mod Delivered
pub mod Filed
pub mod Announced
use mathlib.Core.Option
use Prim.Native.String.{String}
use ursa.Prelude.{
  ℕ, List, [], ◌∷◌, ◌++◌, Option, none, some, Bool, true, false, insert, if◌then◌else◌, Result, ok,
  err, panic, ◌>>=◌, ◌>>◌, unwrap, map_err, resume, ensure, ensure_or_panic,
}
use ursa.Store.{Cid, Bytes, StoreError, BlockStore, Decoder}
use ursa.Store.Dag.{Order, dag_traversal}
use ursa.Network.Behaviour.{Sender}
use ursa.Network.Service.{BitswapType, get, sync, UrsaCommand, get_bitswap, index}

pub data ApiError : Type 0 where
  store_error : StoreError → ApiError
  channel_closed canceled bitswap_failed load_failed put_failed io_failed : ApiError

pub record NodeNetworkInterface (Db : Type 0) : Type 0 where
  pub store : Db
  pub sent : List UrsaCommand

-- What the service does with a command: if its channel is open, its answer (`none` where the sender is
-- dropped), and the store after it.
pub record Service (Db : Type 0) : Type 0 where
  pub is_open : Bool
  pub answer : Option (Result (Unit {0}) (Unit {0}))
  pub store_after : Db

pub record CarHeader : Type 0 where
  pub roots : List Cid
  pub version : ℕ

-- A CAR stream: its header, and its blocks in the order of their arrival.
pub record Car : Type 0 where
  pub header : CarHeader
  pub blocks : List (Cid × Bytes)

-- The files, and what of the disk fails.
pub record Disk : Type 0 where
  pub files : List (ℕ × Car)
  makes_dirs : Bool
  creates : Bool
  writes : Bool

abbrev awaited : Option (Result (Unit {0}) (Unit {0})) → Result ApiError (Unit {0})
awaited none = err canceled
awaited (some (ok _)) = ok tt
awaited (some (err _)) = err bitswap_failed
awaited (some panic) = err bitswap_failed

pub request :
    {Db : Type 0}
    → Service Db
    → NodeNetworkInterface Db
    → UrsaCommand
    → NodeNetworkInterface Db × Result ApiError (Unit {0})
request s i c =
    if s.is_open
    then (record { store = s.store_after; sent = i.sent ++ c ∷ [] }, awaited s.answer)
    else (i, err channel_closed)

module _ (b : BlockStore) (s : Service b.Db) where
  abbrev request_if_absent :
      NodeNetworkInterface b.Db
      → Cid
      → BitswapType
      → Sender
      → Result StoreError Bool
      → NodeNetworkInterface b.Db × Result ApiError (Unit {0})
  request_if_absent i cid kind sender (ok true) = (i, ok tt)
  request_if_absent i cid kind sender (ok false) = request s i (get_bitswap cid kind sender)
  request_if_absent i cid kind sender (err _) = (i, panic)
  request_if_absent i cid kind sender panic = (i, panic)

  -- The block is there, or it was asked for.
  pub obtain :
      NodeNetworkInterface b.Db
      → Cid
      → BitswapType
      → Sender
      → NodeNetworkInterface b.Db × Result ApiError (Unit {0})
  unfolding request
  obtain i cid kind sender = request_if_absent i cid kind sender (b.has i.store cid)

  unfoldable pub get_cid :
      NodeNetworkInterface b.Db
      → Cid
      → Sender
      → NodeNetworkInterface b.Db × Result ApiError (Option Bytes)
  unfolding obtain
  get_cid i cid sender =
      let (i', local) = obtain i cid get sender in
      (i', local >>= λ _. map_err store_error (b.get i'.store cid))

  module _ (order : Order) (ipld : Decoder) (rounds : ℕ) where
    abbrev pub traverse : b.Db → Cid → Option (Result ApiError (List (Cid × Bytes)))
    traverse db root = Option.map (map_err store_error) (dag_traversal order b ipld db rounds root)

    pub get_data :
        NodeNetworkInterface b.Db
        → Cid
        → Sender
        → NodeNetworkInterface b.Db × Option (Result ApiError (List (Cid × Bytes)))
    unfolding obtain
    get_data i root sender =
        let (i', local) = obtain i root sync sender in
        (i', resume (λ _. traverse i'.store root) local)

    -- A failure of `get_data` is unwrapped.
    unfoldable pub stream :
        NodeNetworkInterface b.Db
        → Cid
        → Sender
        → NodeNetworkInterface b.Db × Option (Result ApiError Car)
    unfolding get_data
    stream i root sender =
        let (i', fetched) = get_data i root sender in
        (
          i',
          Option.map
              (λ r. do
                dag ← unwrap r
                ok (record { header = record { roots = root ∷ []; version = 1 }; blocks = dag }))
              fetched,
        )

    unfoldable pub get_file :
        (String → Cid → ℕ)
        → Disk
        → NodeNetworkInterface b.Db
        → String
        → Cid
        → Sender
        → NodeNetworkInterface b.Db × Option (Result ApiError Disk)
    unfolding stream
    get_file file_of disk i path root sender =
        let (i', streamed) = stream i root sender in
        (
          i',
          Option.map
              (λ r. do
                car ← r
                ensure disk.makes_dirs io_failed
                ensure_or_panic disk.creates
                ensure disk.writes io_failed
                ok (record disk { files = insert (file_of path root) car disk.files }))
              streamed,
        )

  -- An answer of the service, also one that is an error, counts as success.
  abbrev pub indexed : Option (Result (Unit {0}) (Unit {0})) → List Cid → Result ApiError (List Cid)
  indexed none cids = err put_failed
  indexed (some _) cids = ok cids

  abbrev pub index_loaded :
      NodeNetworkInterface b.Db
      → Sender
      → b.Db × Result ApiError (List Cid)
      → NodeNetworkInterface b.Db × Result ApiError (List Cid)
  index_loaded i sender (db, ok cids) =
      if s.is_open
      then (record { store = db; sent = i.sent ++ index cids sender ∷ [] }, indexed s.answer cids)
      else (record i { store = db }, err channel_closed)
  index_loaded i sender (db, err e) = (record i { store = db }, err e)
  index_loaded i sender (db, panic) = (record i { store = db }, panic)

  -- The loader leaves a store behind also where it fails: the blocks that it had stored stay.
  module _ (load_car : b.Db → Bytes → b.Db × Result ApiError (List Cid)) where
    unfoldable pub put_car :
        NodeNetworkInterface b.Db
        → Bytes
        → Sender
        → NodeNetworkInterface b.Db × Result ApiError (List Cid)
    put_car i reader sender = index_loaded i sender (load_car i.store reader)

    -- `none` is a file that cannot be opened.
    unfoldable pub put_file :
        NodeNetworkInterface b.Db
        → Option Bytes
        → Sender
        → NodeNetworkInterface b.Db × Result ApiError (List Cid)
    unfolding put_car
    put_file i none sender = (i, err io_failed)
    put_file i (some reader) sender = put_car i reader sender
