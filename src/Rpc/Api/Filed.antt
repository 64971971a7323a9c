-- ===== src/Rpc/Api/Filed.antt =====
-- A client's request for a file whose root the node does not have, from `get_file` through the network's loop to
-- the disk.
use Prim.Native.String.{String}
use ursa.Prelude.{
  ℕ, ◌+◌, ◌<◌, ◌≡◌, ◌≢◌, refl, inl, inr, List, [], ◌∷◌, ◌++◌, some, none, Bool, true, false, insert,
  Unique, ok,
}
use ursa.Store.{Cid, BlockStore, Decoder}
use ursa.Store.Links.{Reach}
use ursa.Store.Dag.{Order}
use ursa.Store.Dag.Contents.{dag_traversal_exact}
use ursa.Store.Dag.Fuel.{Covers, rounds}
use ursa.Store.Dag.Outcome.{IsHealthy, dag_traversal_decides}
use ursa.Network.Behaviour.{Sender, BitswapInfo, bitswap, peers}
use ursa.Network.Service.{World, UrsaService, sync, get_bitswap}
use ursa.Network.Service.Turns.{Turn, event, command, start}
use ursa.Network.Service.Waiting.{account, asked}
use ursa.Network.Service.Remaining.{Spared}
use ursa.Network.Service.Answers.{Seen, Stays}
use ursa.Index.Provider.{ObjectStore}
use ursa.Rpc.Api.{NodeNetworkInterface, Car, Disk, get_data, stream, get_file}
use ursa.Rpc.Api.Fetching.{Whole}
use ursa.Rpc.Api.Delivered.{answered, obtain_delivers}

module _ (b : BlockStore) (o : ObjectStore) (order : Order) (ipld : Decoder) where
  -- A client asks for a file whose root its node does not have, on a disk that can be written, with a sender
  -- that neither waits nor was told before, nor is handed over again until the end of the root's query. If
  -- the node has peers, the turns until then go on and end no other query of the root, the query finds it,
  -- a look within the fuel sees it in the store and the later ones too, and after that all that the root
  -- reaches is stored, among known Cids, and readable: the loop goes on, and with its reply `get_file` has
  -- sent the command that the loop took, and has written the CAR with the root in its header and all blocks
  -- of the root's DAG, each once.
  pub get_file_delivers :
      (i : NodeNetworkInterface b.Db) (before found : World b) (fuel n : ℕ) (t : Sender)
      (info : BitswapInfo) (present : ℕ → Bool) (s s1 : UrsaService o.Db)
      (between : List (Turn b o)) (after : b.Db) (all : List Cid) (file_of : String → Cid → ℕ)
      (disk : Disk) (path : String)
      → b.has i.store info.cid ≡ ok false
      → Unique s.response_channels
      → account t s + asked b o t between ≡ 0
      → peers s.behaviour ≢ []
      → Spared b o info.cid between
      → start b o s (command before (get_bitswap info.cid sync t) ∷ between) ≡ some (ok s1)
      → info.block_found ≡ true
      → Seen b found info.cid present
      → Stays b found present
      → present n ≡ true
      → n < fuel
      → Covers (b.get after) ipld info.cid all
      → IsHealthy (b.get after) ipld
      → ((c : Cid) → Reach (b.get after) ipld info.cid c → b.get after c ≢ ok none)
      → disk.makes_dirs ≡ true
      → disk.creates ≡ true
      → disk.writes ≡ true
      → (s2 : UrsaService o.Db) × (car : Car) × (start b o s (
            (command before (get_bitswap info.cid sync t) ∷ between)
            ++ event found fuel (bitswap info) ∷ [])
          ≡ some (ok s2))
        × (get_file b (answered t after s2) order ipld (rounds all) file_of disk i path info.cid t
            ≡ (
              record { store = after; sent = i.sent ++ get_bitswap info.cid sync t ∷ [] },
              some (ok (record disk { files = insert (file_of path info.cid) car disk.files })),
            ))
        × (car.header.roots ≡ info.cid ∷ [])
        × Whole b (answered t after s2) order ipld after info.cid car.blocks
  unfolding get_file stream get_data
  get_file_delivers i before found fuel n t info present s s1 between after all file_of disk path
        absent unique fresh some_peer spared run was seen stays here h cover healthy complete dirs
        creates writes =
      let (s2, e, obtained) =
        obtain_delivers b o i sync before found fuel n t info present s s1 between after absent
          unique fresh some_peer spared run was seen stays here h in
      elim (dag_traversal_decides order b ipld after info.cid all cover healthy) [
        | inl (dag, traversed, every) ↦ (
          s2,
          record { header = record { roots = info.cid ∷ []; version = 1 }; blocks = dag },
          e,
          rw (obtained, traversed, dirs, creates, writes) refl,
          refl,
          dag_traversal_exact order b ipld after (rounds all) info.cid dag traversed,
        )
        | inr (c, reach, gone, _) ↦ absurd (complete c reach gone)
      ]
