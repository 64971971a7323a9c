-- ===== src/Rpc/Api/Tests.antt =====
-- A client that asks for a block which the network has and puts a CAR of one block, and the theorems at these.
use ursa.Prelude.{
  elem, ℕ, ◌+◌, ◌≡◌, ◌≢◌, refl, List, [], ◌∷◌, ◌++◌, some, none, true, false, Result, ok, err,
  arith,
}
use ursa.Store.{contains, Cid, Bytes}
use ursa.Store.Tests.{table_store, plain_decoder, newest_first, readable, diamond}
use ursa.Store.Links.{Link, Reach, here, step}
use ursa.Store.Dag.Fuel.{Covers, rounds}
use ursa.Store.Dag.Outcome.{IsHealthy}
use ursa.Rpc.Api.Fetching.{Whole}
use ursa.Rpc.Api.Filed.{get_file_delivers}
use ursa.Network.Behaviour.{BitswapInfo, bitswap, peers, start_publish, publish}
use ursa.Network.Service.{World, UrsaService, sync, get, get_bitswap, put, index}
use ursa.Network.Behaviour.Steps.{polls}
use ursa.Network.Service.Bitswap.{wait, reply_all}
use ursa.Network.Service.Turns.{Turn, event, command, swarm, turn, start}
use ursa.Network.Service.Tests.{
  world, service, found, missed, present, reached, seen_7, stays_7, decodes, served, address,
}
use ursa.Store.Dag.{dag_traversal}
use ursa.Network.Service.Publish.{
  chunks, handle_start_publish, begin_ad, fill_ad, add_chunks, entries_of,
}
use ursa.Index.Advertisement.{Ipld, sign}
use ursa.Index.Provider.{Object, add_chunk}
use ursa.Index.Provider.Tests.{shelf, shelf-IsKept}
use ursa.Index.Provider.Crawl.{crawl}
use ursa.Index.Provider.Encoding.{read_object}
use ursa.Index.SignedHead.{SignedHead, head_handler}
use ursa.Index.SignedHead.Tests.{keys, keys-AreKeys, texts, texts-AreTexts}
use ursa.Rpc.Api.Announced.{Finds, put_car_crawled}
use ursa.Rpc.Api.{
  Car, Disk, get_file, ApiError, load_failed, bitswap_failed, Service, NodeNetworkInterface,
  put_car, get_cid,
}
use ursa.Rpc.Api.Delivered.{answered, get_cid_delivers, get_cid_misses}

abbrev elsewhere : BitswapInfo
elsewhere = record { cid = 8; query_id = 6; block_found = false }

-- Another client stores a block, the query of block 8 ends, and the behaviour is polled.
abbrev between : List (Turn table_store shelf)
between = command world (put 1 91) ∷ event world 5 (bitswap elsewhere) ∷ swarm (polls ∷ []) ∷ []

abbrev first : List (Turn table_store shelf)
first = command world (get_bitswap 7 get 90) ∷ between

abbrev empty_handed : NodeNetworkInterface (List (Cid × Bytes))
empty_handed = record { store = diamond; sent = [] }

abbrev after : List (Cid × Bytes)
after = (7, []) ∷ diamond

went :
    start table_store shelf service first
    ≡ some (ok (reached (start table_store shelf service first)))
unfolding start contains wait reply_all
went = refl

has_peer : peers service.behaviour ≢ []
unfolding peers
has_peer e = cc

get_cid_delivers_example :
    (s2 : UrsaService (List Object)) × (start table_store shelf service
        (first ++ event world 5 (bitswap found) ∷ [])
      ≡ some (ok s2))
    × (get_cid table_store (answered 90 after s2) empty_handed 7 90
        ≡ (record { store = after; sent = get_bitswap 7 get 90 ∷ [] }, ok (some [])))
get_cid_delivers_example =
    get_cid_delivers table_store shelf empty_handed world world 5 2 90 found present service
      (reached (start table_store shelf service first)) between after [] refl (refl, (refl, tt))
      refl has_peer (tt, (refl, (tt, tt))) went refl seen_7 stays_7 refl (omega arith) refl

abbrev load_one : List (Cid × Bytes) → Bytes → List (Cid × Bytes) × Result ApiError (List Cid)
load_one db [] = (db, err load_failed)
load_one db (c ∷ bytes) = ((c, bytes) ∷ db, ok (c ∷ []))

abbrev queued : List (Turn table_store shelf)
queued = command world (index (2 ∷ []) 92) ∷ between

abbrev unpublished : UrsaService (List Object)
unpublished = reached (start table_store shelf service queued)

abbrev published : UrsaService (List Object)
published = reached (turn table_store shelf unpublished (event world 5 (start_publish address)))

waited : start table_store shelf service queued ≡ some (ok unpublished)
unfolding start contains wait reply_all
waited = refl

went_through :
    turn table_store shelf unpublished (event world 5 (start_publish address)) ≡ some (ok published)
unfolding turn handle_start_publish begin_ad dag_traversal fill_ad add_chunks chunks entries_of
    add_chunk sign publish start reply_all contains
went_through = refl

head_given : (h : SignedHead) × (head_handler keys published.index_provider ≡ ok h)
unfolding turn handle_start_publish begin_ad dag_traversal fill_ad add_chunks chunks entries_of
    add_chunk sign publish head_handler start reply_all contains
head_given = (record { head = 5; sig = 41 ∷ 5 ∷ []; pubkey = 41 ∷ [] }, refl)

abbrev taker : Service (List (Cid × Bytes))
taker = record { is_open = true; answer = some (ok tt); store_after = diamond }

put_car_crawled_example :
    ((put_car table_store taker load_one empty_handed (2 ∷ []) 92).0.sent ≡ index (2 ∷ []) 92 ∷ [])
    × (ads : ℕ) × (enough : ℕ) × (listing : List (Ipld × List Ipld)) × (crawl shelf read_object keys
          ads enough published.index_provider
        ≡ some (published.index_provider.keypair + 1, (listing, none)))
    × Finds table_store shelf world read_object 2 listing
put_car_crawled_example =
    put_car_crawled table_store shelf world read_object shelf-IsKept decodes served keys texts
      load_one taker empty_handed (2 ∷ []) 92 2 [] ((2, []) ∷ diamond) world 5 service unpublished
      published between address head_given.0 keys-AreKeys texts-AreTexts refl refl
      (tt, (tt, (tt, tt))) waited went_through head_given.1

-- The root 7 and the block that it links to.
abbrev fetched : List (Cid × Bytes)
fetched = (7, 3 ∷ []) ∷ diamond

abbrev both : List Cid
both = 7 ∷ 3 ∷ []

both-closed :
    (c d : Cid)
    → elem c both ≡ true
    → Link (table_store.get fetched) plain_decoder c d
    → elem d both ≡ true
both-closed c d m l = ground arith

both-Covers : Covers (table_store.get fetched) plain_decoder 7 both
both-Covers = record { has_root = refl; closed = both-closed }

fetched-IsHealthy : IsHealthy (table_store.get fetched) plain_decoder
fetched-IsHealthy = record { readable = readable fetched; verified = λ c bytes e. refl }

both-Reach : {c : Cid} → Reach (table_store.get fetched) plain_decoder 7 c → elem c both ≡ true
both-Reach here = refl
both-Reach (step {c} {d} r l) = both-closed c d (both-Reach r) l

both-stored : (c : Cid) → elem c both ≡ true → table_store.get fetched c ≢ ok none
both-stored c m e = ground arith

abbrev syncs : List (Turn table_store shelf)
syncs = command world (get_bitswap 7 sync 90) ∷ between

synced :
    start table_store shelf service syncs
    ≡ some (ok (reached (start table_store shelf service syncs)))
unfolding start contains wait reply_all
synced = refl

abbrev disk : Disk
disk = record { files = []; makes_dirs = true; creates = true; writes = true }

get_file_delivers_example :
    (s2 : UrsaService (List Object)) × (car : Car) × (start table_store shelf service
        (syncs ++ event world 5 (bitswap found) ∷ [])
      ≡ some (ok s2))
    × (get_file table_store
          (answered 90 fetched s2)
          newest_first
          plain_decoder
          (rounds both)
          (λ path cid. cid)
          disk
          empty_handed
          "f"
          7
          90
        ≡ (
          record { store = fetched; sent = get_bitswap 7 sync 90 ∷ [] },
          some (ok (record disk { files = (7, car) ∷ [] })),
        ))
    × (car.header.roots ≡ 7 ∷ [])
    × Whole table_store (answered 90 fetched s2) newest_first plain_decoder fetched 7 car.blocks
get_file_delivers_example =
    get_file_delivers table_store shelf newest_first plain_decoder empty_handed world world 5 2 90
      found present service (reached (start table_store shelf service syncs)) between fetched both
      (λ path cid. cid) disk "f" refl (refl, (refl, tt)) refl has_peer (tt, (refl, (tt, tt))) synced
      refl seen_7 stays_7 refl (omega arith) both-Covers fetched-IsHealthy
      (λ c r. both-stored c (both-Reach r)) refl refl refl

-- A store that the block never reaches.
abbrev bare : World table_store
bare = record world { stores = λ look. diamond }

unseen : (look : ℕ) → contains table_store (bare.stores look) 7 ≡ ok false
unfolding contains
unseen look = refl

get_cid_misses_example :
    (s2 : UrsaService (List Object)) × (start table_store shelf service
        (first ++ event bare 5 (bitswap missed) ∷ [])
      ≡ some (ok s2))
    × (get_cid table_store (answered 90 diamond s2) empty_handed 7 90
        ≡ (record { store = diamond; sent = get_bitswap 7 get 90 ∷ [] }, err bitswap_failed))
get_cid_misses_example =
    get_cid_misses table_store shelf empty_handed world bare 5 90 missed service
      (reached (start table_store shelf service first)) between diamond refl (refl, (refl, tt)) refl
      has_peer (tt, (refl, (tt, tt))) went refl unseen
