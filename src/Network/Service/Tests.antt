-- ===== src/Network/Service/Tests.antt =====
-- A service with two waiting requests and a queued root, and the theorems at turns of it.
use ursa.Prelude.{
  ℕ, suc, if◌then◌else◌, Bool-cases, inl, inr, ◌+◌, ◌≡◌, refl, ap, sym, List, [], ◌∷◌, length,
  Option, none, some, Bool, true, false, leb, Result, ok, err, ◌>>=◌, >>=-eq-ok, ok-injective,
  subst, arith,
}
use ursa.Store.{Bytes, contains}
use ursa.Network.Service.Ends.{Returns, start_publish_ends}
use ursa.Store.Dag.Fuel.{rounds}
use ursa.Store.Tests.{all, diamond-closed, table_store, plain_decoder, newest_first, diamond}
use ursa.Store.Dag.{dag_traversal}
use ursa.Network.Multiaddr.{Multiaddr, ip4, tcp, p2p}
use ursa.Network.Behaviour.{BitswapInfo, bitswap, publish}
use ursa.Network.Behaviour.Tests.{idle}
use ursa.Network.Service.{
  World, UrsaService, ServiceError, encoding_failed, stored, get, get_bitswap, put,
}
use ursa.Network.Service.Bitswap.{handle_bitswap, wait, reply_all}
use ursa.Network.Service.Answers.{Answered, found_block_answers}
use ursa.Network.Service.Turns.{Turn, event, command, start}
use ursa.Network.Service.Waiting.{account, asked}
use ursa.Network.Service.Accounts.{start-account}
use ursa.Network.Service.Publish.{
  chunks, handle_start_publish, begin_ad, fill_ad, add_chunks, entries_of,
}
use ursa.Network.Service.Advertised.{Decodes}
use ursa.Index.Advertisement.{Ipld, bytes, link, sign}
use ursa.Index.Advertisement.Tests.{plain}
use ursa.Index.Provider.{Object, ProviderError, add_chunk}
use ursa.Network.Service.Crawl.{Listed, crawl-start_publish}
use ursa.Index.Provider.Crawl.{IsServed, crawl}
use ursa.Index.SignedHead.{SignedHead, head_handler}
use ursa.Index.SignedHead.Tests.{keys, keys-AreKeys, texts, texts-AreTexts}
use ursa.Index.Provider.Encoding.{write_object, read_object, read-write_object}
use ursa.Index.Provider.Tests.{shelf, shelf-IsKept, singles}

abbrev from_singles : List Ipld → Result ServiceError Bytes
from_singles [] = ok []
from_singles (bytes (x ∷ []) ∷ es) = do rest ← from_singles es; ok (x ∷ rest)
from_singles (bytes [] ∷ es) = err encoding_failed
from_singles (bytes (x ∷ y ∷ xs) ∷ es) = err encoding_failed
from_singles (link cid ∷ es) = err encoding_failed
from_singles (Ipld.other n ∷ es) = err encoding_failed

-- Block 7 comes into the store at the third look; the diamond is there.
abbrev pub world : World table_store
world = record {
  stores = λ look. if leb 2 look then (7, []) ∷ diamond else diamond;
  db = diamond;
  ipld = plain_decoder;
  order = newest_first;
  rounds = 9;
  is_connected = λ peer. true;
  choose = λ nodes. none;
  listens = λ addr. true;
  query_id = 4;
  request_id = 5;
  message_id = none;
  ad_id = λ root. root + 30;
  codecs = plain;
  multiaddr_text = λ addr. length addr ∷ [];
  hash_bytes = λ cid. cid ∷ [];
  to_vec = from_singles;
  cbor = record { encode_cid = λ cid. cid ∷ []; encode_addrs = λ addrs. ok []; encode_extra = [] };
  http_address = some (80 ∷ []);
}

abbrev pub service : UrsaService (List Object)
service = record {
  peer_id = 1;
  store = [];
  behaviour = idle;
  index_provider = record {
    head = none;
    root_cids = 1 ∷ 3 ∷ [];
    keypair = 40;
    blockstore = [];
    temp_ads = [];
  };
  response_channels = (7, 81 ∷ 82 ∷ []) ∷ (8, 83 ∷ []) ∷ [];
  event_channel = [];
  block_replies = [];
  peer_replies = [];
  index_replies = [];
  listeners = [];
  changes = [];
  http_announced = [];
}

abbrev pub found : BitswapInfo
found = record { cid = 7; query_id = 4; block_found = true }

abbrev pub missed : BitswapInfo
missed = record { cid = 7; query_id = 4; block_found = false }

abbrev pub present : ℕ → Bool
present look = leb 2 look

pub seen_7 : (look : ℕ) → contains table_store (world.stores look) 7 ≡ ok (present look)
unfolding contains
seen_7 look = elim (Bool-cases (leb 2 look)) [ inl e ↦ rw e refl | inr e ↦ rw e refl ]

pub stays_7 : (look : ℕ) → present look ≡ true → present (suc look) ≡ true
stays_7 look h = ground arith

found_block_answers_example :
    Answered table_store world service found
      ((81, stored) ∷ (82, stored) ∷ [])
      (handle_bitswap table_store world 5 service found)
found_block_answers_example =
    found_block_answers table_store world 5 service found (81 ∷ 82 ∷ []) present 2 refl refl seen_7
      stays_7 refl (omega arith)

-- A third request for block 7, and the end of its query.
abbrev turns : List (Turn table_store shelf)
turns =
    command world (get_bitswap 7 get 90)
    ∷ event world 5 (bitswap found)
    ∷ command world (put 1 91)
    ∷ []

-- The state at the end of a run that goes on, or the first one.
abbrev pub reached :
    Option (Result ServiceError (UrsaService (List Object))) → UrsaService (List Object)
reached (some (ok s)) = s
reached _ = service

went :
    start table_store shelf service turns
    ≡ some (ok (reached (start table_store shelf service turns)))
unfolding start contains wait reply_all
went = refl

start-account_example :
    account 90 (reached (start table_store shelf service turns))
    ≡ account 90 service + asked table_store shelf 90 turns
start-account_example =
    start-account table_store shelf 90 service (reached (start table_store shelf service turns))
      turns (refl, (refl, tt)) went

pub decodes : Decodes table_store shelf world
decodes [] encoded h = ap (λ r. ok (singles r)) (sym (ok-injective h))
decodes (bytes (x ∷ []) ∷ es) encoded h =
    let (rest, e, f) = >>=-eq-ok (from_singles es) _ h in
    subst
      (λ r. ◌≡◌ {A = Result ProviderError (List Ipld)} (ok (singles r)) (ok (bytes (x ∷ []) ∷ es)))
      (ok-injective f) (ap (λ r. ok (bytes (x ∷ []) ∷ r)) (ok-injective (decodes es rest e)))
decodes (bytes [] ∷ es) encoded h = cc
decodes (bytes (x ∷ y ∷ xs) ∷ es) encoded h = cc
decodes (link cid ∷ es) encoded h = cc
decodes (Ipld.other n ∷ es) encoded h = cc

abbrev pub address : Multiaddr
address = ip4 9 ∷ tcp 6009 ∷ p2p 1 ∷ []

published :
    handle_start_publish table_store shelf world service address
    ≡ some (ok (reached (handle_start_publish table_store shelf world service address)))
unfolding handle_start_publish begin_ad dag_traversal fill_ad add_chunks chunks entries_of add_chunk
    sign publish
published = refl

pub served : IsServed shelf read_object
served = record { served = λ db cid x h. (write_object x, rw h refl, read-write_object x) }

head_served :
    (h : SignedHead) × (head_handler keys
        (reached (handle_start_publish table_store shelf world service address)).index_provider
      ≡ ok h)
unfolding handle_start_publish begin_ad dag_traversal fill_ad add_chunks chunks entries_of add_chunk
    sign publish head_handler
head_served = (record { head = 3; sig = 41 ∷ 3 ∷ []; pubkey = 41 ∷ [] }, refl)

crawl-start_publish_example :
    let after = reached (handle_start_publish table_store shelf world service address) in
    (fuel : ℕ) × (listing : List (Ipld × List Ipld)) × Listed table_store shelf world read_object
      (3 ∷ 1 ∷ [])
      listing
    × (crawl shelf read_object keys 2 fuel after.index_provider
        ≡ some (after.index_provider.keypair + 1, (listing, none)))
crawl-start_publish_example =
    crawl-start_publish table_store shelf world read_object shelf-IsKept decodes served keys texts
      service (reached (handle_start_publish table_store shelf world service address)) address
      head_served.0 keys-AreKeys texts-AreTexts published head_served.1

abbrev patient : World table_store
patient = record world { rounds = rounds all }

start_publish_ends_example :
    Returns table_store shelf patient all refl
      (handle_start_publish table_store shelf patient service address)
start_publish_ends_example = start_publish_ends table_store shelf patient all refl service address (
  record { has_root = refl; closed = diamond-closed },
  (record { has_root = refl; closed = diamond-closed }, tt),
)
