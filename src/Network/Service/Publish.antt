-- ===== src/Network/Service/Publish.antt =====
-- The publication of the queued roots (`BehaviourEvent::StartPublish`), the `Index` command, and the
-- announcement by gossip or by HTTP.
use Prim.Native.String.{String}
use ursa.Prelude.{
  ℕ, zero, suc, List, [], ◌∷◌, ◌++◌, Option, none, some, false, Result, ok, err, panic, ◌>>=◌,
  unwrap, map_err, take, drop, length, resume,
}
use ursa.Store.{Cid, Bytes, StoreError, BlockStore}
use ursa.Store.Dag.{dag_traversal}
use ursa.Network.Multiaddr.{Protocol, ip4, ip6, tcp, Multiaddr}
use ursa.Network.Behaviour.{Sender, publish, publish_ad, public_address}
use ursa.Network.Service.{World, UrsaService, ServiceError, store_failed}
use ursa.Index.Advertisement.{Ipld, bytes, new_ad, max_entries}
use ursa.Index.Announcement.{create_announce_msg}
use ursa.Index.Provider.{ObjectStore, Provider, ProviderError, create, add_chunk}
use ursa.Index.Provider as Index

abbrev dialable : Protocol → Multiaddr → Multiaddr
dialable (ip6 ip) rest = ip6 ip ∷ rest
dialable (ip4 ip) rest = ip4 ip ∷ rest
dialable (tcp port) rest = tcp port ∷ rest
dialable _ rest = rest

-- The part of an address that an advertisement keeps.
pub advertised_address : Multiaddr → Multiaddr
advertised_address [] = []
advertised_address (p ∷ ps) = dialable p (advertised_address ps)

-- `slice::chunks`, with fuel for the elements that are left.
unfoldable pub pieces {ℓ} : {A : Type ℓ} → ℕ → ℕ → List A → List (List A)
pieces zero n xs = []
pieces (suc fuel) n [] = []
pieces (suc fuel) n (x ∷ xs) = take n (x ∷ xs) ∷ pieces fuel n (drop n (x ∷ xs))

unfoldable pub chunks {ℓ} : {A : Type ℓ} → ℕ → List A → List (List A)
unfolding pieces
chunks n xs = pieces (length xs) n xs

abbrev indexer_topic : String
indexer_topic = "indexer/ingest/mainnet"

module _ (b : BlockStore) (o : ObjectStore) (w : World b) where
  unfoldable pub entries_of : List (Cid × Bytes) → List Ipld
  entries_of [] = []
  entries_of ((cid, _) ∷ dag) = bytes (w.hash_bytes cid) ∷ entries_of dag

  -- An outcome that is expected.
  abbrev pub expected :
      Provider o.Db × Result ProviderError (Unit {0}) → Result ServiceError (Provider o.Db)
  expected (p, ok _) = ok p
  expected (p, err _) = panic
  expected (p, panic) = panic

  unfoldable pub add_chunks :
      Provider o.Db → ℕ → List (List Ipld) → Result ServiceError (Provider o.Db)
  add_chunks p id [] = ok p
  add_chunks p id (chunk ∷ rest) = do
    entries_bytes ← w.to_vec chunk
    p' ← expected (add_chunk o p entries_bytes id)
    add_chunks p' id rest

  -- The draft of a root's advertisement, and what follows once the root's DAG is known.
  unfoldable pub begin_ad : UrsaService o.Db → Bytes → Cid → Result ServiceError (Provider o.Db × ℕ)
  unfolding new_ad create
  begin_ad s address root = do
    ad ← unwrap (new_ad w.codecs (w.codecs.cid_bytes root) s.peer_id (address ∷ []) false)
    ok (create (w.ad_id root) s.index_provider ad)

  unfoldable pub fill_ad :
      Provider o.Db → ℕ → List (Cid × Bytes) → Result ServiceError (Provider o.Db)
  unfolding Index.publish
  fill_ad p id dag = do
    filled ← add_chunks p id (chunks max_entries (entries_of dag))
    expected (Index.publish o w.codecs filled id)

  -- By gossip, or by HTTP where gossip fails.
  abbrev pub send_announcement : UrsaService o.Db → Bytes → UrsaService o.Db
  send_announcement s msg =
      let (behaviour, sent) =
        publish w.message_id s.behaviour indexer_topic
          (record { topic = indexer_topic; bytes = msg }) in
      elim sent [
        | some _ ↦ record s { behaviour = behaviour }
        | none ↦ record s { behaviour = behaviour; http_announced = s.http_announced ++ msg ∷ [] }
      ]

  -- A message that cannot be made is not announced.
  abbrev pub announce_msg :
      UrsaService o.Db → Result ProviderError Bytes → Result ServiceError (UrsaService o.Db)
  announce_msg s (ok msg) = ok (send_announcement s msg)
  announce_msg s (err _) = ok s
  announce_msg s panic = panic

  unfoldable pub announce : UrsaService o.Db → Result ServiceError (UrsaService o.Db)
  unfolding create_announce_msg
  announce s = announce_msg s (create_announce_msg w.cbor w.http_address s.index_provider)

  -- The rest of a root's turn, after its draft was made and its DAG traversed.
  unfoldable pub finish_root :
      UrsaService o.Db
      → Provider o.Db × ℕ
      → Result StoreError (List (Cid × Bytes))
      → Result ServiceError (UrsaService o.Db)
  unfolding announce
  finish_root s (p, id) traversed = do
    dag ← map_err store_failed traversed
    p' ← fill_ad p id dag
    announce (record s { index_provider = p' })

  unfoldable pub publish_root :
      UrsaService o.Db → Bytes → Cid → Option (Result ServiceError (UrsaService o.Db))
  publish_root s address root =
      resume
        (λ draft. elim (dag_traversal w.order b w.ipld w.db w.rounds root) [
          | none ↦ none
          | some traversed ↦ some (finish_root s draft traversed)
        ])
        (begin_ad s address root)

  -- While the queue, which stays locked, is not empty: its first root is popped and published. `none` also says
  -- that the fuel ran out.
  unfoldable pub publish_roots :
      ℕ → Bytes → UrsaService o.Db → Option (Result ServiceError (UrsaService o.Db))
  publish_roots zero address s = none
  publish_roots (suc fuel) address s = elim s.index_provider.root_cids [
    | [] ↦ some (ok s)
    | root ∷ rest ↦
        let popped = record s { index_provider = record s.index_provider { root_cids = rest } } in
        elim (publish_root popped address root) [
          | none ↦ none
          | some r ↦ resume (publish_roots fuel address) r
        ]
  ]

  -- One round more than there are queued roots.
  unfoldable pub handle_start_publish :
      UrsaService o.Db → Multiaddr → Option (Result ServiceError (UrsaService o.Db))
  unfolding advertised_address publish_roots publish_root finish_root
  handle_start_publish s public_address =
      publish_roots (suc (length s.index_provider.root_cids))
        (w.multiaddr_text (advertised_address public_address)) s

  -- The first Cid is queued, and its absence is a panic.
  unfoldable pub handle_index :
      UrsaService o.Db → List Cid → Sender → Result ServiceError (UrsaService o.Db)
  unfolding public_address publish_ad
  handle_index s [] sender = panic
  handle_index s (root ∷ cids) sender =
      let p = s.index_provider in
      ok (record s {
        index_provider = record p { root_cids = p.root_cids ++ root ∷ [] };
        behaviour = elim (public_address s.behaviour) [
          | none ↦ s.behaviour
          | some address ↦ publish_ad s.behaviour address
        ];
        index_replies = s.index_replies ++ (sender, root ∷ cids) ∷ [];
      })
