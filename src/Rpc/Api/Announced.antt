-- ===== src/Rpc/Api/Announced.antt =====
-- A CAR that a client puts, from `put_car` through the network's loop to an indexer.
use ursa.Prelude.{
  ℕ, ◌≡◌, refl, sym, ◌∙◌, subst, inl, inr, ◌⊎◌, List, [], ◌∷◌, ◌++◌, length, Option, some, true,
  ◌||◌, ◌==◌, ==_iff, elem, Bool-cases, arith, Result, ok,
}
use ursa.Store.{Cid, Bytes, BlockStore}
use ursa.Store.Dag.{dag_traversal}
use ursa.Network.Multiaddr.{Multiaddr}
use ursa.Network.Behaviour.{Sender, start_publish}
use ursa.Network.Service.{World, UrsaService, index}
use ursa.Network.Service.Publish.{entries_of}
use ursa.Network.Service.Advertised.{rev_onto, Decodes}
use ursa.Network.Service.Crawl.{Listed, crawl-start_publish}
use ursa.Network.Service.Turns.{Turn, event, command, turn, start, handle_event, handle_command}
use ursa.Network.Service.Quiet.{out}
use ursa.Network.Service.Remaining.{first_turn}
use ursa.Network.Service.Queued.{Unpublished, Grows-elem, indexed, start-Grows, handle_index_queues}
use ursa.Index.Advertisement.{Ipld, bytes}
use ursa.Index.Provider.{Object, ObjectStore}
use ursa.Index.Provider.Chains.{IsKept}
use ursa.Index.Provider.Crawl.{IsServed, crawl}
use ursa.Index.SignedHead.{SignedHead, Keys, Texts, head_handler}
use ursa.Index.SignedHead.Opened.{AreKeys, AreTexts}
use ursa.Rpc.Api.{ApiError, NodeNetworkInterface, Service, put_car}

abbrev Among : Ipld × List Ipld → List (Ipld × List Ipld) → Type 0
Among x [] = ⊥
Among x (y ∷ ys) = (x ≡ y) ⊎ Among x ys

elem-rev_onto : (a : ℕ) (xs ys : List ℕ) → elem a (rev_onto xs ys) ≡ (elem a xs || elem a ys)
elem-rev_onto a [] ys = refl
elem-rev_onto a (x ∷ xs) ys = ground (arith, elem-rev_onto a xs (x ∷ ys))

module _ (b : BlockStore) (o : ObjectStore) (w : World b) (decode : Bytes → Option Object) where
  -- The listing names the root with the multihash of each block of its DAG.
  abbrev pub Finds : Cid → List (Ipld × List Ipld) → Type 0
  Finds root listing =
      (dag : List (Cid × Bytes)) × (dag_traversal w.order b w.ipld w.db w.rounds root
        ≡ some (ok dag))
      × Among (bytes (w.codecs.cid_bytes root), entries_of b o w dag) listing

  Listed-Finds :
      (root : Cid) (roots : List Cid) (listing : List (Ipld × List Ipld))
      → Listed b o w decode roots listing
      → elem root roots ≡ true
      → Finds root listing
  Listed-Finds root [] listing l h = cc
  Listed-Finds root (r ∷ roots) [] l h = absurd l
  Listed-Finds root (r ∷ roots) ((context, entries) ∷ listing)
        (named, (dag, traversed, whole), rest) h =
      elim (Bool-cases (root == r)) [
        | inl e ↦
            let same : r ≡ root = sym ((==_iff root r).0 e) in
            subst (λ x. Finds x ((context, entries) ∷ listing)) same
              (dag, traversed, inl (rw (named, whole) refl))
        | inr e ↦
            let (found, t, among) = Listed-Finds root roots listing rest (ground (arith, e, h)) in
            (found, t, inr among)
      ]

module _ (b : BlockStore) (o : ObjectStore) (w : World b) (decode : Bytes → Option Object)
    (kept : IsKept o) (decodes : Decodes b o w) (is_served : IsServed o decode) where
  -- A client puts a CAR that loads with a first root, while the channel of commands is open. The interface
  -- sends the command that queues the root. Let the loop take it, go on with any turns until a publication
  -- starts, and let that go through and give a signed head; let the provider's store keep what it is given,
  -- serve what it holds, and read chunks back as they were encoded, and let keys and texts read back. Then
  -- an indexer that reads the provider's HTTP server is left at the head from before, and has found the
  -- root with the multihash of every block of the DAG that it has in the store at the publication.
  pub put_car_crawled :
      (k : Keys) (t : Texts) (load_car : b.Db → Bytes → b.Db × Result ApiError (List Cid))
      (service : Service b.Db) (i : NodeNetworkInterface b.Db) (reader : Bytes) (sender : Sender)
      (root : Cid) (cids : List Cid) (db : b.Db) (taken : World b) (fuel : ℕ)
      (s s1 s2 : UrsaService o.Db) (between : List (Turn b o)) (address : Multiaddr)
      (h : SignedHead)
      → AreKeys k
      → AreTexts t
      → load_car i.store reader ≡ (db, ok (root ∷ cids))
      → service.is_open ≡ true
      → Unpublished b o between
      → start b o s (command taken (index (root ∷ cids) sender) ∷ between) ≡ some (ok s1)
      → turn b o s1 (event w fuel (start_publish address)) ≡ some (ok s2)
      → head_handler k s2.index_provider ≡ ok h
      → ((put_car b service load_car i reader sender).0.sent
          ≡ i.sent ++ index (root ∷ cids) sender ∷ [])
        × (ads : ℕ) × (enough : ℕ) × (listing : List (Ipld × List Ipld)) × (crawl o decode k ads
              enough s2.index_provider
            ≡ some (k.public s2.index_provider.keypair, (listing, s.index_provider.head)))
        × Finds b o w decode root listing
  unfolding put_car turn handle_event handle_command
  put_car_crawled k t load_car service i reader sender root cids db taken fuel s s1 s2 between
        address h keys texts loaded opened off run published given =
      let (s0, first, goes) =
        first_turn b o s s1 (command taken (index (root ∷ cids) sender)) between run in
      let (queued, headed) = handle_index_queues b o taken s s0 root cids sender (out b o first) in
      let grows = start-Grows b o s0 s1 between off goes in
      let (enough, listing, listed, crawled) =
        crawl-start_publish b o w decode kept decodes is_served k t s1 s2 address h keys texts
          published given in
      (
        rw (loaded, opened) refl,
        length s1.index_provider.root_cids,
        enough,
        listing,
        rw (sym headed, sym grows.head) crawled,
        Listed-Finds b o w decode root (rev_onto s1.index_provider.root_cids []) listing listed (
            elem-rev_onto root s1.index_provider.root_cids []
            ∙ rw
                (Grows-elem root (indexed b o between) s0.index_provider s1.index_provider grows
                  queued)
                refl),
      )
