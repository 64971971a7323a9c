-- ===== src/Network/Service/Crawl.antt =====
-- What an indexer learns after the service has published the queued roots.
use ursa.Prelude.{
  ℕ, suc, ◌+◌, ◌≡◌, ◌≤◌, refl, sym, ◌∙◌, subst, List, [], ◌∷◌, ◌++◌, append-nil, append_assoc,
  length, Option, none, some, Result, ok, err, arith, Option-cases, inl, inr,
}
use ursa.Store.{Cid, Bytes, BlockStore}
use ursa.Store.Dag.{dag_traversal}
use ursa.Network.Multiaddr.{Multiaddr}
use ursa.Network.Service.{World, UrsaService}
use ursa.Network.Service.Publish.{chunks, entries_of, handle_start_publish}
use ursa.Network.Service.Chunks.{flatten, chunks_partition}
use ursa.Network.Service.Advertised.{rev_onto, Decodes, Advertises}
use ursa.Network.Service.Roots.{start_publish-Advertises}
use ursa.Index.Advertisement.{Ipld, bytes, max_entries}
use ursa.Index.Provider.{Object, ad, ObjectStore, Provider}
use ursa.Index.Provider.Chains.{IsKept}
use ursa.Index.Provider.Crawl.{
  IsServed, read_ads, joined, previous-map, fetch_lem, read_entries-Chain, crawl,
}
use ursa.Index.SignedHead.{SignedHead, HeadError, no_head_found, Keys, Texts, head_handler}
use ursa.Index.SignedHead.Opened.{AreKeys, AreTexts, head_handler_opens}

module _ (o : ObjectStore) (decode : Bytes → Option Object) where
  joined-rev_onto :
      (xss yss : List (List Ipld))
      → joined o decode (rev_onto xss yss) ≡ joined o decode yss ++ flatten xss
  joined-rev_onto [] yss = sym (append-nil (joined o decode yss))
  joined-rev_onto (xs ∷ xss) yss =
      joined-rev_onto xss (xs ∷ yss) ∙ append_assoc (joined o decode yss) xs (flatten xss)

module _ (b : BlockStore) (o : ObjectStore) (w : World b) (decode : Bytes → Option Object) where
  -- For each root its context, and the multihash of each block of its DAG.
  abbrev pub Listed : List Cid → List (Ipld × List Ipld) → Type 0
  Listed [] [] = Unit {0}
  Listed (root ∷ roots) ((context, entries) ∷ listed) =
      (context ≡ bytes (w.codecs.cid_bytes root))
      × ((dag : List (Cid × Bytes)) × (dag_traversal w.order b w.ipld w.db w.rounds root
            ≡ some (ok dag))
          × (entries ≡ entries_of b o w dag))
      × Listed roots listed
  Listed [] (_ ∷ _) = ⊥
  Listed (_ ∷ _) [] = ⊥

  -- The reading of advertisements ends with this listing once there is fuel for each chain of chunks.
  record Reading (p : Provider o.Db) (head : Option Cid) (roots : List Cid) (old : Option Cid)
      : Type 0 where
    listing : List (Ipld × List Ipld)
    listed : Listed roots listing
    needed : ℕ
    reads :
        (fuel : ℕ)
        → needed ≤ fuel
        → read_ads o decode (length roots) fuel p head ≡ some (listing, old)

  module _ (is_served : IsServed o decode) (p : Provider o.Db) where
    Advertises-Reading :
        (roots : List Cid) (head old : Option Cid)
        → Advertises b o w p.blockstore head roots old
        → Reading p head roots old
    unfolding read_ads
    Advertises-Reading [] head old h = record {
      listing = [];
      listed = tt;
      needed = 0;
      reads = λ fuel l. rw h refl;
    }
    Advertises-Reading (root ∷ roots) head old
          (cid, a, prev, dag, at, found, before, context, traversed, chain, rest) =
        let later = Advertises-Reading roots prev old rest in
        let css = rev_onto (chunks max_entries (entries_of b o w dag)) [] in
        let whole : joined o decode css ≡ entries_of b o w dag =
          joined-rev_onto o decode (chunks max_entries (entries_of b o w dag)) []
          ∙ (chunks_partition max_entries (entries_of b o w dag) (omega arith)).0 in
        record {
          listing = (a.context_id, entries_of b o w dag) ∷ later.listing;
          listed = (context, (dag, traversed, refl), later.listed);
          needed = suc (length css) + later.needed;
          reads = λ fuel l.
              rw
                (
                  at,
                  fetch_lem o decode is_served p cid (ad a) found,
                  read_entries-Chain o decode is_served p fuel a.entries css (omega arith) chain,
                  before,
                  previous-map o decode prev,
                  later.reads fuel (omega arith),
                  whole,
                )
                refl;
        }

length-rev_onto {ℓ} :
    {A : Type ℓ} (xs ys : List A) → length (rev_onto xs ys) ≡ length xs + length ys
length-rev_onto [] ys = omega arith
length-rev_onto (x ∷ xs) ys = omega (arith, length-rev_onto xs (x ∷ ys))

module _ (b : BlockStore) (o : ObjectStore) (w : World b) (decode : Bytes → Option Object)
    (kept : IsKept o) (decodes : Decodes b o w) (is_served : IsServed o decode) where
  -- Let the provider's store keep what it is given, serve what it holds, and read chunks back as they were
  -- encoded, and let keys and texts read back. After a publication that goes through and gives a signed
  -- head, an indexer that asks the provider for that head, and then for as many advertisements as roots
  -- were queued, learns the provider's key and, for each root, its context and the multihash of every block
  -- of its DAG, the last root first, and is left at the old head.
  pub crawl-start_publish :
      (k : Keys) (t : Texts) (s s' : UrsaService o.Db) (public_address : Multiaddr) (h : SignedHead)
      → AreKeys k
      → AreTexts t
      → handle_start_publish b o w s public_address ≡ some (ok s')
      → head_handler k s'.index_provider ≡ ok h
      → (fuel : ℕ) × (listing : List (Ipld × List Ipld)) × Listed b o w decode
          (rev_onto s.index_provider.root_cids [])
          listing
        × (crawl o decode k (length s.index_provider.root_cids) fuel s'.index_provider
            ≡ some (k.public s'.index_provider.keypair, (listing, s.index_provider.head)))
  unfolding crawl head_handler
  crawl-start_publish k t s s' public_address h keys texts published given =
      let p = s'.index_provider in
      let roots = rev_onto s.index_provider.root_cids [] in
      let ads = (start_publish-Advertises b o w kept decodes s s' public_address published).0 in
      let reading =
        Advertises-Reading b o w decode is_served p roots p.head s.index_provider.head ads in
      let counted : length roots ≡ length s.index_provider.root_cids =
        omega (arith, length-rev_onto s.index_provider.root_cids []) in
      let read =
        subst
          (λ n.
            read_ads o decode n reading.needed p p.head
            ≡ some (reading.listing, s.index_provider.head))
          counted (reading.reads reading.needed (omega arith)) in
      (
        reading.needed,
        reading.listing,
        reading.listed,
        elim (Option-cases p.head) [
          | inl none_yet ↦ absurd (headless none_yet)
          | inr (cid, e) ↦
              rw
                (
                  given,
                  (head_handler_opens k t p cid h keys texts e given).1,
                  subst
                      (λ q.
                        read_ads o decode (length s.index_provider.root_cids) reading.needed p q
                        ≡ some (reading.listing, s.index_provider.head))
                      e read,
                )
                refl
        ],
      )
    where
      headless : s'.index_provider.head ≡ none → ⊥
      headless e = clash (rw (e, head_handler) at given)
        where
          clash : ◌≡◌ {A = Result HeadError SignedHead} (err no_head_found) (ok h) → ⊥
          clash x = cc
