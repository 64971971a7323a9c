-- ===== src/Network/Service/Advertised.antt =====
-- What the provider holds after the queued roots were published.
use mathlib.Core.Option
use ursa.Prelude.{
  ℕ, ◌≡◌, refl, sym, ap, ◌∙◌, subst, List, [], ◌∷◌, Option, none, some, lookup, Result, ok, err,
  panic, >>=-eq-ok, ok-injective,
}
use ursa.Store.{Cid, Bytes, BlockStore}
use ursa.Store.Dag.{dag_traversal}
use ursa.Network.Service.{World, ServiceError}
use ursa.Network.Service.Publish.{chunks, entries_of, expected, add_chunks, fill_ad}
use ursa.Index.Advertisement.{Ipld, link, bytes, Advertisement, max_entries}
use ursa.Index.Provider.{ad, ObjectStore, Provider, ProviderError, add_chunk, publish}
use ursa.Index.Provider.Chains.{IsKept, Chain, add_chunk_extends}
use ursa.Index.Provider.Growth.{
  Grows, Grown, Chain-Grows, add_chunk-Grown, publish-Grown, publish-Headed,
}

abbrev pub rev_onto {ℓ} : {A : Type ℓ} → List A → List A → List A
rev_onto [] ys = ys
rev_onto (x ∷ xs) ys = rev_onto xs (x ∷ ys)

module _ (b : BlockStore) (o : ObjectStore) (w : World b) where
  -- The encoder of chunks and the decoder of the provider agree.
  abbrev pub Decodes : Type 0
  Decodes =
      (es : List Ipld) (encoded : Bytes)
      → w.to_vec es ≡ ok encoded
      → o.decode_entries encoded ≡ ok es

  -- Advertisements of the roots, the newest first, down to the old head: each linked to the one before,
  -- for the root's context, and with all blocks of the root's DAG in its chunks, the last chunk first.
  abbrev pub Advertises : o.Db → Option Cid → List Cid → Option Cid → Type 0
  Advertises db head [] old = head ≡ old
  Advertises db head (root ∷ roots) old =
      (cid : Cid) × (a : Advertisement) × (previous : Option Cid) × (dag : List (Cid × Bytes))
      × (head ≡ some cid)
      × (o.get_obj db cid ≡ some (ad a))
      × (a.previous_id ≡ Option.map link previous)
      × (a.context_id ≡ bytes (w.codecs.cid_bytes root))
      × (dag_traversal w.order b w.ipld w.db w.rounds root ≡ some (ok dag))
      × Chain o db a.entries (rev_onto (chunks max_entries (entries_of b o w dag)) [])
      × Advertises db previous roots old

  pub Advertises-Grows :
      (db db' : o.Db) (head : Option Cid) (roots : List Cid) (old : Option Cid)
      → Grows o db db'
      → Advertises db head roots old
      → Advertises db' head roots old
  Advertises-Grows db db' head [] old g h = h
  Advertises-Grows db db' head (root ∷ roots) old g
        (cid, a, previous, dag, at, found, before, context, traversed, chain, rest) =
      (
        cid,
        a,
        previous,
        dag,
        at,
        g cid (ad a) found,
        before,
        context,
        traversed,
        Chain-Grows o db db' a.entries _ g chain,
        Advertises-Grows db db' previous roots old g rest,
      )

  expected-ok :
      (r : Provider o.Db × Result ProviderError (Unit {0})) (p : Provider o.Db)
      → expected b o w r ≡ ok p
      → r ≡ (p, ok tt)
  expected-ok (q, ok tt) p h = ap (λ x. (x, ok tt)) (ok-injective h)
  expected-ok (q, err e) p h = absurd (clash h)
    where
      clash : ◌≡◌ {A = Result ServiceError (Provider o.Db)} panic (ok p) → ⊥
      clash e = cc
  expected-ok (q, panic) p h = absurd (clash h)
    where
      clash : ◌≡◌ {A = Result ServiceError (Provider o.Db)} panic (ok p) → ⊥
      clash e = cc

  -- The provider after more chunks were added to the draft `id`.
  record Filled (p : Provider o.Db) (id : ℕ) (a : Advertisement) (css : List (List Ipld))
      (p' : Provider o.Db) : Type 0 where
    entries : Option Ipld
    draft : lookup id p'.temp_ads ≡ some (record a { entries = entries })
    chain : Chain o p'.blockstore entries css
    head : p'.head ≡ p.head
    grown : Grown o p p'

  module _ (kept : IsKept o) (decodes : Decodes) where
    add_chunks-Filled :
        (chs css : List (List Ipld)) (p p' : Provider o.Db) (id : ℕ) (a : Advertisement)
        → lookup id p.temp_ads ≡ some a
        → Chain o p.blockstore a.entries css
        → add_chunks b o w p id chs ≡ ok p'
        → Filled p id a (rev_onto chs css) p'
    unfolding add_chunks
    add_chunks-Filled [] css p p' id a l chain h =
        subst (Filled p id a css) (ok-injective h) (record {
          entries = a.entries;
          draft = l;
          chain = chain;
          head = refl;
          grown = record { grows = λ d y e. e; roots = refl };
        })
    add_chunks-Filled (es ∷ chs) css p p' id a l chain h =
        let (encoded, enc, g) = >>=-eq-ok (w.to_vec es) _ h in
        let (p1, first, later) = >>=-eq-ok (expected b o w (add_chunk o p encoded id)) _ g in
        let added = expected-ok (add_chunk o p encoded id) p1 first in
        let known = decodes es encoded enc in
        let (e, l1, chain1, head1) =
          add_chunk_extends o kept p p1 encoded id es a css known l chain added in
        let grown1 = add_chunk-Grown o kept p p1 encoded id es a known l added in
        let rest =
          add_chunks-Filled chs (es ∷ css) p1 p' id (record a { entries = e }) l1 chain1 later in
        record {
          entries = rest.entries;
          draft = rest.draft;
          chain = rest.chain;
          head = rest.head ∙ head1;
          grown = record {
            grows = λ d y f. rest.grown.grows d y (grown1.grows d y f);
            roots = rest.grown.roots ∙ grown1.roots;
          };
        }

    pub fill_ad-Advertises :
        (p p' : Provider o.Db) (id : ℕ) (a : Advertisement) (root : Cid) (dag : List (Cid × Bytes))
        (roots : List Cid) (old : Option Cid)
        → lookup id p.temp_ads ≡ some a
        → a.entries ≡ none
        → a.context_id ≡ bytes (w.codecs.cid_bytes root)
        → dag_traversal w.order b w.ipld w.db w.rounds root ≡ some (ok dag)
        → Advertises p.blockstore p.head roots old
        → fill_ad b o w p id dag ≡ ok p'
        → Advertises p'.blockstore p'.head (root ∷ roots) old
          × (p'.root_cids ≡ p.root_cids)
          × Grows o p.blockstore p'.blockstore
    unfolding fill_ad
    fill_ad-Advertises p p' id a root dag roots old l empty context traversed ads h =
        let chs = chunks max_entries (entries_of b o w dag) in
        let (p1, filled, last) = >>=-eq-ok (add_chunks b o w p id chs) _ h in
        let f = add_chunks-Filled chs [] p p1 id a l empty filled in
        let done = expected-ok (publish o w.codecs p1 id) p' last in
        let made = record a { entries = f.entries } in
        let (cid, sig, at, found) = publish-Headed o kept w.codecs p1 p' id made f.draft done in
        let grown = publish-Grown o kept w.codecs p1 p' id made f.draft done in
        (
          (
            cid,
            record made { previous_id = Option.map link p1.head; signature = bytes sig },
            p1.head,
            dag,
            at,
            found,
            refl,
            context,
            traversed,
            Chain-Grows o p1.blockstore p'.blockstore f.entries _ grown.grows f.chain,
            Advertises-Grows p1.blockstore p'.blockstore p1.head roots old grown.grows (
                Advertises-Grows p.blockstore p1.blockstore p1.head roots old f.grown.grows
                  (subst (λ h. Advertises p.blockstore h roots old) (sym f.head) ads)),
          ),
          grown.roots ∙ f.grown.roots,
          λ d y e. grown.grows d y (f.grown.grows d y e),
        )
