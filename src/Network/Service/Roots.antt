-- ===== src/Network/Service/Roots.antt =====
-- What a turn that publishes the queued roots leaves in the provider.
use ursa.Prelude.{
  zero, suc, length, List-cases, ℕ, ◌≡◌, refl, sym, ap, ◌∙◌, subst, inl, inr, List, [], ◌∷◌, Option,
  none, some, false, lookup, Result, ok, err, panic, unwrap, map_err, Option-cases, >>=-eq-ok,
  ok-injective, resume-eq-ok, map_err-eq-ok, lookup-insert, ==_refl,
}
use ursa.Store.{Cid, Bytes, BlockStore}
use ursa.Store.Dag.{dag_traversal}
use ursa.Network.Multiaddr.{Multiaddr}
use ursa.Network.Behaviour.{publish as gossip}
use ursa.Network.Service.{World, UrsaService, ServiceError, store_failed}
use ursa.Network.Service.Publish.{
  begin_ad, fill_ad, announce_msg, send_announcement, announce, finish_root, publish_root,
  publish_roots, advertised_address, handle_start_publish,
}
use ursa.Index.Advertisement.{bytes, Advertisement, AdSigError, new_ad}
use ursa.Index.Announcement.{create_announce_msg}
use ursa.Index.Provider.{ProviderError, ObjectStore, Provider, create}
use ursa.Index.Provider.Chains.{IsKept}
use ursa.Index.Provider.Growth.{Grows}
use ursa.Network.Service.Advertised.{rev_onto, Decodes, Advertises, fill_ad-Advertises}

module _ (b : BlockStore) (o : ObjectStore) (w : World b) where
  -- The draft that a root begins with.
  pub record Begun (s : UrsaService o.Db) (root : Cid) (p : Provider o.Db) (id : ℕ) : Type 0 where
    a : Advertisement
    draft : lookup id p.temp_ads ≡ some a
    empty : a.entries ≡ none
    context : a.context_id ≡ bytes (w.codecs.cid_bytes root)
    store : p.blockstore ≡ s.index_provider.blockstore
    head : p.head ≡ s.index_provider.head
    pub roots : p.root_cids ≡ s.index_provider.root_cids

  pub begin_ad-Begun :
      (s : UrsaService o.Db) (address : Bytes) (root : Cid) (draft : Provider o.Db × ℕ)
      → begin_ad b o w s address root ≡ ok draft
      → Begun s root draft.0 draft.1
  unfolding begin_ad new_ad create
  begin_ad-Begun s address root draft h =
      let made = new_ad w.codecs (w.codecs.cid_bytes root) s.peer_id (address ∷ []) false in
      let (a, m, e) = >>=-eq-ok (unwrap made) _ h in
      let (metadata, _, same) =
        >>=-eq-ok (unwrap (w.codecs.serialize 0x0900 [])) _ (unwrap-ok made m) in
      subst (λ d. Begun s root d.0 d.1) (ok-injective e)
        (record {
          a = record a { entries = none };
          draft =
              rw
                (
                  lookup-insert (w.ad_id root) (w.ad_id root) (record a { entries = none })
                      s.index_provider.temp_ads,
                  ==_refl (w.ad_id root),
                )
                refl;
          empty = refl;
          context = sym (ap (λ x. x.context_id) (ok-injective same));
          store = refl;
          head = refl;
          roots = refl;
        })
    where
      unwrap-ok :
          (r : Result AdSigError Advertisement) {a : Advertisement}
          → ◌≡◌ {A = Result ServiceError Advertisement} (unwrap r) (ok a)
          → r ≡ ok a
      unwrap-ok (ok x) h = cc
      unwrap-ok (err e) h = cc
      unwrap-ok panic h = cc

  send_announcement-keeps :
      (s : UrsaService o.Db) (msg : Bytes)
      → (send_announcement b o w s msg).index_provider ≡ s.index_provider
  unfolding gossip
  send_announcement-keeps s msg = elim (Option-cases w.message_id) [
    | inl e ↦ rw (e, send_announcement) refl
    | inr (m, e) ↦ rw (e, send_announcement) refl
  ]

  announce_msg-keeps :
      (s s' : UrsaService o.Db) (made : Result ProviderError Bytes)
      → announce_msg b o w s made ≡ ok s'
      → s'.index_provider ≡ s.index_provider
  announce_msg-keeps s s' (ok msg) h =
      subst (λ t. t.index_provider ≡ s.index_provider) (ok-injective h)
        (send_announcement-keeps s msg)
  announce_msg-keeps s s' (err e) h =
      subst (λ t. t.index_provider ≡ s.index_provider) (ok-injective h) refl
  announce_msg-keeps s s' panic h = absurd (clash h)
    where
      clash : ◌≡◌ {A = Result ServiceError (UrsaService o.Db)} panic (ok s') → ⊥
      clash e = cc

  pub announce-keeps :
      (s s' : UrsaService o.Db) → announce b o w s ≡ ok s' → s'.index_provider ≡ s.index_provider
  unfolding announce
  announce-keeps s s' h =
      announce_msg-keeps s s' (create_announce_msg w.cbor w.http_address s.index_provider) h

  module _ (kept : IsKept o) (decodes : Decodes b o w) where
    publish_root-Advertises :
        (s s' : UrsaService o.Db) (address : Bytes) (root : Cid) (roots : List Cid)
        (old : Option Cid)
        → Advertises b o w s.index_provider.blockstore s.index_provider.head roots old
        → publish_root b o w s address root ≡ some (ok s')
        → Advertises b o w s'.index_provider.blockstore s'.index_provider.head (root ∷ roots) old
          × (s'.index_provider.root_cids ≡ s.index_provider.root_cids)
          × Grows o s.index_provider.blockstore s'.index_provider.blockstore
    unfolding publish_root finish_root
    publish_root-Advertises s s' address root roots old ads h =
        let ((p, id), begun, t) = resume-eq-ok _ (begin_ad b o w s address root) h in
        let g = begin_ad-Begun s address root (p, id) begun in
        elim (Option-cases (dag_traversal w.order b w.ipld w.db w.rounds root)) [
          | inl e ↦ absurd (clash (rw e at t))
          | inr (traversed, e) ↦
              let (dag, d, f) = >>=-eq-ok (map_err store_failed traversed) _ (inner (rw e at t)) in
              let (p', filled, a) = >>=-eq-ok (fill_ad b o w p id dag) _ f in
              let there =
                fill_ad-Advertises b o w kept decodes p p' id g.a root dag roots old g.draft g.empty
                  g.context (e ∙ ap some (map_err-eq-ok store_failed traversed d))
                  (subst (λ q. Advertises b o w q p.head roots old) (sym g.store)
                    (subst (λ q. Advertises b o w s.index_provider.blockstore q roots old)
                      (sym g.head) ads))
                  filled in
              let same = announce-keeps (record s { index_provider = p' }) s' a in
              (
                subst (λ q. Advertises b o w q.blockstore q.head (root ∷ roots) old) (sym same)
                    there.0,
                ap (λ q. q.root_cids) same ∙ (there.1 ∙ g.roots),
                subst (λ q. Grows o s.index_provider.blockstore q.blockstore) (sym same)
                    (subst (λ q. Grows o q p'.blockstore) g.store there.2),
              )
        ]
      where
        clash : ◌≡◌ {A = Option (Result ServiceError (UrsaService o.Db))} none (some (ok s')) → ⊥
        clash e = cc

        inner : {r : Result ServiceError (UrsaService o.Db)} → some r ≡ some (ok s') → r ≡ ok s'
        inner e = cc

    publish_roots-Advertises :
        (fuel : ℕ) (address : Bytes) (done : List Cid) (s s' : UrsaService o.Db) (old : Option Cid)
        → Advertises b o w s.index_provider.blockstore s.index_provider.head done old
        → publish_roots b o w fuel address s ≡ some (ok s')
        → Advertises b o w s'.index_provider.blockstore s'.index_provider.head
            (rev_onto s.index_provider.root_cids done)
            old
          × (s'.index_provider.root_cids ≡ [])
          × Grows o s.index_provider.blockstore s'.index_provider.blockstore
    unfolding publish_roots
    publish_roots-Advertises zero address done s s' old ads h = absurd (clash h)
      where
        clash : ◌≡◌ {A = Option (Result ServiceError (UrsaService o.Db))} none (some (ok s')) → ⊥
        clash e = cc
    publish_roots-Advertises (suc fuel) address done s s' old ads h =
        elim (List-cases s.index_provider.root_cids) [
          | inl q ↦
              subst
                (λ t.
                  Advertises b o w t.index_provider.blockstore t.index_provider.head
                    (rev_onto s.index_provider.root_cids done) old
                  × (t.index_provider.root_cids ≡ [])
                  × Grows o s.index_provider.blockstore t.index_provider.blockstore)
                (ok-injective (inner (rw (q, publish_roots) at h))) (rw q ads, q, λ d y e. e)
          | inr (root, rest, q) ↦
              let s0 = record s { index_provider = record s.index_provider { root_cids = rest } } in
              let g = rw (q, publish_roots) at h in
              elim (Option-cases (publish_root b o w s0 address root)) [
                | inl e ↦ absurd (clash (rw e at g))
                | inr (r, e) ↦
                    let (s1, first, later) = resume-eq-ok _ r (rw e at g) in
                    let (ads1, roots1, grows1) =
                      publish_root-Advertises s0 s1 address root done old ads (e ∙ ap some first) in
                    let (ads2, roots2, grows2) =
                      publish_roots-Advertises fuel address (root ∷ done) s1 s' old ads1 later in
                    (
                      subst
                          (λ rs.
                            Advertises b o w s'.index_provider.blockstore s'.index_provider.head
                              (rev_onto rs done) old)
                          (sym q)
                          (subst
                            (λ rs.
                              Advertises b o w s'.index_provider.blockstore s'.index_provider.head
                                (rev_onto rs (root ∷ done)) old)
                            roots1 ads2),
                      roots2,
                      λ d y e. grows2 d y (grows1 d y e),
                    )
              ]
        ]
      where
        inner : {r : Result ServiceError (UrsaService o.Db)} → some r ≡ some (ok s') → r ≡ ok s'
        inner e = cc

        clash : ◌≡◌ {A = Option (Result ServiceError (UrsaService o.Db))} none (some (ok s')) → ⊥
        clash e = cc

    pub start_publish-Grows :
        (s s' : UrsaService o.Db) (public_address : Multiaddr)
        → handle_start_publish b o w s public_address ≡ some (ok s')
        → Advertises b o w s'.index_provider.blockstore s'.index_provider.head
            (rev_onto s.index_provider.root_cids [])
            s.index_provider.head
          × (s'.index_provider.root_cids ≡ [])
          × Grows o s.index_provider.blockstore s'.index_provider.blockstore
    unfolding handle_start_publish
    start_publish-Grows s s' public_address h =
        publish_roots-Advertises (suc (length s.index_provider.root_cids))
          (w.multiaddr_text (advertised_address public_address)) [] s s' s.index_provider.head refl
          h

    -- A publication that goes through empties the queue of roots, and leaves an advertisement for each of
    -- them above the old head, in the order of the queue: linked to the one before, and with all blocks of
    -- the root's DAG in its chunks.
    pub start_publish-Advertises :
        (s s' : UrsaService o.Db) (public_address : Multiaddr)
        → handle_start_publish b o w s public_address ≡ some (ok s')
        → Advertises b o w s'.index_provider.blockstore s'.index_provider.head
            (rev_onto s.index_provider.root_cids [])
            s.index_provider.head
          × (s'.index_provider.root_cids ≡ [])
    start_publish-Advertises s s' public_address h =
        let (ads, roots, grows) = start_publish-Grows s s' public_address h in (ads, roots)
