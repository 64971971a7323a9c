-- ===== src/Network/Service/Queue.antt =====
-- The publication of one root leaves the other queued roots as they are, whatever the provider's store does.
use ursa.Prelude.{
  ℕ, ◌≡◌, refl, ap, ◌∙◌, sym, inl, inr, List, [], ◌∷◌, Option, none, some, lookup, Option-cases,
  Result, ok, err, panic, >>=-eq-ok, ok-injective, resume-eq-ok, map_err,
}
use ursa.Store.{Cid, Bytes, BlockStore}
use ursa.Store.Dag.{dag_traversal}
use ursa.Network.Service.{World, UrsaService, ServiceError, store_failed}
use ursa.Network.Service.Publish.{
  chunks, entries_of, expected, add_chunks, begin_ad, fill_ad, finish_root, publish_root,
}
use ursa.Network.Service.Roots.{begin_ad-Begun, announce-keeps}
use ursa.Index.Advertisement.{Ipld, Advertisement, Codecs, max_entries}
use ursa.Index.Provider.{
  ObjectStore, Provider, ProviderError, linked, add_entries, add_chunk, published, publish,
}

module _ (o : ObjectStore) where
  linked-roots :
      (id : ℕ) (a : Advertisement) (p : Provider o.Db) (r : Result ProviderError (Cid × o.Db))
      → (linked o id a p r).0.root_cids ≡ p.root_cids
  linked-roots id a p (ok (cid, db)) = refl
  linked-roots id a p (err e) = refl
  linked-roots id a p panic = refl

  add_entries-roots :
      (p : Provider o.Db) (id : ℕ) (decoded : Result ProviderError (List Ipld))
      → (add_entries o p id decoded).0.root_cids ≡ p.root_cids
  add_entries-roots p id (ok entries) = elim (Option-cases (lookup id p.temp_ads)) [
    | inl l ↦ rw (l, add_entries) refl
    | inr (a, l) ↦ rw (l, add_entries) (linked-roots id a p _)
  ]
  add_entries-roots p id (err e) = refl
  add_entries-roots p id panic = refl

  published-roots :
      (c : Codecs) (p : Provider o.Db) (r : Result ProviderError (Cid × o.Db))
      → (published o c p r).0.root_cids ≡ p.root_cids
  published-roots c p (ok (cid, db)) = refl
  published-roots c p (err e) = refl
  published-roots c p panic = refl

  publish-roots :
      (c : Codecs) (p : Provider o.Db) (id : ℕ) → (publish o c p id).0.root_cids ≡ p.root_cids
  unfolding publish
  publish-roots c p id = elim (Option-cases (lookup id p.temp_ads)) [
    | inl l ↦ rw (l, publish) refl
    | inr (a, l) ↦ rw (l, publish) (published-roots c _ _)
  ]

module _ (b : BlockStore) (o : ObjectStore) (w : World b) where
  expected-roots :
      (r : Provider o.Db × Result ProviderError (Unit {0})) (p : Provider o.Db)
      → expected b o w r ≡ ok p
      → p.root_cids ≡ r.0.root_cids
  expected-roots (q, ok tt) p h = ap (λ x. x.root_cids) (sym (ok-injective h))
  expected-roots (q, err e) p h = absurd (clash h)
    where
      clash : ◌≡◌ {A = Result ServiceError (Provider o.Db)} panic (ok p) → ⊥
      clash e = cc
  expected-roots (q, panic) p h = absurd (clash h)
    where
      clash : ◌≡◌ {A = Result ServiceError (Provider o.Db)} panic (ok p) → ⊥
      clash e = cc

  add_chunks-roots :
      (p p' : Provider o.Db) (id : ℕ) (chs : List (List Ipld))
      → add_chunks b o w p id chs ≡ ok p'
      → p'.root_cids ≡ p.root_cids
  unfolding add_chunks add_chunk
  add_chunks-roots p p' id [] h = ap (λ x. x.root_cids) (sym (ok-injective h))
  add_chunks-roots p p' id (chunk ∷ rest) h =
      let (encoded, _, g) = >>=-eq-ok (w.to_vec chunk) _ h in
      let (p1, first, later) = >>=-eq-ok (expected b o w (add_chunk o p encoded id)) _ g in
      add_chunks-roots p1 p' id rest later
      ∙ (expected-roots (add_chunk o p encoded id) p1 first
          ∙ add_entries-roots o p id (o.decode_entries encoded))

  fill_ad-roots :
      (p p' : Provider o.Db) (id : ℕ) (dag : List (Cid × Bytes))
      → fill_ad b o w p id dag ≡ ok p'
      → p'.root_cids ≡ p.root_cids
  unfolding fill_ad
  fill_ad-roots p p' id dag h =
      let chs = chunks max_entries (entries_of b o w dag) in
      let (p1, filled, last) = >>=-eq-ok (add_chunks b o w p id chs) _ h in
      expected-roots (publish o w.codecs p1 id) p' last
      ∙ (publish-roots o w.codecs p1 id ∙ add_chunks-roots p p1 id chs filled)

  pub publish_root-roots :
      (s s' : UrsaService o.Db) (address : Bytes) (root : Cid)
      → publish_root b o w s address root ≡ some (ok s')
      → s'.index_provider.root_cids ≡ s.index_provider.root_cids
  unfolding publish_root finish_root
  publish_root-roots s s' address root h =
      let ((p, id), begun, t) = resume-eq-ok _ (begin_ad b o w s address root) h in
      let g = begin_ad-Begun b o w s address root (p, id) begun in
      elim (Option-cases (dag_traversal w.order b w.ipld w.db w.rounds root)) [
        | inl e ↦ absurd (clash (rw e at t))
        | inr (traversed, e) ↦
            let (dag, _, f) = >>=-eq-ok (map_err store_failed traversed) _ (inner (rw e at t)) in
            let (p', filled, a) = >>=-eq-ok (fill_ad b o w p id dag) _ f in
            ap (λ q. q.root_cids) (announce-keeps b o w (record s { index_provider = p' }) s' a)
            ∙ (fill_ad-roots p p' id dag filled ∙ g.roots)
      ]
    where
      clash : ◌≡◌ {A = Option (Result ServiceError (UrsaService o.Db))} none (some (ok s')) → ⊥
      clash e = cc

      inner : {r : Result ServiceError (UrsaService o.Db)} → some r ≡ some (ok s') → r ≡ ok s'
      inner e = cc
