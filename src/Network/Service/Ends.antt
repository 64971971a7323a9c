-- ===== src/Network/Service/Ends.antt =====
-- The publication of the queued roots comes to an end.
use ursa.Prelude.{
  ℕ, zero, suc, ◌<◌, length, ap, ◌∙◌, arith, inl, inr, List-cases, ◌≡◌, refl, sym, List, [], ◌∷◌,
  Option, some, Result, ok, err, panic, resume, subst,
}
use ursa.Store.{Cid, Bytes, BlockStore}
use ursa.Store.Dag.{dag_traversal}
use ursa.Store.Dag.Fuel.{Covers, rounds, dag_traversal_ends}
use ursa.Network.Multiaddr.{Multiaddr}
use ursa.Network.Service.{World, UrsaService, ServiceError}
use ursa.Network.Service.Publish.{
  begin_ad, publish_root, publish_roots, advertised_address, handle_start_publish,
}
use ursa.Network.Service.Queue.{publish_root-roots}
use ursa.Index.Provider.{ObjectStore}

module _ (b : BlockStore) (o : ObjectStore) (w : World b) (all : List Cid)
    (enough : w.rounds ≡ rounds all) where
  abbrev pub Returns : Option (Result ServiceError (UrsaService o.Db)) → Type 0
  Returns outcome = (r : Result ServiceError (UrsaService o.Db)) × (outcome ≡ some r)

  resumed :
      {S : Type 0} (go : S → Option (Result ServiceError (UrsaService o.Db)))
      (r : Result ServiceError S)
      → ((s : S) → r ≡ ok s → Returns (go s))
      → Returns (resume go r)
  resumed go (ok s) h = h s refl
  resumed go (err e) h = (err e, refl)
  resumed go panic h = (panic, refl)

  publish_root_ends :
      (s : UrsaService o.Db) (address : Bytes) (root : Cid)
      → Covers (b.get w.db) w.ipld root all
      → Returns (publish_root b o w s address root)
  unfolding publish_root
  publish_root_ends s address root cover =
      let (r, e) = dag_traversal_ends w.order b w.ipld w.db root all cover in
      let ends = subst (λ n. dag_traversal w.order b w.ipld w.db n root ≡ some r) (sym enough) e in
      resumed _ (begin_ad b o w s address root) (λ draft _. rw ends (_, refl))

  -- All roots of a list have their DAGs within the finite set.
  abbrev AllCovered : List Cid → Type 0
  AllCovered [] = Unit {0}
  AllCovered (root ∷ roots) = Covers (b.get w.db) w.ipld root all × AllCovered roots

  publish_roots_ends :
      (fuel : ℕ) (address : Bytes) (s : UrsaService o.Db)
      → length s.index_provider.root_cids < fuel
      → AllCovered s.index_provider.root_cids
      → Returns (publish_roots b o w fuel address s)
  unfolding publish_roots
  publish_roots_ends zero address s enough_fuel c = absurd (omega arith)
  publish_roots_ends (suc fuel) address s enough_fuel c =
      elim (List-cases s.index_provider.root_cids) [
        | inl q ↦ rw (q, publish_roots) (ok s, refl)
        | inr (root, rest, q) ↦
            let s0 = record s { index_provider = record s.index_provider { root_cids = rest } } in
            let (cover, covers) = subst AllCovered q c in
            let (r, e) = publish_root_ends s0 address root cover in
            let shorter : suc (length rest) < suc fuel =
              subst (λ rs. length rs < suc fuel) q enough_fuel in
            rw (q, publish_roots, e)
              (resumed (publish_roots b o w fuel address) r λ s1 goes.
                let kept : s1.index_provider.root_cids ≡ rest =
                  publish_root-roots b o w s0 s1 address root (e ∙ ap some goes) in
                publish_roots_ends fuel address s1
                  (subst (λ rs. length rs < fuel) (sym kept) (omega arith))
                  (subst AllCovered (sym kept) covers))
      ]

  -- If the DAGs of the queued roots lie within a finite set, and the rounds of a traversal are enough for
  -- that set, then the turn that publishes them, until the queue is empty, returns, whatever else fails.
  pub start_publish_ends :
      (s : UrsaService o.Db) (public_address : Multiaddr)
      → AllCovered s.index_provider.root_cids
      → Returns (handle_start_publish b o w s public_address)
  unfolding handle_start_publish
  start_publish_ends s public_address covers =
      publish_roots_ends (suc (length s.index_provider.root_cids))
        (w.multiaddr_text (advertised_address public_address)) s (omega arith) covers
