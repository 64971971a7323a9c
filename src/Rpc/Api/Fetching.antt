-- ===== src/Rpc/Api/Fetching.antt =====
-- Which blocks a client is given, and when the network is asked for them.
use mathlib.Core.Option
use ursa.Prelude.{
  ◌⊎◌, inl, inr, ℕ, ◌≡◌, refl, ap, ◌∙◌, subst, ◌↔◌, inl, inr, List, [], ◌∷◌, Option, none, some,
  true, elem, Distinct, Result, ok, err, panic, map_err, map_err-eq-ok, unwrap, >>=-eq-ok,
  ok-injective, resume-eq-ok,
}
use ursa.Store.{Cid, Bytes, missing_part, BlockStore, Decoder}
use ursa.Store.Links.{Reach}
use ursa.Store.Dag.{Order, keys, dag_traversal}
use ursa.Store.Dag.Contents.{Stored, dag_traversal_exact}
use ursa.Store.Dag.Fuel.{Covers, rounds}
use ursa.Store.Dag.Outcome.{IsHealthy, dag_traversal_decides}
use ursa.Network.Behaviour.{Sender}
use ursa.Network.Service.{sync}
use ursa.Rpc.Api.{
  ApiError, store_error, NodeNetworkInterface, Service, Car, obtain, traverse, get_data, stream,
}

module _ (b : BlockStore) (s : Service b.Db) (order : Order) (ipld : Decoder) where
  -- The blocks that a root reaches in a store, each once, and as they are stored.
  abbrev pub Whole : b.Db → Cid → List (Cid × Bytes) → Type 0
  Whole db root dag =
      ((c : Cid) → (elem c (keys dag) ≡ true) ↔ Reach (b.get db) ipld root c)
      × Distinct (keys dag)
      × Stored (b.get db) dag

  map-some :
      {A B : Type 0} (f : A → B) (o : Option A) {r : B}
      → Option.map f o ≡ some r
      → (a : A) × (o ≡ some a) × (f a ≡ r)
  map-some f none h = cc
  map-some f (some a) h = (a, refl, cc)

  unwrap-ok :
      {A : Type 0} (r : Result ApiError A) {a : A}
      → ◌≡◌ {A = Result ApiError A} (unwrap r) (ok a)
      → r ≡ ok a
  unwrap-ok (ok x) h = cc
  unwrap-ok (err e) h = cc
  unwrap-ok panic h = cc

  get_data-Whole :
      (fuel : ℕ) (i : NodeNetworkInterface b.Db) (root : Cid) (sender : Sender)
      (dag : List (Cid × Bytes))
      → (get_data b s order ipld fuel i root sender).1 ≡ some (ok dag)
      → Whole (get_data b s order ipld fuel i root sender).0.store root dag
  unfolding get_data
  get_data-Whole fuel i root sender dag h =
      let (i', local) = obtain b s i root sync sender in
      let (_, _, t) = resume-eq-ok (λ _. traverse b s order ipld fuel i'.store root) local h in
      let (q, found, same) =
        map-some (map_err store_error) (dag_traversal order b ipld i'.store fuel root) t in
      dag_traversal_exact order b ipld i'.store fuel root dag
        (found ∙ ap some (map_err-eq-ok store_error q same))

  -- A stream that is given has the root in its header, and its blocks are the blocks that the root reaches
  -- in the store, each once, and as they are stored.
  pub stream-Whole :
      (fuel : ℕ) (i : NodeNetworkInterface b.Db) (root : Cid) (sender : Sender) (car : Car)
      → (stream b s order ipld fuel i root sender).1 ≡ some (ok car)
      → (car.header.roots ≡ root ∷ [])
        × Whole (stream b s order ipld fuel i root sender).0.store root car.blocks
  unfolding stream
  stream-Whole fuel i root sender car h =
      let (r, fetched, made) = map-some _ (get_data b s order ipld fuel i root sender).1 h in
      let (dag, unwrapped, same) = >>=-eq-ok (unwrap r) _ made in
      let whole =
        get_data-Whole fuel i root sender dag (fetched ∙ ap some (unwrap-ok r unwrapped)) in
      subst
        (λ x.
          (x.header.roots ≡ root ∷ [])
          × Whole (get_data b s order ipld fuel i root sender).0.store root x.blocks)
        (ok-injective same) (refl, whole)

  -- What becomes of a request for a root that is stored: the network is not asked for anything. If all that
  -- the root reaches is stored, the stream is given, with all of it; if some block that it reaches is
  -- absent, `get_data` fails with a missing part, and `stream` panics.
  pub stored_root_decides :
      (i : NodeNetworkInterface b.Db) (root : Cid) (all : List Cid) (sender : Sender)
      → b.has i.store root ≡ ok true
      → Covers (b.get i.store) ipld root all
      → IsHealthy (b.get i.store) ipld
      → ((car : Car) × (stream b s order ipld (rounds all) i root sender ≡ (i, some (ok car)))
          × (car.header.roots ≡ root ∷ [])
          × Whole i.store root car.blocks)
        ⊎ ((c : Cid) × Reach (b.get i.store) ipld root c
            × (b.get i.store c ≡ ok none)
            × (get_data b s order ipld (rounds all) i root sender
                ≡ (i, some (err (store_error missing_part))))
            × (stream b s order ipld (rounds all) i root sender ≡ (i, some panic)))
  unfolding get_data stream obtain
  stored_root_decides i root all sender here cover healthy =
      elim (dag_traversal_decides order b ipld i.store root all cover healthy) [
        | inl (dag, e, every) ↦ inl (
          record { header = record { roots = root ∷ []; version = 1 }; blocks = dag },
          rw (here, stream, get_data, obtain, e) refl,
          refl,
          dag_traversal_exact order b ipld i.store (rounds all) root dag e,
        )
        | inr (c, reach, absent, e) ↦ inr (
          c,
          reach,
          absent,
          rw (here, get_data, obtain, e) refl,
          rw (here, stream, get_data, obtain, e) refl,
        )
      ]
