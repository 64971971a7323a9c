-- ===== src/Store/Dag/Outcome.antt =====
-- When `dag_traversal` succeeds and when it fails, for a database and a decoder that do not fail.
use ursa.Prelude.{
  ℕ, zero, suc, ◌≡◌, subst, ◌⊎◌, inl, inr, List, [], ◌∷◌, Option, none, some, true, false, elem,
  remove, ==_iff, ◌==◌, ◌++◌, add_all, elem-remove, elem-add_all, Bool-cases, List-cases, Result,
  ok, err, arith,
}
use ursa.Store.{Cid, Bytes, StoreError, missing_part, BlockStore, Decoder}
use ursa.Store.Links.{Lookup, Reach, here, step, IsReadable}
use ursa.Store.Dag.{Order, Walk, keys, expand, fetch_block, visit, loop, start, dag_traversal}
use ursa.Store.Dag.Rounds.{Found, visit-ok, popped}
use ursa.Store.Dag.Contents.{Stored, dag_traversal_exact}
use ursa.Store.Dag.Fuel.{Covers, rounds, dag_traversal_ends}

-- The database answers, and every stored block decodes and matches its Cid.
pub record IsHealthy (fetch : Lookup) (ipld : Decoder) : Type 0 where
  pub readable : IsReadable fetch ipld
  pub open readable use *
  pub verified :
      (c : Cid) (bytes : Bytes) → fetch c ≡ ok (some bytes) → ipld.verifies c bytes ≡ true

module _ (fetch : Lookup) (ipld : Decoder) (root : Cid) (healthy : IsHealthy fetch ipld) where
  record Inv (w : Walk) : Type 0 where
    queued : (c : Cid) → elem c w.current ≡ true → Reach fetch ipld root c

  -- A round goes on, or it met a Cid that is not stored.
  visit_outcome :
      (cid : Cid) (w : Walk)
      → ((w' : Walk) × (visit fetch ipld cid w ≡ ok w'))
        ⊎ (fetch cid ≡ ok none) × (visit fetch ipld cid w ≡ err missing_part)
  unfolding visit fetch_block expand
  visit_outcome cid w = elim (Bool-cases (elem cid w.refs)) [
    | inl old ↦ inl (w, ground arith)
    | inr new ↦ let (block, e) = healthy.answers cid in rw new (fetched block e)
  ]
    where
      fetched :
          (block : Option Bytes)
          → fetch cid ≡ ok block
          → ((w' : Walk) × (fetch_block fetch ipld cid w ≡ ok w'))
            ⊎ (fetch cid ≡ ok none) × (fetch_block fetch ipld cid w ≡ err missing_part)
      fetched none e = inr (e, rw e)
      fetched (some bytes) e =
          let (links, l) = healthy.decodes cid bytes e in
          inl (
            record {
              current = add_all links w.current;
              refs = cid ∷ w.refs;
              res = w.res ++ (cid, bytes) ∷ [];
            },
            rw e (rw (healthy.verified cid bytes e) (rw l)),
          )

  Inv-popped : (cid : Cid) (w : Walk) → Inv w → Inv (record w { current = remove cid w.current })
  Inv-popped cid w v = record {
    queued = λ c h. v.queued c (ground (arith, elem-remove c cid w.current));
  }

  Inv-Found :
      (cid : Cid) (w w' : Walk)
      → Reach fetch ipld root cid
      → Found fetch ipld cid w w'
      → Inv w
      → Inv w'
  Inv-Found cid w w' r f v = record {
    queued = λ c h. elim (Bool-cases (elem c f.links)) [
      | inl new ↦ step r (record {
        bytes = f.bytes;
        links = f.links;
        stored = f.stored;
        decoded = f.decoded;
        listed = new;
      })
      | inr old ↦ v.queued c (ground (arith, elem-add_all c f.links w.current))
    ];
  }

  abbrev Missed : Option (Result StoreError (List (Cid × Bytes))) → Type 0
  Missed o =
      (c : Cid) × Reach fetch ipld root c × (fetch c ≡ ok none) × (o ≡ some (err missing_part))

  abbrev Returned : Option (Result StoreError (List (Cid × Bytes))) → Type 0
  Returned o = (res : List (Cid × Bytes)) × (o ≡ some (ok res))

  loop_outcome :
      (order : Order) (fuel : ℕ) (w : Walk) (r : Result StoreError (List (Cid × Bytes)))
      → Inv w
      → loop order fetch ipld fuel w ≡ some r
      → Returned (loop order fetch ipld fuel w) ⊎ Missed (loop order fetch ipld fuel w)
  unfolding loop
  loop_outcome order zero w r v h = elim (List-cases w.current) [
    | inl e ↦ inl (w.res, rw (e, loop))
    | inr (c, cs, e) ↦ absurd (ground arith)
  ]
  loop_outcome order (suc fuel) w r v h = elim (List-cases w.current) [
    | inl e ↦ inl (w.res, rw (e, loop))
    | inr (c, cs, e) ↦
        let cid = order.first c cs in
        let p = popped fetch ipld order c cs w in
        let reached = v.queued cid (rw e (order.first-elem c cs)) in
        let inside =
          subst (λ xs. Inv (record w { current = remove cid xs })) e (Inv-popped cid w v) in
        elim (visit_outcome cid p) [
          | inr (gone, stop) ↦ inr (cid, reached, gone, rw (e, loop) (rw stop))
          | inl (w', go) ↦
              let after : Inv w' = elim (visit-ok fetch ipld cid p w' go) [
                | inl (_, same) ↦ rw same inside
                | inr found ↦ Inv-Found cid p w' reached found inside
              ] in
              let rest = loop_outcome order fuel w' r after (rw go at (rw (e, loop) at h)) in
              rw (e, loop) (rw go rest)
        ]
  ]

Stored-elem :
    (fetch : Lookup) (c : Cid) (es : List (Cid × Bytes))
    → Stored fetch es
    → elem c (keys es) ≡ true
    → (bytes : Bytes) × (fetch c ≡ ok (some bytes))
Stored-elem fetch c [] s h = absurd (false-true h)
  where
    false-true : false ≡ true → ⊥
    false-true e = cc
Stored-elem fetch c ((k, bytes) ∷ es) s h = elim (Bool-cases (c == k)) [
  | inl e ↦ rw ((==_iff c k).0 e) (bytes, s.0)
  | inr e ↦ Stored-elem fetch c es s.1 (ground arith)
]

-- On a finite DAG, with a database and a decoder that do not fail, the traversal decides whether
-- all blocks are there: it succeeds, and every Cid that the root reaches is stored, or it
-- fails with the error of a missing part, and some Cid that the root reaches is not stored.
pub dag_traversal_decides :
    (order : Order) (b : BlockStore) (ipld : Decoder) (db : b.Db) (root : Cid) (all : List Cid)
    → Covers (b.get db) ipld root all
    → IsHealthy (b.get db) ipld
    → ((res : List (Cid × Bytes)) × (dag_traversal order b ipld db (rounds all) root
          ≡ some (ok res))
        × ((c : Cid)
            → Reach (b.get db) ipld root c
            → (bytes : Bytes) × (b.get db c ≡ ok (some bytes))))
      ⊎ ((c : Cid) × Reach (b.get db) ipld root c
          × (b.get db c ≡ ok none)
          × (dag_traversal order b ipld db (rounds all) root ≡ some (err missing_part)))
dag_traversal_decides order b ipld db root all cover healthy =
    let (r, ends) = dag_traversal_ends order b ipld db root all cover in
    elim (outcome r ends) [
      | inl (res, e) ↦
          let (keyed, _, stored) = dag_traversal_exact order b ipld db (rounds all) root res e in
          inl (res, e, λ c p. Stored-elem (b.get db) c res stored ((keyed c).1 p))
      | inr missed ↦ inr missed
    ]
  where
    outcome :
        (r : Result StoreError (List (Cid × Bytes)))
        → dag_traversal order b ipld db (rounds all) root ≡ some r
        → Returned (b.get db) ipld root healthy (dag_traversal order b ipld db (rounds all) root)
          ⊎ Missed (b.get db) ipld root healthy (dag_traversal order b ipld db (rounds all) root)
    outcome r ends =
        unfold dag_traversal in
        loop_outcome (b.get db) ipld root healthy order (rounds all) (start root) r
          (record { queued = λ c h. rw (only c h) here }) ends
      where
        only : (c : Cid) → elem c (root ∷ []) ≡ true → c ≡ root
        only c h = ground arith
