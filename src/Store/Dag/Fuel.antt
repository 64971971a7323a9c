-- ===== src/Store/Dag/Fuel.antt =====
-- `dag_traversal` ends on every finite DAG, cyclic or not, and what it ends with.
use ursa.Prelude.{
  ℕ, zero, suc, ◌+◌, ◌*◌, ◌≤◌, ◌<◌, ◌≡◌, refl, sym, ap, subst, inl, inr, List, [], ◌∷◌, some, true,
  elem, remove, Distinct, length, unseen, unseen-le, unseen-cons_lt, length-le_of_subset,
  length-remove_lt, elem-remove, elem-add_all, Distinct-remove, Distinct-add_all, Bool-cases,
  List-cases, Result-cases, Result, ok, err, panic, arith,
}
use ursa.Store.{Cid, Bytes, StoreError, BlockStore, Decoder}
use ursa.Store.Links.{Lookup, Link}
use ursa.Store.Dag.{Order, Walk, visit, loop, start, dag_traversal}
use ursa.Store.Dag.Rounds.{Found, visit-ok, popped}

-- A finite set of Cids that holds the root and whatever its blocks link to.
pub record Covers (fetch : Lookup) (ipld : Decoder) (root : Cid) (all : List Cid) : Type 0 where
  pub has_root : elem root all ≡ true
  pub closed : (c d : Cid) → elem c all ≡ true → Link fetch ipld c d → elem d all ≡ true

-- Rounds that are enough for a DAG of `n` Cids.
abbrev pub rounds : List Cid → ℕ
rounds all = suc (length all) * suc (length all)

module _ (fetch : Lookup) (ipld : Decoder) (root : Cid) (all : List Cid)
    (cover : Covers fetch ipld root all) where
  record Within (w : Walk) : Type 0 where
    inside : (c : Cid) → elem c w.current ≡ true → elem c all ≡ true
    distinct : Distinct w.current

  -- The work left: a visit of a new Cid may refill `current`, with no more than all Cids.
  abbrev work : Walk → ℕ
  work w = unseen all w.refs * suc (length all) + length w.current

  length-current : (w : Walk) → Within w → length w.current ≤ length all
  length-current w v = length-le_of_subset w.current all v.distinct v.inside

  Within-Found :
      (cid : Cid) (w w' : Walk)
      → elem cid all ≡ true
      → Found fetch ipld cid w w'
      → Within w
      → Within w'
  Within-Found cid w w' m f v = record {
    inside = λ c h. elim (Bool-cases (elem c f.links)) [
      | inl new ↦ cover.closed cid c m (link c new)
      | inr old ↦ v.inside c (ground (arith, elem-add_all c f.links w.current))
    ];
    distinct = rw f.current (Distinct-add_all f.links w.current v.distinct);
  }
    where
      link : (d : Cid) → elem d f.links ≡ true → Link fetch ipld cid d
      link d h = record {
        bytes = f.bytes;
        links = f.links;
        stored = f.stored;
        decoded = f.decoded;
        listed = h;
      }

  Within-popped :
      (cid : Cid) (w : Walk) → Within w → Within (record w { current = remove cid w.current })
  Within-popped cid w v = record {
    inside = λ c h. v.inside c (ground (arith, elem-remove c cid w.current));
    distinct = Distinct-remove cid w.current v.distinct;
  }

  work-Found :
      (cid : Cid) (w w' : Walk)
      → elem cid all ≡ true
      → Found fetch ipld cid w w'
      → Within w'
      → suc (work w') ≤ unseen all w.refs * suc (length all)
  work-Found cid w w' m f v =
      let fewer : unseen all w'.refs < unseen all w.refs =
        rw f.refs (unseen-cons_lt all w.refs cid m f.fresh) in
      grind (arith, length-current w' v)

  -- A round ends the loop, or leaves less work.
  round_falls :
      (order : Order) (c : Cid) (cs : List Cid) (w w' : Walk)
      → w.current ≡ c ∷ cs
      → Within w
      → visit fetch ipld (order.first c cs) (popped fetch ipld order c cs w) ≡ ok w'
      → Within w' × (work w' < work w)
  round_falls order c cs w w' e v h =
      let cid = order.first c cs in
      let top : elem cid w.current ≡ true = rw e (order.first-elem c cs) in
      let p = record w { current = remove cid w.current } in
      let inside = Within-popped cid w v in
      elim (visit-ok fetch ipld cid p w' (
        subst (λ xs. visit fetch ipld cid (record w { current = remove cid xs }) ≡ ok w') (sym e)
          h)) [
            | inl (old, same) ↦ rw same (inside, omega (arith, length-remove_lt cid w.current top))
            | inr found ↦
                let after = Within-Found cid p w' (v.inside cid top) found inside in
                (after, omega (arith, work-Found cid p w' (v.inside cid top) found after))
          ]

  loop_ends :
      (order : Order) (fuel : ℕ) (w : Walk)
      → Within w
      → work w ≤ fuel
      → (r : Result StoreError (List (Cid × Bytes))) × (loop order fetch ipld fuel w ≡ some r)
  unfolding loop
  loop_ends order zero w v h = elim (List-cases w.current) [
    | inl e ↦ (ok w.res, rw (e, loop))
    | inr (c, cs, e) ↦ absurd (omega (arith, ap length e))
  ]
  loop_ends order (suc fuel) w v h = elim (List-cases w.current) [
    | inl e ↦ (ok w.res, rw (e, loop))
    | inr (c, cs, e) ↦
        let r = visit fetch ipld (order.first c cs) (popped fetch ipld order c cs w) in
        rw (e, loop)
          (elim (Result-cases r) [
            | inl (w', go) ↦
                let (inside, less) = round_falls order c cs w w' e v go in
                rw go (loop_ends order fuel w' inside (omega arith))
            | inr (inl (x, stop)) ↦ (err x, rw stop)
            | inr (inr stop) ↦ (panic, rw stop)
          ])
  ]

  Within-start : Within (start root)
  Within-start = record { inside = λ c h. rw (only c h) cover.has_root; distinct = (refl, tt) }
    where
      only : (c : Cid) → elem c (root ∷ []) ≡ true → c ≡ root
      only c h = ground arith

-- On a finite DAG the traversal returns, whatever the order in which it meets the Cids.
pub dag_traversal_ends :
    (order : Order) (b : BlockStore) (ipld : Decoder) (db : b.Db) (root : Cid) (all : List Cid)
    → Covers (b.get db) ipld root all
    → (r : Result StoreError (List (Cid × Bytes))) × (dag_traversal order b ipld db
          (rounds all)
          root
        ≡ some r)
unfolding dag_traversal
dag_traversal_ends order b ipld db root all cover =
    loop_ends (b.get db) ipld root all cover order (rounds all) (start root)
      (Within-start (b.get db) ipld root all cover) (grind (arith, unseen-le all []))
