-- ===== src/Store/Dag/Rounds.antt =====
-- What one round of `dag_traversal` does, and the rule for invariants of its loop.
use ursa.Prelude.{
  resume-eq-ok, ℕ, zero, suc, ◌≡◌, ◌⊎◌, inl, inr, List, [], ◌∷◌, ◌++◌, Option, none, some, true,
  false, elem, remove, add_all, Bool-cases, List-cases, ensure_or_panic, >>=-eq-ok, ok, arith,
}
use ursa.Store.{Cid, Bytes, Decoder}
use ursa.Store.Links.{Lookup}
use ursa.Store.Dag.{Order, Walk, expand, fetch_block, visit, loop}

module _ (fetch : Lookup) (ipld : Decoder) where
  -- The walk after a block was found, with what was found.
  pub record Found (cid : Cid) (w w' : Walk) : Type 0 where
    pub bytes : Bytes
    pub links : List Cid
    pub fresh : elem cid w.refs ≡ false
    pub stored : fetch cid ≡ ok (some bytes)
    pub decoded : ipld.references cid bytes ≡ ok links
    pub current : w'.current ≡ add_all links w.current
    pub refs : w'.refs ≡ cid ∷ w.refs
    pub res : w'.res ≡ w.res ++ (cid, bytes) ∷ []

  expand-ok :
      (cid : Cid) (w w' : Walk) (block : Option Bytes)
      → elem cid w.refs ≡ false
      → fetch cid ≡ ok block
      → expand ipld cid w block ≡ ok w'
      → Found cid w w'
  unfolding expand
  expand-ok cid w w' none new e h = absurd (cc)
  expand-ok cid w w' (some bytes) new e h =
      let (_, _, rest) = >>=-eq-ok (ensure_or_panic (ipld.verifies cid bytes)) _ h in
      let (links, l, last) = >>=-eq-ok (ipld.references cid bytes) _ rest in
      record {
        bytes = bytes;
        links = links;
        fresh = new;
        stored = e;
        decoded = l;
        current = ground arith;
        refs = ground arith;
        res = ground arith;
      }

  -- A round that goes on either met a Cid again, or added a block and queued its links.
  pub visit-ok :
      (cid : Cid) (w w' : Walk)
      → visit fetch ipld cid w ≡ ok w'
      → ((elem cid w.refs ≡ true) × (w' ≡ w)) ⊎ Found cid w w'
  unfolding visit fetch_block
  visit-ok cid w w' h = elim (Bool-cases (elem cid w.refs)) [
    | inl old ↦ inl (old, ground arith)
    | inr new ↦
        let (block, e, rest) = >>=-eq-ok (fetch cid) _ (rw (new, visit, fetch_block) at h) in
        inr (expand-ok cid w w' block new e rest)
  ]

  module _ (order : Order) where
    -- The Cid that a round takes from `current`, and the walk without it.
    abbrev pub popped : Cid → List Cid → Walk → Walk
    popped c cs w = record w { current = remove (order.first c cs) (c ∷ cs) }

    -- What every round keeps holds when the loop returns, with nothing left to visit.
    pub loop_rule {ℓ} :
        (P : Walk → Type ℓ)
        → ((c : Cid) (cs : List Cid) (w w' : Walk)
            → w.current ≡ c ∷ cs
            → P w
            → visit fetch ipld (order.first c cs) (popped c cs w) ≡ ok w'
            → P w')
        → (fuel : ℕ) (w : Walk) (res : List (Cid × Bytes)) → P w
        → loop order fetch ipld fuel w ≡ some (ok res)
        → (t : Walk) × P t × (t.current ≡ []) × (t.res ≡ res)
    unfolding loop
    loop_rule P keep zero w res p h = elim (List-cases w.current) [
      | inl e ↦ (w, p, e, ground arith)
      | inr (c, cs, e) ↦ absurd (ground arith)
    ]
    loop_rule P keep (suc fuel) w res p h = elim (List-cases w.current) [
      | inl e ↦ (w, p, e, ground arith)
      | inr (c, cs, e) ↦
          let (w', v, rest) =
            resume-eq-ok (loop order fetch ipld fuel)
              (visit fetch ipld (order.first c cs) (popped c cs w)) (rw (e, loop) at h) in
          loop_rule P keep fuel w' res (keep c cs w w' e p v) rest
    ]
