-- ===== src/Store/Missing/Fuel.antt =====
-- `missing_blocks` ends on every acyclic DAG. It has no record of what it has seen, so on a cycle it
-- would not end; a Cid is a digest of the block, so that blocks cannot link in a cycle.
use mathlib.Core.List.{reverse}
use Prim.Native.Nat.add
use ursa.Prelude.{
  ℕ, zero, suc, ◌+◌, ◌<◌, ◌≡◌, refl, sym, ◌∙◌, inl, inr, List, [], ◌∷◌, ◌++◌, none, some, true,
  elem, List-cases, Option-cases, Result-cases, Result, ok, arith,
}
use ursa.Store.{Cid, Bytes, StoreError, BlockStore, Decoder, get}
use ursa.Store.Links.{Lookup, Link, IsReadable}
use ursa.Store.Missing.{Search, expand, visit, loop, missing_blocks}
use ursa.Store.Missing.Exact.{elem-reverse}

-- A rank that falls along every link: the DAG has no cycle.
pub record IsAcyclic (fetch : Lookup) (ipld : Decoder) : Type 0 where
  pub rank : Cid → ℕ
  pub falls : (c d : Cid) → Link fetch ipld c d → rank d < rank c

module _ (fetch : Lookup) (ipld : Decoder) where
  -- More fuel changes nothing.
  loop-suc :
      (fuel : ℕ) (s : Search) (r : Result StoreError (List Cid))
      → loop fetch ipld fuel s ≡ some r
      → loop fetch ipld (suc fuel) s ≡ some r
  unfolding loop
  loop-suc zero s r h = elim (List-cases s.stack) [
    | inl e ↦ ground arith
    | inr (c, cs, e) ↦ absurd (ground arith)
  ]
  loop-suc (suc fuel) s r h = elim (List-cases s.stack) [
    | inl e ↦ ground arith
    | inr (c, cs, e) ↦ elim (Result-cases (visit fetch ipld c (record s { stack = cs }))) [
      | inl (s', go) ↦ rw (e, loop) (rw go (loop-suc fuel s' r (rw go at (rw (e, loop) at h))))
      | inr (inl (x, stop)) ↦ rw (e, loop) (rw stop (rw stop at (rw (e, loop) at h)))
      | inr (inr stop) ↦ rw (e, loop) (rw stop (rw stop at (rw (e, loop) at h)))
    ]
  ]

  module _ (readable : IsReadable fetch ipld) (acyclic : IsAcyclic fetch ipld) where
    -- The walk gets from below `xs` on the stack to the rest of the stack.
    abbrev Drains : List Cid → List Cid → List Cid → Type 0
    Drains xs rest missing =
        (missing' : List Cid) × ((fuel : ℕ)
          → (more : ℕ) × (loop fetch ipld more (record { stack = xs ++ rest; missing = missing })
              ≡ loop fetch ipld fuel (record { stack = rest; missing = missing' })))

    abbrev Below : ℕ → List Cid → Type 0
    Below n xs = (c : Cid) → elem c xs ≡ true → acyclic.rank c < n

    drain_cons :
        (c : Cid) (cs rest missing : List Cid)
        → ((rest missing : List Cid) → Drains (c ∷ []) rest missing)
        → ((rest missing : List Cid) → Drains cs rest missing)
        → Drains (c ∷ cs) rest missing
    drain_cons c cs rest missing first others =
        let (m, one) = first (cs ++ rest) missing in
        let (m', all) = others rest m in
        (m', λ fuel. let (f, e) = all fuel in let (g, e') = one f in (g, e' ∙ e))

    drain_list :
        (cs : List Cid)
        → ((c : Cid) → elem c cs ≡ true → (rest missing : List Cid) → Drains (c ∷ []) rest missing)
        → (rest missing : List Cid) → Drains cs rest missing
    drain_list [] one rest missing = (missing, λ fuel. (fuel, refl))
    drain_list (c ∷ cs) one rest missing =
        drain_cons c cs rest missing (one c (ground arith))
          (drain_list cs (λ d m. one d (ground arith)))

    drain_absent :
        (c : Cid) → fetch c ≡ ok none → (rest missing : List Cid) → Drains (c ∷ []) rest missing
    unfolding loop visit expand
    drain_absent c e rest missing = (missing ++ c ∷ [], λ fuel. (suc fuel, rw e))

    drain_present :
        (c : Cid) (bytes : Bytes) (links : List Cid)
        → fetch c ≡ ok (some bytes)
        → ipld.references c bytes ≡ ok links
        → ((rest missing : List Cid) → Drains (reverse links) rest missing)
        → (rest missing : List Cid) → Drains (c ∷ []) rest missing
    unfolding loop visit expand
    drain_present c bytes links e l below rest missing =
        let (m, all) = below rest missing in
        (m, λ fuel. let (f, same) = all fuel in (suc f, rw e (rw l same)))

    drain :
        (n : ℕ) (c : Cid)
        → acyclic.rank c < n
        → (rest missing : List Cid) → Drains (c ∷ []) rest missing
    drain zero c h rest missing = absurd (omega arith)
    drain (suc n) c h rest missing =
        let (block, e) = readable.answers c in
        elim (Option-cases block) [
          | inl gone ↦ drain_absent c (rw gone at e) rest missing
          | inr (bytes, here) ↦
              let stored = rw here at e in
              let (links, l) = readable.decodes c bytes stored in
              drain_present c bytes links stored l
                (drain_list (reverse links) (λ d m.
                  drain n d (below d bytes links stored l (sym (elem-reverse d links) ∙ m))))
                rest missing
        ]
      where
        below :
            (d : Cid) (bytes : Bytes) (links : List Cid)
            → fetch c ≡ ok (some bytes)
            → ipld.references c bytes ≡ ok links
            → elem d links ≡ true
            → acyclic.rank d < n
        below d bytes links s l m = omega (
          arith,
          acyclic.falls c d
              (record { bytes = bytes; links = links; stored = s; decoded = l; listed = m }),
        )

-- On an acyclic DAG, with a database and a decoder that do not fail, `missing_blocks` returns a list
-- after finitely many rounds, and more fuel gives the same list.
pub missing_blocks_ends :
    (b : BlockStore) (ipld : Decoder) (db : b.Db) (root : Cid)
    → IsReadable (get b db) ipld
    → IsAcyclic (get b db) ipld
    → (enough : ℕ) × (res : List Cid) × ((extra : ℕ)
        → missing_blocks b ipld db (extra + enough) root ≡ some (ok res))
unfolding missing_blocks
missing_blocks_ends b ipld db root readable acyclic =
    let (res, all) =
      drain (get b db) ipld readable acyclic (suc (acyclic.rank root)) root (omega arith) [] [] in
    let (enough, e) = all 0 in (enough, res, more enough res (e ∙ refl))
  where
    more :
        (enough : ℕ) (res : List Cid)
        → loop (get b db) ipld enough (record { stack = root ∷ []; missing = [] }) ≡ some (ok res)
        → (extra : ℕ)
        → loop (get b db) ipld (extra + enough) (record { stack = root ∷ []; missing = [] })
          ≡ some (ok res)
    more enough res e zero = rw (add.zero enough) e
    more enough res e (suc extra) =
        rw (add.suc extra enough)
          (loop-suc (get b db) ipld (extra + enough) _ (ok res) (more enough res e extra))
