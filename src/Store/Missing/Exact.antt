-- ===== src/Store/Missing/Exact.antt =====
-- What `missing_blocks` returns, when it returns: exactly the Cids that the root reaches and the
-- store lacks.
use mathlib.Core.List.{reverse, reverse-cons}
use ursa.Prelude.{
  resume-eq-ok, ℕ, zero, suc, ◌≡◌, ◌==◌, refl, subst, ok-injective, ◌⊎◌, inl, inr, ◌↔◌, ◌||◌, List,
  [], ◌∷◌, ◌++◌, Option, none, some, true, false, elem, elem-append, ==_iff, Bool-cases, List-cases,
  ok, >>=-eq-ok, arith,
}
use ursa.Store.{Cid, Bytes, BlockStore, Decoder, get}
use ursa.Store.Links.{Lookup, Link, Reach, here, step, Link-listed}
use ursa.Store.Missing.{Search, expand, visit, loop, missing_blocks}

pub elem-reverse : (a : ℕ) (xs : List ℕ) → elem a (reverse xs) ≡ elem a xs
elem-reverse a [] = refl
elem-reverse a (x ∷ xs) =
    rw (reverse-cons x xs, elem-append a (reverse xs) (x ∷ []), elem-reverse a xs) (ground arith)

module _ (fetch : Lookup) (ipld : Decoder) where
  -- A walk is empty, or begins with a link.
  Reach-head :
      {c d : Cid}
      → Reach fetch ipld c d
      → (d ≡ c) ⊎ ((e : Cid) × Link fetch ipld c e × Reach fetch ipld e d)
  Reach-head here = inl refl
  Reach-head {c} (step {c = e} {d = f} p l) = elim (Reach-head p) [
    | inl same ↦ inr (f, rw same at l, here)
    | inr (g, first, rest) ↦ inr (g, first, step rest l)
  ]

  Reach-trans : {a b c : Cid} → Reach fetch ipld a b → Reach fetch ipld b c → Reach fetch ipld a c
  Reach-trans p here = p
  Reach-trans p (step q l) = step (Reach-trans p q) l

  -- An absent block links to nothing.
  leaf : (cid c : Cid) → fetch cid ≡ ok none → Reach fetch ipld cid c → c ≡ cid
  leaf cid c e p = elim (Reach-head p) [
    | inl same ↦ same
    | inr (g, l, _) ↦ absurd (clash l.bytes l.stored)
  ]
    where
      clash : (bytes : Bytes) → fetch cid ≡ ok (some bytes) → ⊥
      clash bytes s = cc

  module _ (root : Cid) where
    -- The Cid is reported, or still lies ahead.
    abbrev Covered : Cid → Search → Type 0
    Covered c s =
        (elem c s.missing ≡ true)
        ⊎ ((top : Cid) × (elem top s.stack ≡ true) × Reach fetch ipld top c)

    record Inv (s : Search) : Type 0 where
      queued : (c : Cid) → elem c s.stack ≡ true → Reach fetch ipld root c
      reported : (c : Cid) → elem c s.missing ≡ true → Reach fetch ipld root c × (fetch c ≡ ok none)
      covered : (c : Cid) → Reach fetch ipld root c → fetch c ≡ ok none → Covered c s

    Inv-absent :
        (cid : Cid) (rest missing : List Cid)
        → fetch cid ≡ ok none
        → Inv (record { stack = cid ∷ rest; missing = missing })
        → Inv (record { stack = rest; missing = missing ++ cid ∷ [] })
    Inv-absent cid rest missing e v = record {
      queued = λ c h. v.queued c (ground arith);
      reported = λ c h. elim (Bool-cases (c == cid)) [
        | inl same ↦ rw ((==_iff c cid).0 same) (v.queued cid (ground arith), e)
        | inr other ↦ v.reported c (ground (arith, elem-append c missing (cid ∷ [])))
      ];
      covered = λ c p gone. elim (v.covered c p gone) [
        | inl old ↦ inl (ground (arith, elem-append c missing (cid ∷ [])))
        | inr (top, m, q) ↦ elim (Bool-cases (top == cid)) [
          | inr other ↦ inr (top, ground arith, q)
          | inl same ↦
              let at_cid : Reach fetch ipld cid c = rw ((==_iff top cid).0 same) at q in
              inl (ground (arith, leaf cid c e at_cid, elem-append c missing (cid ∷ [])))
        ]
      ];
    }

    Inv-present :
        (cid : Cid) (bytes : Bytes) (links rest missing : List Cid)
        → fetch cid ≡ ok (some bytes)
        → ipld.references cid bytes ≡ ok links
        → Inv (record { stack = cid ∷ rest; missing = missing })
        → Inv (record { stack = reverse links ++ rest; missing = missing })
    Inv-present cid bytes links rest missing e l v = record {
      queued = λ c h. elim (Bool-cases (elem c links)) [
        | inl new ↦
            step (v.queued cid (ground arith))
              (record { bytes = bytes; links = links; stored = e; decoded = l; listed = new })
        | inr old ↦ v.queued c (ground (arith, split c))
      ];
      reported = v.reported;
      covered = λ c p gone. elim (v.covered c p gone) [
        | inl old ↦ inl old
        | inr (top, m, q) ↦ elim (Bool-cases (top == cid)) [
          | inr other ↦ inr (top, ground (arith, split top), q)
          | inl same ↦ elim (Reach-head (rw ((==_iff top cid).0 same) at q)) [
            | inl at_cid ↦ absurd (clash (rw at_cid at gone))
            | inr (d, first, onward) ↦ inr (
              d,
              ground (arith, split d, Link-listed fetch ipld cid d bytes links e l first),
              onward,
            )
          ]
        ]
      ];
    }
      where
        split : (c : Cid) → elem c (reverse links ++ rest) ≡ (elem c links || elem c rest)
        split c = rw (elem-append c (reverse links) rest, elem-reverse c links)

        clash : fetch cid ≡ ok none → ⊥
        clash gone = cc

    Inv-expand :
        (cid : Cid) (rest missing : List Cid) (block : Option Bytes) (s' : Search)
        → fetch cid ≡ ok block
        → expand ipld cid (record { stack = rest; missing = missing }) block ≡ ok s'
        → Inv (record { stack = cid ∷ rest; missing = missing })
        → Inv s'
    unfolding expand
    Inv-expand cid rest missing none s' e h v =
        subst Inv (ok-injective h) (Inv-absent cid rest missing e v)
    Inv-expand cid rest missing (some bytes) s' e h v =
        let (links, l, last) = >>=-eq-ok (ipld.references cid bytes) _ h in
        subst Inv (ok-injective last) (Inv-present cid bytes links rest missing e l v)

    loop_keeps :
        (fuel : ℕ) (s : Search) (res : List Cid)
        → Inv s
        → loop fetch ipld fuel s ≡ some (ok res)
        → (t : Search) × Inv t × (t.stack ≡ []) × (t.missing ≡ res)
    unfolding loop visit
    loop_keeps zero s res v h = elim (List-cases s.stack) [
      | inl e ↦ (s, v, e, ground arith)
      | inr (c, cs, e) ↦ absurd (ground arith)
    ]
    loop_keeps (suc fuel) s res v h = elim (List-cases s.stack) [
      | inl e ↦ (s, v, e, ground arith)
      | inr (cid, rest, e) ↦
          let (s', go, more) =
            resume-eq-ok (loop fetch ipld fuel) (visit fetch ipld cid (record s { stack = rest }))
              (rw (e, loop) at h) in
          let (block, found, last) = >>=-eq-ok (fetch cid) _ go in
          loop_keeps fuel s' res
            (Inv-expand cid rest s.missing block s' found last
              (subst (λ xs. Inv (record { stack = xs; missing = s.missing })) e v))
            more
    ]

-- When `missing_blocks` returns, it names exactly the Cids that the root reaches over stored
-- blocks and that the store lacks.
pub missing_blocks_exact :
    (b : BlockStore) (ipld : Decoder) (db : b.Db) (fuel : ℕ) (root : Cid) (res : List Cid)
    → missing_blocks b ipld db fuel root ≡ some (ok res)
    → (c : Cid) → (elem c res ≡ true) ↔ (Reach (get b db) ipld root c × (get b db c ≡ ok none))
unfolding missing_blocks
missing_blocks_exact b ipld db fuel root res h c =
    let (t, v, done, same) =
      loop_keeps (get b db) ipld root fuel (record { stack = root ∷ []; missing = [] }) res
        (record {
          queued = λ a m. rw (only a m) here;
          reported = λ a m. absurd (nowhere m);
          covered = λ a p gone. inr (root, ground arith, p);
        })
        h in
    rw (← same) (
      v.reported c,
      λ (p, gone). elim (v.covered c p gone) [
        | inl m ↦ m
        | inr (top, m, _) ↦ absurd (nowhere (rw done at m))
      ],
    )
  where
    only : (a : Cid) → elem a (root ∷ []) ≡ true → a ≡ root
    only a m = ground arith

    nowhere : false ≡ true → ⊥
    nowhere e = cc
