-- ===== src/Store/Dag/Contents.antt =====
-- What `dag_traversal` returns, when it returns: exactly the blocks that the root reaches.
use ursa.Prelude.{
  ◌∙◌, ◌==◌, ◌||◌, ℕ, ◌≡◌, refl, sym, subst, ◌⊎◌, inl, inr, ◌↔◌, List, [], ◌∷◌, ◌++◌, some, true,
  false, elem, remove, Distinct, elem-remove, elem-add_all, Bool-cases, ok, arith, ==_iff,
}
use ursa.Store.{Cid, Bytes, BlockStore, Decoder}
use ursa.Store.Links.{Lookup, Link, Reach, here, step, Link-listed}
use ursa.Store.Dag.{Order, Walk, keys, visit, start, dag_traversal}
use ursa.Store.Dag.Rounds.{Found, visit-ok, popped, loop_rule}

-- Each entry holds what the lookup gives for its key.
abbrev pub Stored : Lookup → List (Cid × Bytes) → Type 0
Stored fetch [] = Unit {0}
Stored fetch ((c, bytes) ∷ es) = (fetch c ≡ ok (some bytes)) × Stored fetch es

Stored-concat :
    (fetch : Lookup) (c : Cid) (bytes : Bytes) (es : List (Cid × Bytes))
    → fetch c ≡ ok (some bytes)
    → Stored fetch es
    → Stored fetch (es ++ (c, bytes) ∷ [])
Stored-concat fetch c bytes [] e s = (e, tt)
Stored-concat fetch c bytes ((d, b) ∷ es) e s = (s.0, Stored-concat fetch c bytes es e s.1)

elem-keys_concat :
    (a c : Cid) (bytes : Bytes) (es : List (Cid × Bytes))
    → elem a (keys (es ++ (c, bytes) ∷ [])) ≡ elem a (c ∷ keys es)
elem-keys_concat a c bytes [] = refl
elem-keys_concat a c bytes (e ∷ es) = ground (arith, elem-keys_concat a c bytes es)

Distinct-keys_concat :
    (c : Cid) (bytes : Bytes) (es : List (Cid × Bytes))
    → elem c (keys es) ≡ false
    → Distinct (keys es)
    → Distinct (keys (es ++ (c, bytes) ∷ []))
Distinct-keys_concat c bytes [] e d = (refl, tt)
Distinct-keys_concat c bytes ((k, b) ∷ es) e d =
    ground (arith, Distinct-keys_concat c bytes es, elem-keys_concat k c bytes es)

module _ (fetch : Lookup) (ipld : Decoder) (root : Cid) where
  record Inv (w : Walk) : Type 0 where
    queued : (c : Cid) → elem c w.current ≡ true → Reach fetch ipld root c
    seen : (c : Cid) → elem c w.refs ≡ true → Reach fetch ipld root c
    keyed : (c : Cid) → elem c (keys w.res) ≡ elem c w.refs
    stored : Stored fetch w.res
    distinct : Distinct (keys w.res)
    source : (elem root w.refs ≡ true) ⊎ (elem root w.current ≡ true)
    closed :
        (c d : Cid)
        → elem c w.refs ≡ true
        → Link fetch ipld c d
        → (elem d w.refs ≡ true) ⊎ (elem d w.current ≡ true)

  only : (c : Cid) → elem c (root ∷ []) ≡ true → c ≡ root
  only c h = ground arith

  Inv-start : Inv (start root)
  Inv-start = record {
    queued = λ c h. rw (only c h) here;
    seen = λ c h. absurd (cc);
    keyed = λ c. refl;
    stored = tt;
    distinct = tt;
    source = inr (ground arith);
    closed = λ c d h l. absurd (cc);
  }

  -- A Cid that was met before leaves `current`, and nothing else changes.
  Inv-again :
      (cid : Cid) (w : Walk)
      → elem cid w.refs ≡ true
      → Inv w
      → Inv (record w { current = remove cid w.current })
  Inv-again cid w old v = record {
    queued = λ c h. v.queued c (ground (arith, elem-remove c cid w.current));
    seen = v.seen;
    keyed = v.keyed;
    stored = v.stored;
    distinct = v.distinct;
    source = ground (arith, v.source, elem-remove root cid w.current);
    closed = λ c d h l. ground (arith, v.closed c d h l, elem-remove d cid w.current);
  }

  Inv-Found :
      (cid : Cid) (w w' : Walk)
      → elem cid w.current ≡ true
      → Found fetch ipld cid (record w { current = remove cid w.current }) w'
      → Inv w
      → Inv w'
  Inv-Found cid w w' top f v = record {
    queued = λ c h. elim (Bool-cases (elem c f.links)) [
      | inl new ↦ step to_cid (link c new)
      | inr old ↦ v.queued c (ground (arith, added c, elem-remove c cid w.current))
    ];
    seen = λ c h. elim (Bool-cases (c == cid)) [
      | inl e ↦ rw ((==_iff c cid).0 e) to_cid
      | inr e ↦ v.seen c (ground arith)
    ];
    keyed =
        λ c. rw (f.res, f.refs, elem-keys_concat c cid f.bytes w.res) (ground (arith, v.keyed c));
    stored = rw f.res (Stored-concat fetch cid f.bytes w.res f.stored v.stored);
    distinct =
        rw f.res (Distinct-keys_concat cid f.bytes w.res (ground (arith, v.keyed cid)) v.distinct);
    source = ground (arith, v.source, added root, elem-remove root cid w.current);
    closed = λ c d h l. elim (Bool-cases (c == cid)) [
      | inl e ↦ inr (
          ground (
            arith,
            added d,
            Link-listed fetch ipld cid d f.bytes f.links f.stored f.decoded
                (rw ((==_iff c cid).0 e) at l),
          ))
      | inr e ↦ ground (arith, v.closed c d (ground arith) l, added d, elem-remove d cid w.current)
    ];
  }
    where
      to_cid : Reach fetch ipld root cid
      to_cid = v.queued cid top

      link : (d : Cid) → elem d f.links ≡ true → Link fetch ipld cid d
      link d h = record {
        bytes = f.bytes;
        links = f.links;
        stored = f.stored;
        decoded = f.decoded;
        listed = h;
      }

      added : (d : Cid) → elem d w'.current ≡ (elem d f.links || elem d (remove cid w.current))
      added d = rw f.current (elem-add_all d f.links (remove cid w.current))

  Inv-visit :
      (order : Order) (c : Cid) (cs : List Cid) (w w' : Walk)
      → w.current ≡ c ∷ cs
      → Inv w
      → visit fetch ipld (order.first c cs) (popped fetch ipld order c cs w) ≡ ok w'
      → Inv w'
  Inv-visit order c cs w w' e v h =
      let cid = order.first c cs in
      elim (visit-ok fetch ipld cid (popped fetch ipld order c cs w) w' h) [
        | inl (old, same) ↦ rw same (rw e at (Inv-again cid w old v))
        | inr found ↦
            Inv-Found cid w w' (rw e (order.first-elem c cs))
              (subst (λ xs. Found fetch ipld cid (record w { current = remove cid xs }) w') (sym e)
                found)
              v
      ]

  -- With nothing left to visit, the visited Cids are closed under links.
  complete :
      (t : Walk)
      → Inv t
      → t.current ≡ []
      → {c : Cid} → Reach fetch ipld root c
      → elem c t.refs ≡ true
  complete t v e here = ground (arith, v.source)
  complete t v e (step {c} {d} p l) = ground (arith, v.closed c d (complete t v e p) l)

-- When the traversal returns, its entries are the blocks that the root reaches: each key is
-- reachable, each reachable Cid has an entry, none has two, and each holds the stored bytes.
pub dag_traversal_exact :
    (order : Order) (b : BlockStore) (ipld : Decoder) (db : b.Db) (fuel : ℕ) (root : Cid)
    (res : List (Cid × Bytes))
    → dag_traversal order b ipld db fuel root ≡ some (ok res)
    → ((c : Cid) → (elem c (keys res) ≡ true) ↔ Reach (b.get db) ipld root c)
      × Distinct (keys res)
      × Stored (b.get db) res
unfolding dag_traversal
dag_traversal_exact order b ipld db fuel root res h =
    let (t, v, done, same) =
      loop_rule (b.get db) ipld order (Inv (b.get db) ipld root)
        (Inv-visit (b.get db) ipld root order) fuel (start root) res
        (Inv-start (b.get db) ipld root) h in
    rw (← same) (
      λ c. (
        λ m. v.seen c (sym (v.keyed c) ∙ m),
        λ r. v.keyed c ∙ complete (b.get db) ipld root t v done r,
      ),
      v.distinct,
      v.stored,
    )
