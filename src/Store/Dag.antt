-- ===== src/Store/Dag.antt =====
-- `Store::dag_traversal` of crates/ursa-store/src/store.rs. The set `current` is a list, and which of
-- its elements `iter().next()` yields is a parameter; `none` says that the fuel ran out.
pub mod Rounds
pub mod Contents
pub mod Fuel
pub mod Outcome
use ursa.Prelude.{
  resume, ℕ, zero, suc, List, [], ◌∷◌, ◌++◌, map, Option, none, some, ◌≡◌, true, elem, remove,
  add_all, if◌then◌else◌, Result, ok, err, ◌>>=◌, ◌>>◌, ensure_or_panic,
}
use ursa.Store.{Cid, Bytes, StoreError, missing_part, BlockStore, Decoder}
use ursa.Store.Links.{Lookup}

-- The iteration order of a hash set: some element of a set that is not empty.
pub record Order : Type 0 where
  pub first : Cid → List Cid → Cid
  pub first-elem : (c : Cid) (cs : List Cid) → elem (first c cs) (c ∷ cs) ≡ true

pub record Walk : Type 0 where
  pub current : List Cid
  pub refs : List Cid
  pub res : List (Cid × Bytes)

abbrev pub keys : List (Cid × Bytes) → List Cid
keys = map (λ e. e.0)

pub expand : Decoder → Cid → Walk → Option Bytes → Result StoreError Walk
expand ipld cid w none = err missing_part
expand ipld cid w (some bytes) = do
  ensure_or_panic (ipld.verifies cid bytes)
  links ← ipld.references cid bytes
  ok (record {
    current = add_all links w.current;
    refs = cid ∷ w.refs;
    res = w.res ++ (cid, bytes) ∷ [];
  })

pub fetch_block : Lookup → Decoder → Cid → Walk → Result StoreError Walk
fetch_block fetch ipld cid w = do block ← fetch cid; expand ipld cid w block

-- One round of the loop, after `cid` left `current`.
pub visit : Lookup → Decoder → Cid → Walk → Result StoreError Walk
visit fetch ipld cid w = if elem cid w.refs then ok w else fetch_block fetch ipld cid w

pub loop : Order → Lookup → Decoder → ℕ → Walk → Option (Result StoreError (List (Cid × Bytes)))
loop order fetch ipld zero w = elim w.current [ [] ↦ some (ok w.res) | _ ∷ _ ↦ none ]
loop order fetch ipld (suc fuel) w = elim w.current [
  | [] ↦ some (ok w.res)
  | c ∷ cs ↦
      let cid = order.first c cs in
      resume (loop order fetch ipld fuel)
        (visit fetch ipld cid (record w { current = remove cid (c ∷ cs) }))
]

abbrev pub start : Cid → Walk
start root = record { current = root ∷ []; refs = []; res = [] }

unfoldable pub dag_traversal :
    Order
    → (b : BlockStore) → Decoder
    → b.Db
    → ℕ
    → Cid
    → Option (Result StoreError (List (Cid × Bytes)))
unfolding loop visit fetch_block expand
dag_traversal order b ipld db fuel root = loop order (b.get db) ipld fuel (start root)
