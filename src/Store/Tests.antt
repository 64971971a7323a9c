-- ===== src/Store/Tests.antt =====
-- A small store with a diamond of blocks, a store with a gap, and the theorems at these.
use ursa.Prelude.{
  ℕ, ◌+◌, ◌-◌, ◌<◌, ◌≡◌, refl, ◌↔◌, ◌⊎◌, List, [], ◌∷◌, some, none, true, elem, Distinct, lookup,
  insert, is_some, Result, ok, err, arith,
}
use ursa.Store.{Cid, Bytes, StoreError, missing_part, BlockStore, Decoder, get}
use ursa.Store.Links.{Link, Reach, IsReadable}
use ursa.Store.Missing.{missing_blocks}
use ursa.Store.Missing.Exact.{missing_blocks_exact}
use ursa.Store.Missing.Fuel.{IsAcyclic, missing_blocks_ends}
use ursa.Store.Dag.{Order, dag_traversal}
use ursa.Store.Dag.Contents.{Stored, dag_traversal_exact}
use ursa.Store.Dag.Fuel.{Covers, rounds, dag_traversal_ends}
use ursa.Store.Dag.Outcome.{IsHealthy, dag_traversal_decides}

abbrev pub table_store : BlockStore
table_store = record {
  Db = List (Cid × Bytes);
  exists = λ db c. ok (is_some (lookup c db));
  read = λ db c. ok (lookup c db);
  write = λ db c bytes. ok (insert c bytes db);
  get = λ db c. ok (lookup c db);
  has = λ db c. ok (is_some (lookup c db));
}

-- The bytes of a block are its links.
abbrev pub plain_decoder : Decoder
plain_decoder = record { verifies = λ c bytes. true; references = λ c bytes. ok bytes }

pub first-elem_head : (c : Cid) (cs : List Cid) → elem c (c ∷ cs) ≡ true
first-elem_head c cs = ground arith

abbrev pub newest_first : Order
newest_first = record { first = λ c cs. c; first-elem = first-elem_head }

-- 1 links to 2 and 3, and 2 links to 3.
abbrev pub diamond : List (Cid × Bytes)
diamond = (1, 2 ∷ 3 ∷ []) ∷ (2, 3 ∷ []) ∷ (3, []) ∷ []

-- 1 links to 2 and 4, and 4 is not stored.
abbrev pub gap : List (Cid × Bytes)
gap = (1, 2 ∷ 4 ∷ []) ∷ (2, []) ∷ []

abbrev pub all : List Cid
all = 1 ∷ 2 ∷ 3 ∷ []

traversed :
    dag_traversal newest_first table_store plain_decoder diamond 9 1
    ≡ some (ok ((1, 2 ∷ 3 ∷ []) ∷ (3, []) ∷ (2, 3 ∷ []) ∷ []))
unfolding dag_traversal
traversed = refl

lacking : missing_blocks table_store plain_decoder gap 9 1 ≡ some (ok (4 ∷ []))
unfolding missing_blocks
lacking = refl

pub diamond-closed :
    (c d : Cid)
    → elem c all ≡ true
    → Link (λ c. ok (lookup c diamond)) plain_decoder c d
    → elem d all ≡ true
diamond-closed c d m l = ground arith

diamond-Covers : Covers (λ c. ok (lookup c diamond)) plain_decoder 1 all
diamond-Covers = record { has_root = refl; closed = diamond-closed }

pub readable : (db : List (Cid × Bytes)) → IsReadable (λ c. ok (lookup c db)) plain_decoder
readable db = record { answers = λ c. (lookup c db, refl); decodes = λ c bytes e. (bytes, refl) }

gap-falls : (c d : Cid) → Link (get table_store gap) plain_decoder c d → 5 - d < 5 - c
unfolding get
gap-falls c d l = ground arith

gap-IsAcyclic : IsAcyclic (get table_store gap) plain_decoder
gap-IsAcyclic = record { rank = λ c. 5 - c; falls = gap-falls }

gap-IsReadable : IsReadable (get table_store gap) plain_decoder
unfolding get
gap-IsReadable = readable gap

diamond-IsHealthy : IsHealthy (λ c. ok (lookup c diamond)) plain_decoder
diamond-IsHealthy = record { readable = readable diamond; verified = λ c bytes e. refl }

dag_traversal_exact_example :
    ((c : Cid)
      → (elem c (1 ∷ 3 ∷ 2 ∷ []) ≡ true) ↔ Reach (table_store.get diamond) plain_decoder 1 c)
    × Distinct (1 ∷ 3 ∷ 2 ∷ [])
    × Stored (table_store.get diamond) ((1, 2 ∷ 3 ∷ []) ∷ (3, []) ∷ (2, 3 ∷ []) ∷ [])
dag_traversal_exact_example =
    dag_traversal_exact newest_first table_store plain_decoder diamond 9 1 _ traversed

dag_traversal_ends_example :
    (r : Result StoreError (List (Cid × Bytes))) × (dag_traversal newest_first table_store
        plain_decoder diamond
        (rounds all)
        1
      ≡ some r)
dag_traversal_ends_example =
    dag_traversal_ends newest_first table_store plain_decoder diamond 1 all diamond-Covers

dag_traversal_decides_example :
    ((res : List (Cid × Bytes)) × (dag_traversal newest_first table_store plain_decoder diamond
          (rounds all)
          1
        ≡ some (ok res))
      × ((c : Cid)
          → Reach (table_store.get diamond) plain_decoder 1 c
          → (bytes : Bytes) × (table_store.get diamond c ≡ ok (some bytes))))
    ⊎ ((c : Cid) × Reach (table_store.get diamond) plain_decoder 1 c
        × (table_store.get diamond c ≡ ok none)
        × (dag_traversal newest_first table_store plain_decoder diamond (rounds all) 1
            ≡ some (err missing_part)))
dag_traversal_decides_example =
    dag_traversal_decides newest_first table_store plain_decoder diamond 1 all diamond-Covers
      diamond-IsHealthy

missing_blocks_exact_example :
    (elem 4 (4 ∷ []) ≡ true)
    ↔ (Reach (get table_store gap) plain_decoder 1 4 × (get table_store gap 4 ≡ ok none))
missing_blocks_exact_example =
    missing_blocks_exact table_store plain_decoder gap 9 1 (4 ∷ []) lacking 4

missing_blocks_ends_example :
    (enough : ℕ) × (res : List Cid) × ((extra : ℕ)
      → missing_blocks table_store plain_decoder gap (extra + enough) 1 ≡ some (ok res))
missing_blocks_ends_example =
    missing_blocks_ends table_store plain_decoder gap 1 gap-IsReadable gap-IsAcyclic
