-- ===== src/Store/Missing.antt =====
-- `BitswapStorage::missing_blocks` of crates/ursa-store/src/store.rs, a depth-first walk with no
-- record of what it has seen. `none` says that the fuel ran out; the head of `stack` is its top.
pub mod Exact
pub mod Fuel
use mathlib.Core.List.{reverse}
use ursa.Prelude.{
  resume, ℕ, zero, suc, List, [], ◌∷◌, ◌++◌, Option, none, some, Result, ok, err, panic, ◌>>=◌, ◌≡◌,
  refl,
}
use ursa.Store.{Cid, Bytes, StoreError, BlockStore, Decoder, get}
use ursa.Store.Links.{Lookup}

pub record Search : Type 0 where
  pub stack : List Cid
  pub missing : List Cid

-- What one round makes of the Cid that it popped, from what the store holds for it.
pub expand : Decoder → Cid → Search → Option Bytes → Result StoreError Search
expand ipld cid s none = ok (record s { missing = s.missing ++ cid ∷ [] })
expand ipld cid s (some bytes) = do
  links ← ipld.references cid bytes
  ok (record s { stack = reverse links ++ s.stack })

pub visit : Lookup → Decoder → Cid → Search → Result StoreError Search
visit fetch ipld cid s = do block ← fetch cid; expand ipld cid s block

-- A round's result decides whether the walk goes on.
pub loop : Lookup → Decoder → ℕ → Search → Option (Result StoreError (List Cid))
loop fetch ipld zero s = elim s.stack [ [] ↦ some (ok s.missing) | _ ∷ _ ↦ none ]
loop fetch ipld (suc fuel) s = elim s.stack [
  | [] ↦ some (ok s.missing)
  | cid ∷ rest ↦ resume (loop fetch ipld fuel) (visit fetch ipld cid (record s { stack = rest }))
]

unfoldable pub missing_blocks :
    (b : BlockStore) → Decoder → b.Db → ℕ → Cid → Option (Result StoreError (List Cid))
unfolding loop visit expand get
missing_blocks b ipld db fuel root =
    loop (get b db) ipld fuel (record { stack = root ∷ []; missing = [] })
