-- ===== src/Store.antt =====
-- crates/ursa-store/src/store.rs: the block store behind the bitswap behaviour. A `Cid` is the number
-- that names its bytes, so that `convert_cid` between the two Cid types is the identity; the
-- database and the decoder of blocks are parameters. `Links` says what a DAG of blocks is, `Missing`
-- and `Dag` are the two walks over it.
pub mod Links
pub mod Missing
pub mod Dag
pub mod Tests
use ursa.Prelude.{ℕ, List, Option, Bool, Result, ok, ◌>>=◌, unwrap}

abbrev pub Cid : Type 0
Cid = ℕ

abbrev pub Bytes : Type 0
Bytes = List ℕ

-- The errors that the store's callers see.
pub data StoreError : Type 0 where
  db_failure decode_failure missing_part : StoreError

-- The trait of the crate `ipld_blockstore`, with the key-value calls of the database below it.
pub record BlockStore : Type 1 where
  pub Db : Type 0
  pub exists : Db → Cid → Result StoreError Bool
  pub read : Db → Cid → Result StoreError (Option Bytes)
  pub write : Db → Cid → Bytes → Result StoreError Db
  pub get : Db → Cid → Result StoreError (Option Bytes)
  pub has : Db → Cid → Result StoreError Bool

-- What `libipld` makes of a block: whether the bytes match the Cid and the size limit
-- (`Block::new`), and the Cids that it links to (`Block::references`).
pub record Decoder : Type 0 where
  pub verifies : Cid → Bytes → Bool
  pub references : Cid → Bytes → Result StoreError (List Cid)

-- The methods of `BitswapStorage`. A failed read or write is unwrapped.
module _ (b : BlockStore) where
  unfoldable pub contains : b.Db → Cid → Result StoreError Bool
  contains db cid = do found ← b.exists db cid; ok found

  pub get : b.Db → Cid → Result StoreError (Option Bytes)
  get db cid = do bytes ← unwrap (b.read db cid); ok bytes

  unfoldable pub insert : b.Db → Cid → Bytes → Result StoreError b.Db
  insert db cid bytes = unwrap (b.write db cid bytes)
