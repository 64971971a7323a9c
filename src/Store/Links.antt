-- ===== src/Store/Links.antt =====
-- The DAG that a lookup of blocks and a decoder span: links between Cids, and what a root reaches.
use ursa.Prelude.{◌≡◌, List, Option, some, true, elem, Result, ok, arith}
use ursa.Store.{Cid, Bytes, StoreError, Decoder}

abbrev pub Lookup : Type 0
Lookup = Cid → Result StoreError (Option Bytes)

module _ (fetch : Lookup) (ipld : Decoder) where
  -- The block of `c` is stored, and links to `d`.
  pub record Link (c d : Cid) : Type 0 where
    pub bytes : Bytes
    pub links : List Cid
    pub stored : fetch c ≡ ok (some bytes)
    pub decoded : ipld.references c bytes ≡ ok links
    pub listed : elem d links ≡ true

  pub data Reach (root : Cid) : Cid → Type 0 where
    here : Reach root root
    step : {c d : Cid} → Reach root c → Link c d → Reach root d

  -- A link of a block whose links are known is one of them.
  pub Link-listed :
      (c d : Cid) (bytes : Bytes) (links : List Cid)
      → fetch c ≡ ok (some bytes)
      → ipld.references c bytes ≡ ok links
      → Link c d
      → elem d links ≡ true
  Link-listed c d bytes links e l link =
      let same : bytes ≡ link.bytes = cc in
      let same_links : links ≡ link.links = ground arith in rw same_links link.listed

  -- The lookup answers, and every stored block decodes.
  pub record IsReadable : Type 0 where
    pub answers : (c : Cid) → (block : Option Bytes) × (fetch c ≡ ok block)
    pub decodes :
        (c : Cid) (bytes : Bytes)
        → fetch c ≡ ok (some bytes)
        → (links : List Cid) × (ipld.references c bytes ≡ ok links)
