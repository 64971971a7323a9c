-- ===== src/Index/Provider.antt =====
-- `Provider` of crates/ursa-index-provider/src/provider.rs. The fields behind locks are fields; a call
-- holds the locks that it takes to its end. The block store, which names each object that it is
-- given, and the codecs are parameters. A method returns the provider that it leaves behind also
-- where it fails.
pub mod Chains
pub mod Growth
pub mod Failures
pub mod Encoding
pub mod Crawl
pub mod Http
pub mod Tests
use mathlib.Core.Option
use ursa.Prelude.{
  ℕ, List, [], ◌∷◌, ◌++◌, Option, none, some, lookup, insert, erase, Result, ok, err, panic, ◌>>=◌,
  ◌>>◌, unwrap, map_err,
}
use ursa.Store.{Cid, Bytes}
use ursa.Index.Advertisement.{
  Ipld, link, bytes, Advertisement, EntryChunk, AdSigError, Codecs, new_chunk, sign,
}

pub data ProviderError : Type 0 where
  ad_not_found no_head bad_cid store_error conversion_error address_error : ProviderError
  sig_error : AdSigError → ProviderError

pub data Object : Type 0 where
  chunk : EntryChunk → Object
  ad : Advertisement → Object

-- The block store of the provider, and the conversions from and to its format.
pub record ObjectStore : Type 1 where
  pub Db : Type 0
  pub put_obj : Db → Object → Result ProviderError (Cid × Db)
  pub get_obj : Db → Cid → Option Object
  pub get_bytes : Db → Cid → Result ProviderError (Option Bytes)
  pub decode_entries : Bytes → Result ProviderError (List Ipld)
  pub to_ipld : Advertisement → Result ProviderError (Unit {0})

pub record Provider (Db : Type 0) : Type 0 where
  pub head : Option Cid
  pub root_cids : List Cid
  pub keypair : ℕ
  pub blockstore : Db
  pub temp_ads : List (ℕ × Advertisement)

unfoldable pub new_provider : {Db : Type 0} → ℕ → Db → Provider Db
new_provider keypair db = record {
  head = none;
  root_cids = [];
  keypair = keypair;
  blockstore = db;
  temp_ads = [];
}

-- `id` is the random number that names the draft.
unfoldable pub create : {Db : Type 0} → ℕ → Provider Db → Advertisement → Provider Db × ℕ
create id p a = (record p { temp_ads = insert id (record a { entries = none }) p.temp_ads }, id)

module _ (o : ObjectStore) where
  -- A draft's entries are a chain of chunks, the newest first.
  abbrev pub linked :
      ℕ
      → Advertisement
      → Provider o.Db
      → Result ProviderError (Cid × o.Db)
      → Provider o.Db × Result ProviderError (Unit {0})
  linked id a p (ok (cid, db)) = (
    record p {
      blockstore = db;
      temp_ads = insert id (record a { entries = some (link cid) }) p.temp_ads;
    },
    ok tt,
  )
  linked id a p (err e) = (p, err store_error)
  linked id a p panic = (p, panic)

  abbrev pub add_entries :
      Provider o.Db
      → ℕ
      → Result ProviderError (List Ipld)
      → Provider o.Db × Result ProviderError (Unit {0})
  add_entries p id (ok entries) = elim (lookup id p.temp_ads) [
    | none ↦ (p, err ad_not_found)
    | some a ↦ linked id a p (o.put_obj p.blockstore (chunk (new_chunk entries a.entries)))
  ]
  add_entries p id (err _) = (p, panic)
  add_entries p id panic = (p, panic)

  unfoldable pub add_chunk :
      Provider o.Db → Bytes → ℕ → Provider o.Db × Result ProviderError (Unit {0})
  add_chunk p encoded id = add_entries p id (o.decode_entries encoded)

  module _ (c : Codecs) where
    -- The draft, linked to the last advertisement, signed.
    pub finish : ℕ → Option Cid → Advertisement → Result ProviderError Advertisement
    finish keypair previous a = do
      let linked_ad = record a { previous_id = Option.map link previous }
      sig ← map_err sig_error (sign c keypair linked_ad)
      ok (record linked_ad { signature = bytes sig })

    pub store_ad : o.Db → Advertisement → Result ProviderError (Cid × o.Db)
    store_ad db a = do o.to_ipld a; o.put_obj db (ad a)

    abbrev pub published :
        Provider o.Db
        → Result ProviderError (Cid × o.Db)
        → Provider o.Db × Result ProviderError (Unit {0})
    published p (ok (cid, db)) = (record p { blockstore = db; head = some cid }, ok tt)
    published p (err e) = (p, err e)
    published p panic = (p, panic)

    -- The head is taken first, and set only at the end.
    unfoldable pub publish : Provider o.Db → ℕ → Provider o.Db × Result ProviderError (Unit {0})
    unfolding finish store_ad
    publish p id =
        let taken = record p { head = none } in
        elim (lookup id p.temp_ads) [
          | none ↦ (taken, err ad_not_found)
          | some a ↦
              published (record taken { temp_ads = erase id p.temp_ads })
                (finish p.keypair p.head a >>= λ signed. store_ad p.blockstore signed)
        ]

  -- GET /:cid, with the Cid already parsed or not.
  unfoldable pub get_block : Provider o.Db → Option Cid → Result ProviderError Bytes
  get_block p none = err bad_cid
  get_block p (some cid) = do
    found ← o.get_bytes p.blockstore cid
    elim found [ none ↦ err ad_not_found | some b ↦ ok b ]
