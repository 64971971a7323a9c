-- ===== src/Index/Announcement.antt =====
-- The announcement of the head to an indexer: `Message` and `Provider::create_announce_msg` of
-- crates/ursa-index-provider/src/provider.rs. The CBOR codecs are parameters, and so is the address that
-- the configured domain and the peer id give, if they parse.
use ursa.Prelude.{
  List, [], ◌∷◌, ◌++◌, Option, none, some, Result, ok, err, ◌>>=◌, unwrap, some_or_panic,
}
use ursa.Store.{Cid, Bytes}
use ursa.Index.Provider.{Provider, ProviderError, address_error}

pub record Message : Type 0 where
  pub cid : Cid
  pub addrs : List Bytes

pub record Cbor : Type 0 where
  pub encode_cid : Cid → Bytes
  pub encode_addrs : List Bytes → Result ProviderError Bytes
  pub encode_extra : Bytes

-- An array of three (131): the Cid, the addresses, and no extra data.
unfoldable pub marshal_cbor : Cbor → Message → Result ProviderError Bytes
marshal_cbor c m = do
  encoded_addrs ← unwrap (c.encode_addrs m.addrs)
  ok (131 ∷ (c.encode_cid m.cid ++ (encoded_addrs ++ c.encode_extra)))

abbrev pub parsed_address : Option Bytes → Result ProviderError Bytes
parsed_address none = err address_error
parsed_address (some addr) = ok addr

-- An address that does not parse is an error; then a missing head is a panic.
unfoldable pub create_announce_msg :
    {Db : Type 0} → Cbor → Option Bytes → Provider Db → Result ProviderError Bytes
unfolding marshal_cbor
create_announce_msg c http_address p = do
  multiaddr ← parsed_address http_address
  head_cid ← some_or_panic p.head
  unwrap (marshal_cbor c (record { cid = head_cid; addrs = multiaddr ∷ [] }))
