-- ===== src/Index/Advertisement.antt =====
-- crates/ursa-index-provider/src/advertisement.rs. Texts are their bytes. What bincode, multihash and the
-- envelopes of libp2p compute is a parameter.
pub mod Signing
pub mod Tests
use ursa.Prelude.{
  ℕ, List, [], ◌∷◌, ◌++◌, Option, none, some, Bool, true, false, if◌then◌else◌, Result, ok, err,
  panic, ◌>>=◌, unwrap, map_err,
}
use ursa.Store.{Cid, Bytes}

-- The values that an advertisement can hold: links, byte strings, and the other kinds.
pub data Ipld : Type 0 where
  link : Cid → Ipld
  bytes : Bytes → Ipld
  other : ℕ → Ipld

abbrev pub max_entries : ℕ
max_entries = 6250000

pub record Advertisement : Type 0 where
  pub previous_id : Option Ipld
  pub provider : Bytes
  pub addresses : List Bytes
  pub signature : Ipld
  pub entries : Option Ipld
  pub context_id : Ipld
  pub metadata : Ipld
  pub is_rm : Bool

pub record EntryChunk : Type 0 where
  pub entries : List Ipld
  pub next : Option Ipld

pub data AdSigError : Type 0 where
  invalid_previous_id invalid_entry_chunk_link invalid_metadata missing_sig : AdSigError
  signing_error decoding_error read_payload_error payload_did_not_match : AdSigError

-- The libraries below: a serialiser of (protocol, data), the bytes of a Cid and of a peer's name,
-- SHA-256 as a multihash, and a signed envelope over (domain, codec, payload) in its encoding.
pub record Codecs : Type 0 where
  pub serialize : ℕ → Bytes → Result AdSigError Bytes
  pub cid_bytes : Cid → Bytes
  pub base58 : ℕ → Bytes
  pub sha2_256 : Bytes → Bytes
  pub domain : Bytes
  pub codec : Bytes
  pub envelope : ℕ → Bytes → Bytes → Bytes → Result AdSigError Bytes

-- Protocol 0x0900 is bitswap.
unfoldable pub new_ad : Codecs → Bytes → ℕ → List Bytes → Bool → Result AdSigError Advertisement
new_ad c context_id provider addresses is_rm = do
  metadata ← unwrap (c.serialize 0x0900 [])
  ok (record {
    previous_id = none;
    provider = c.base58 provider;
    addresses = addresses;
    signature = bytes [];
    entries = none;
    context_id = bytes context_id;
    metadata = bytes metadata;
    is_rm = is_rm;
  })

unfoldable pub new_chunk : List Ipld → Option Ipld → EntryChunk
new_chunk entries next = record { entries = entries; next = next }

-- A link's bytes, none for no link, and an error for anything else.
pub link_bytes : Codecs → AdSigError → Option Ipld → Result AdSigError Bytes
link_bytes c e none = ok []
link_bytes c e (some (link cid)) = ok (c.cid_bytes cid)
link_bytes c e (some (bytes _)) = err e
link_bytes c e (some (other _)) = err e

pub metadata_bytes : Ipld → Result AdSigError Bytes
metadata_bytes (bytes b) = ok b
metadata_bytes (link _) = err invalid_metadata
metadata_bytes (other _) = err invalid_metadata

abbrev pub concat : List Bytes → Bytes
concat [] = []
concat (b ∷ bs) = b ++ concat bs

unfoldable pub sig_payload : Codecs → Advertisement → Result AdSigError Bytes
unfolding link_bytes metadata_bytes
sig_payload c ad = do
  previous_id ← link_bytes c invalid_previous_id ad.previous_id
  entrychunk_link ← link_bytes c invalid_entry_chunk_link ad.entries
  metadata ← metadata_bytes ad.metadata
  ok (
      c.sha2_256 (
        previous_id
        ++ (entrychunk_link
            ++ (ad.provider
                ++ (concat ad.addresses ++ (metadata ++ (if ad.is_rm then 1 else 0) ∷ []))))))

unfoldable pub sign : Codecs → ℕ → Advertisement → Result AdSigError Bytes
unfolding sig_payload
sign c keypair ad = do
  payload ← sig_payload c ad
  map_err (λ _. signing_error) (c.envelope keypair c.domain c.codec payload)
