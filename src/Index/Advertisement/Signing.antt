-- ===== src/Index/Advertisement/Signing.antt =====
-- Which advertisements can be signed, and what the signature covers.
use ursa.Prelude.{
  ◌≡◌, refl, [], ◌∷◌, ◌++◌, Option, none, some, Bool, true, false, if◌then◌else◌, Result, ok, err,
  ◌>>=◌,
}
use ursa.Store.{Bytes}
use ursa.Index.Advertisement.{
  Ipld, link, bytes, other, Advertisement, AdSigError, invalid_previous_id,
  invalid_entry_chunk_link, invalid_metadata, Codecs, concat, sig_payload, link_bytes,
  metadata_bytes,
}

-- The first field that cannot be signed, in the order of the checks.
abbrev is_link : Option Ipld → Bool
is_link none = true
is_link (some (link _)) = true
is_link (some (bytes _)) = false
is_link (some (other _)) = false

abbrev is_bytes : Ipld → Bool
is_bytes (bytes _) = true
is_bytes (link _) = false
is_bytes (other _) = false

abbrev pub fault : Advertisement → Option AdSigError
fault ad =
    if is_link ad.previous_id
    then (if is_link ad.entries
        then (if is_bytes ad.metadata then none else some invalid_metadata)
        else some invalid_entry_chunk_link)
    else some invalid_previous_id

-- The bytes of a field that can be signed.
abbrev link_part : Codecs → Option Ipld → Bytes
link_part c (some (link cid)) = c.cid_bytes cid
link_part c _ = []

abbrev bytes_part : Ipld → Bytes
bytes_part (bytes b) = b
bytes_part _ = []

abbrev pub covered : Codecs → Advertisement → Bytes
covered c ad =
    link_part c ad.previous_id
    ++ (link_part c ad.entries
        ++ (ad.provider
            ++ (concat ad.addresses
                ++ (bytes_part ad.metadata ++ (if ad.is_rm then 1 else 0) ∷ []))))

abbrev pub outcome : Codecs → Advertisement → Option AdSigError → Result AdSigError Bytes
outcome c ad none = ok (c.sha2_256 (covered c ad))
outcome c ad (some e) = err e

link_bytes_lem :
    (c : Codecs) (e : AdSigError) (o : Option Ipld)
    → link_bytes c e o ≡ (if is_link o then ok (link_part c o) else err e)
unfolding link_bytes
link_bytes_lem c e none = refl
link_bytes_lem c e (some (link _)) = refl
link_bytes_lem c e (some (bytes _)) = refl
link_bytes_lem c e (some (other _)) = refl

metadata_bytes_lem :
    (m : Ipld) → metadata_bytes m ≡ (if is_bytes m then ok (bytes_part m) else err invalid_metadata)
unfolding metadata_bytes
metadata_bytes_lem (bytes _) = refl
metadata_bytes_lem (link _) = refl
metadata_bytes_lem (other _) = refl

-- The payload that is signed is the digest of the links, the provider, the addresses, the metadata and
-- the removal flag, in this order; the first of previous link, entries and metadata that has the
-- wrong kind is the error instead. The context id and the old signature have no part in it.
pub sig_payload-outcome :
    (c : Codecs) (ad : Advertisement) → sig_payload c ad ≡ outcome c ad (fault ad)
unfolding sig_payload
sig_payload-outcome c ad =
    rw
      (
        link_bytes_lem c invalid_previous_id ad.previous_id,
        link_bytes_lem c invalid_entry_chunk_link ad.entries,
        metadata_bytes_lem ad.metadata,
      )
      (go (is_link ad.previous_id) (is_link ad.entries) (is_bytes ad.metadata)
        (link_part c ad.previous_id) (link_part c ad.entries) (bytes_part ad.metadata) (ad.provider)
        (concat ad.addresses) ((if ad.is_rm then 1 else 0) ∷ []))
  where
    go :
        (p e m : Bool) (x y z u v w : Bytes)
        → ((if p then ok x else err invalid_previous_id) >>= λ previous_id.
            (if e then ok y else err invalid_entry_chunk_link) >>= λ entries.
            (if m then ok z else err invalid_metadata) >>= λ metadata.
            ok (c.sha2_256 (previous_id ++ (entries ++ (u ++ (v ++ (metadata ++ w)))))))
          ≡ elim (if p
              then (if e
                  then (if m then none else some invalid_metadata)
                  else some invalid_entry_chunk_link)
              else some invalid_previous_id) [
                | none ↦ ok (c.sha2_256 (x ++ (y ++ (u ++ (v ++ (z ++ w))))))
                | some fault ↦ err fault
              ]
    go true true true x y z u v w = refl
    go true true false x y z u v w = refl
    go true false m x y z u v w = refl
    go false e m x y z u v w = refl
