-- ===== src/Index/Advertisement/Tests.antt =====
-- An advertisement with a link, and one whose entries are bytes.
use ursa.Prelude.{◌≡◌, refl, [], ◌∷◌, some, true, ok, err}
use ursa.Index.Advertisement.{
  link, bytes, Advertisement, invalid_entry_chunk_link, Codecs, sig_payload,
}
use ursa.Index.Advertisement.Signing.{sig_payload-outcome}

abbrev pub plain : Codecs
plain = record {
  serialize = λ protocol payload. ok (protocol ∷ payload);
  cid_bytes = λ cid. cid ∷ [];
  base58 = λ peer. peer ∷ [];
  sha2_256 = λ b. 18 ∷ b;
  domain = 1 ∷ [];
  codec = 2 ∷ [];
  envelope = λ keypair domain codec payload. ok (keypair ∷ payload);
}

abbrev pub sample : Advertisement
sample = record {
  previous_id = some (link 4);
  provider = 7 ∷ [];
  addresses = (6 ∷ 0 ∷ []) ∷ [];
  signature = bytes [];
  entries = some (link 9);
  context_id = bytes (5 ∷ []);
  metadata = bytes (3 ∷ []);
  is_rm = true;
}

payload : sig_payload plain sample ≡ ok (18 ∷ 4 ∷ 9 ∷ 7 ∷ 6 ∷ 0 ∷ 3 ∷ 1 ∷ [])
unfolding sig_payload
payload = refl

sig_payload-outcome_example :
    sig_payload plain (record sample { entries = some (bytes []) }) ≡ err invalid_entry_chunk_link
sig_payload-outcome_example =
    sig_payload-outcome plain (record sample { entries = some (bytes []) })
