-- ===== src/Index/SignedHead/Opened.antt =====
-- A signed head opens to the key that signed it and to the Cid that it was signed for.
use ursa.Prelude.{
  ℕ, ◌≡◌, refl, ap, subst, sym, some, Bool, true, false, if◌then◌else◌, Result, ok, err, map_err,
  >>=-eq-ok, ok-injective, map_err-eq-ok,
}
use ursa.Store.{Cid, Bytes}
use ursa.Index.SignedHead.{
  SignedHead, SignedHeadError, invalid_public_key, invalid_signature, signing_failed, Keys,
  new_head, open_head, Texts, serialize, deserialize, head_handler,
}
use ursa.Index.Provider.{Provider}

-- A key verifies what it signed, and encoded keys decode.
pub record AreKeys (k : Keys) : Type 0 where
  pub verifies :
      (key : ℕ) (message sig : Bytes)
      → k.sign key message ≡ ok sig
      → k.verify (k.public key) message sig ≡ true
  pub decodes : (pk : ℕ) → k.from_protobuf_encoding (k.to_protobuf_encoding pk) ≡ ok pk

-- Texts of byte strings and of Cids read back.
pub record AreTexts (t : Texts) : Type 0 where
  pub base64 : (b : Bytes) → t.base64_decode (t.base64_encode b) ≡ ok b
  pub cids : (c : Cid) → t.cid_of (t.cid_text c) ≡ ok c

-- A head that is written to JSON and read back is the same head.
deserialize-serialize :
    (t : Texts) → AreTexts t → (h : SignedHead) → deserialize t (serialize t h) ≡ ok h
unfolding deserialize serialize
deserialize-serialize t texts h =
    rw (texts.cids h.head) (rw (texts.base64 h.sig) (rw (texts.base64 h.pubkey) refl))

-- What `open` accepts was signed: the Cid is the head's, and the key in the head verifies its signature.
pub open_head-ok :
    (k : Keys) (h : SignedHead) (pk : ℕ) (cid : Cid)
    → open_head k h ≡ ok (pk, cid)
    → (cid ≡ h.head)
      × (k.from_protobuf_encoding h.pubkey ≡ ok pk)
      × (k.verify pk (k.cid_bytes h.head) h.sig ≡ true)
unfolding open_head
open_head-ok k h pk cid e =
    let (pk', d, v) =
      >>=-eq-ok (map_err (λ _. invalid_public_key) (k.from_protobuf_encoding h.pubkey)) _ e in
    verdict pk' d (k.verify pk' (k.cid_bytes h.head) h.sig) refl v
  where
    verdict :
        (pk' : ℕ)
        → map_err (λ _. invalid_public_key) (k.from_protobuf_encoding h.pubkey) ≡ ok pk'
        → (valid : Bool) → k.verify pk' (k.cid_bytes h.head) h.sig ≡ valid
        → if◌then◌else◌ {A = Result SignedHeadError (ℕ × Cid)} valid
            (ok (pk', h.head))
            (err invalid_signature)
          ≡ ok (pk, cid)
        → (cid ≡ h.head)
          × (k.from_protobuf_encoding h.pubkey ≡ ok pk)
          × (k.verify pk (k.cid_bytes h.head) h.sig ≡ true)
    verdict pk' d true valid v =
        let same : ◌≡◌ {A = ℕ × Cid} (pk', h.head) (pk, cid) = ok-injective v in
        let keys = ap (λ r. r.0) same in
        (
          sym (ap (λ r. r.1) same),
          subst (λ q. k.from_protobuf_encoding h.pubkey ≡ ok q) keys (map_err-eq-ok _ _ d),
          subst (λ q. k.verify q (k.cid_bytes h.head) h.sig ≡ true) keys valid,
        )
    verdict pk' d false valid v = absurd (clash v)
      where
        clash :
            ◌≡◌ {A = Result SignedHeadError (ℕ × Cid)} (err invalid_signature) (ok (pk, cid)) → ⊥
        clash e = cc

-- The head that the provider serves, written to JSON and read back, opens to the provider's public key and
-- to the provider's head.
pub head_handler_opens :
    {Db : Type 0} (k : Keys) (t : Texts) (p : Provider Db) (cid : Cid) (h : SignedHead)
    → AreKeys k
    → AreTexts t
    → p.head ≡ some cid
    → head_handler k p ≡ ok h
    → (deserialize t (serialize t h) ≡ ok h) × (open_head k h ≡ ok (k.public p.keypair, cid))
unfolding head_handler new_head open_head
head_handler_opens k t p cid h keys texts at e =
    let made =
      map_err-eq-ok (λ _. signing_failed) (new_head k p.keypair cid) (rw (at, head_handler) at e) in
    let (sig, signed, same) = >>=-eq-ok (k.sign p.keypair (k.cid_bytes cid)) _ made in
    (
      deserialize-serialize t texts h,
      subst (λ x. open_head k x ≡ ok (k.public p.keypair, cid)) (ok-injective same)
          (rw (keys.decodes (k.public p.keypair))
            (rw (keys.verifies p.keypair (k.cid_bytes cid) sig signed) refl)),
    )
