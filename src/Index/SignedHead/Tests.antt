-- ===== src/Index/SignedHead/Tests.antt =====
-- Keys whose signature is the message under the number of the key, texts that are the bytes themselves,
-- and the theorems at these.
use ursa.Prelude.{
  ℕ, subst, ok-injective, ◌+◌, ◌≡◌, refl, [], ◌∷◌, some, Bool, true, false, ◌==◌, ==_refl, Result,
  ok, err,
}
use ursa.Store.{Bytes}
use ursa.Index.SignedHead.{SignedHead, Keys, Texts, open_head, head_handler}
use ursa.Index.SignedHead.Opened.{AreKeys, AreTexts}
use ursa.Index.Provider.{Provider}

abbrev pub same_bytes : Bytes → Bytes → Bool
same_bytes [] [] = true
same_bytes [] (y ∷ ys) = false
same_bytes (x ∷ xs) [] = false
same_bytes (x ∷ xs) (y ∷ ys) = elim (x == y) [ true ↦ same_bytes xs ys | false ↦ false ]

abbrev pub decoded : Bytes → Result (Unit {0}) ℕ
decoded [] = err tt
decoded (pk ∷ _) = ok pk

abbrev pub keys : Keys
keys = record {
  public = λ key. key + 1;
  sign = λ key message. ok ((key + 1) ∷ message);
  verify = λ pk message sig. same_bytes sig (pk ∷ message);
  to_protobuf_encoding = λ pk. pk ∷ [];
  from_protobuf_encoding = decoded;
  cid_bytes = λ cid. cid ∷ [];
}

abbrev head : SignedHead
head = record { head = 6; sig = 41 ∷ 6 ∷ []; pubkey = 41 ∷ [] }

opened : open_head keys head ≡ ok (41, 6)
unfolding open_head
opened = refl

same_bytes_refl : (b : Bytes) → same_bytes b b ≡ true
same_bytes_refl [] = refl
same_bytes_refl (x ∷ xs) = rw (==_refl x, same_bytes) (same_bytes_refl xs)

pub keys-AreKeys : AreKeys keys
keys-AreKeys = record {
  verifies = λ key message sig h.
      subst (λ s. same_bytes s ((key + 1) ∷ message) ≡ true) (ok-injective h)
        (same_bytes_refl ((key + 1) ∷ message));
  decodes = λ pk. refl;
}

-- Bytes stand for their own text.
abbrev pub texts : Texts
texts = record {
  Text = Bytes;
  base64_encode = λ b. b;
  base64_decode = λ b. ok b;
  cid_text = λ cid. cid ∷ [];
  cid_of = decoded;
}

pub texts-AreTexts : AreTexts texts
texts-AreTexts = record { base64 = λ b. refl; cids = λ c. refl }

abbrev provider : Provider ℕ
provider = record { head = some 6; root_cids = []; keypair = 40; blockstore = 0; temp_ads = [] }

served : head_handler keys provider ≡ ok head
unfolding head_handler
served = refl
