-- ===== src/Node/Identity/Layout.antt =====
-- The layout of a key file's contents: 16 bytes of header, 32 of the secret key, 5 of separator, 32 of the
-- public key.
use ursa.Prelude.{
  ℕ, zero, suc, ◌+◌, ◌≤◌, ◌≡◌, refl, ap, ◌∙◌, [], ◌∷◌, ◌++◌, take, drop, length, length-append,
  length-drop, take-append-drop, arith,
}
use ursa.Store.{Bytes}
use ursa.Node.Identity.{pem_contents, key_parts, pubkey_separator}

take-append : (n : ℕ) (xs ys : Bytes) → n ≡ length xs → take n (xs ++ ys) ≡ xs
take-append zero [] ys h = refl
take-append (suc n) [] ys h = absurd (omega arith)
take-append zero (x ∷ xs) ys h = absurd (omega arith)
take-append (suc n) (x ∷ xs) ys h = ap (◌∷◌ x) (take-append n xs ys (omega arith))

drop-append : (m n : ℕ) (xs ys : Bytes) → m ≡ length xs + n → drop m (xs ++ ys) ≡ drop n ys
drop-append m n [] ys h = let same : m ≡ n = omega arith in ap (λ k. drop k ys) same
drop-append zero n (x ∷ xs) ys h = absurd (omega arith)
drop-append (suc m) n (x ∷ xs) ys h = drop-append m n xs ys (omega arith)

length-take : (n : ℕ) (xs : Bytes) → n ≤ length xs → length (take n xs) ≡ n
length-take zero xs h = refl
length-take (suc n) [] h = absurd (omega arith)
length-take (suc n) (x ∷ xs) h = ap suc (length-take n xs (omega arith))

pub length-pem_contents : (key : Bytes) → length key ≡ 64 → length (pem_contents key) ≡ 85
unfolding pem_contents
length-pem_contents key h = omega (
  arith,
  length-append (take 32 key) (pubkey_separator ++ drop 32 key),
  length-take 32 key (omega arith),
  length-drop 32 key,
)

-- What `load` copies out of the contents that `encode_pem` lays out are the 64 bytes of the key.
pub key_parts-pem_contents : (key : Bytes) → length key ≡ 64 → key_parts (pem_contents key) ≡ key
unfolding key_parts pem_contents
key_parts-pem_contents key h =
    let secret = length-take 32 key (omega arith) in
    ap_both (take-append 32 (take 32 key) (pubkey_separator ++ drop 32 key) (omega arith))
      (drop-append 37 5 (take 32 key) (pubkey_separator ++ drop 32 key) (omega arith))
    ∙ take-append-drop 32 key
  where
    ap_both : {a b c d : Bytes} → a ≡ b → c ≡ d → a ++ c ≡ b ++ d
    ap_both p q = rw (p, q) refl
