-- ===== src/Index/Provider/Encoding.antt =====
-- Bytes for the objects of the test store, where a byte is any number: each value is read with what follows
-- it.
use ursa.Prelude.{
  ℕ, zero, suc, ◌≡◌, refl, ap, List, [], ◌∷◌, ◌++◌, length, take, drop, Option, none, some, Bool,
  true, false,
}
use ursa.Store.{Bytes}
use ursa.Index.Advertisement.{Ipld, link, bytes, other}
use ursa.Index.Provider.{Object, chunk, ad}

infixl 5 ◌>>=◌
abbrev ◌>>=◌ {ℓ κ} : {A : Type ℓ} {B : Type κ} → Option A → (A → Option B) → Option B
none >>= f = none
some a >>= f = f a

abbrev Reader : Type 0 → Type 0
Reader A = Bytes → Option (A × Bytes)

-- What is written is read back, with the rest.
abbrev Reads : {A : Type 0} → (A → Bytes → Bytes) → Reader A → Type 0
Reads {A} write read = (a : A) (r : Bytes) → read (write a r) ≡ some (a, r)

write_bytes : Bytes → Bytes → Bytes
write_bytes b r = length b ∷ (b ++ r)

read_bytes : Reader Bytes
read_bytes [] = none
read_bytes (n ∷ xs) = some (take n xs, drop n xs)

take-append : (b r : Bytes) → take (length b) (b ++ r) ≡ b
take-append [] r = refl
take-append (x ∷ b) r = ap (λ t. x ∷ t) (take-append b r)

drop-append : (b r : Bytes) → drop (length b) (b ++ r) ≡ r
drop-append [] r = refl
drop-append (x ∷ b) r = drop-append b r

read_bytes-write_bytes : Reads write_bytes read_bytes
unfolding write_bytes read_bytes
read_bytes-write_bytes b r = rw (take-append b r, drop-append b r) refl

write_ipld : Ipld → Bytes → Bytes
write_ipld (link c) r = 0 ∷ c ∷ r
write_ipld (bytes b) r = 1 ∷ write_bytes b r
write_ipld (other n) r = 2 ∷ n ∷ r

read_ipld : Reader Ipld
read_ipld [] = none
read_ipld (zero ∷ []) = none
read_ipld (zero ∷ c ∷ r) = some (link c, r)
read_ipld (suc zero ∷ r) = do (b, rest) ← read_bytes r; some (bytes b, rest)
read_ipld (suc (suc _) ∷ []) = none
read_ipld (suc (suc _) ∷ n ∷ r) = some (other n, r)

read_ipld-write_ipld : Reads write_ipld read_ipld
unfolding write_ipld read_ipld
read_ipld-write_ipld (link c) r = refl
read_ipld-write_ipld (bytes b) r = rw (read_bytes-write_bytes b r) refl
read_ipld-write_ipld (other n) r = refl

write_option : Option Ipld → Bytes → Bytes
write_option none r = 0 ∷ r
write_option (some x) r = 1 ∷ write_ipld x r

read_option : Reader (Option Ipld)
read_option [] = none
read_option (zero ∷ r) = some (none, r)
read_option (suc _ ∷ r) = do (x, rest) ← read_ipld r; some (some x, rest)

read_option-write_option : Reads write_option read_option
unfolding write_option read_option
read_option-write_option none r = refl
read_option-write_option (some x) r = rw (read_ipld-write_ipld x r) refl

module _ {A : Type 0} (write : A → Bytes → Bytes) (read : Reader A) where
  abbrev write_all : List A → Bytes → Bytes
  write_all [] r = r
  write_all (x ∷ xs) r = write x (write_all xs r)

  abbrev read_all : ℕ → Reader (List A)
  read_all zero r = some ([], r)
  read_all (suc n) r = do (x, r1) ← read r; (xs, r2) ← read_all n r1; some (x ∷ xs, r2)

  read_all-write_all :
      Reads write read
      → (xs : List A) (r : Bytes) → read_all (length xs) (write_all xs r) ≡ some (xs, r)
  read_all-write_all reads [] r = refl
  read_all-write_all reads (x ∷ xs) r =
      rw (reads x (write_all xs r), read_all-write_all reads xs r) refl

  write_list : List A → Bytes → Bytes
  write_list xs r = length xs ∷ write_all xs r

  read_list : Reader (List A)
  read_list [] = none
  read_list (n ∷ r) = read_all n r

  read_list-write_list :
      Reads write read → (xs : List A) (r : Bytes) → read_list (write_list xs r) ≡ some (xs, r)
  unfolding write_list read_list
  read_list-write_list reads xs r = read_all-write_all reads xs r

write_bool : Bool → Bytes → Bytes
write_bool true r = 1 ∷ r
write_bool false r = 0 ∷ r

read_bool : Reader Bool
read_bool [] = none
read_bool (zero ∷ r) = some (false, r)
read_bool (suc _ ∷ r) = some (true, r)

read_bool-write_bool : Reads write_bool read_bool
unfolding write_bool read_bool
read_bool-write_bool true r = refl
read_bool-write_bool false r = refl

pub write_object : Object → Bytes
write_object (chunk k) = 0 ∷ write_list write_ipld read_ipld k.entries (write_option k.next [])
write_object (ad a) =
    1
    ∷ (write_option a.previous_id (
        write_bytes a.provider (
          write_list write_bytes read_bytes a.addresses (
            write_ipld a.signature (
              write_option a.entries
                (write_ipld a.context_id (write_ipld a.metadata (write_bool a.is_rm []))))))))

pub read_object : Bytes → Option Object
read_object [] = none
read_object (zero ∷ r) = do
  (entries, r1) ← read_list write_ipld read_ipld r
  (next, r2) ← read_option r1
  some (chunk (record { entries = entries; next = next }))
read_object (suc _ ∷ r) = do
  (previous_id, r1) ← read_option r
  (provider, r2) ← read_bytes r1
  (addresses, r3) ← read_list write_bytes read_bytes r2
  (signature, r4) ← read_ipld r3
  (entries, r5) ← read_option r4
  (context_id, r6) ← read_ipld r5
  (metadata, r7) ← read_ipld r6
  (is_rm, r8) ← read_bool r7
  some (
      ad (record {
        previous_id = previous_id;
        provider = provider;
        addresses = addresses;
        signature = signature;
        entries = entries;
        context_id = context_id;
        metadata = metadata;
        is_rm = is_rm;
      }))

pub read-write_object : (x : Object) → read_object (write_object x) ≡ some x
unfolding read_object write_object
read-write_object (chunk k) =
    rw
      (
        read_list-write_list write_ipld read_ipld read_ipld-write_ipld k.entries
            (write_option k.next []),
        read_option-write_option k.next [],
      )
      refl
read-write_object (ad a) =
    let r8 = write_bool a.is_rm [] in
    let r7 = write_ipld a.metadata r8 in
    let r6 = write_ipld a.context_id r7 in
    let r5 = write_option a.entries r6 in
    let r4 = write_ipld a.signature r5 in
    let r3 = write_list write_bytes read_bytes a.addresses r4 in
    rw
      (
        read_option-write_option a.previous_id (write_bytes a.provider r3),
        read_bytes-write_bytes a.provider r3,
        read_list-write_list write_bytes read_bytes read_bytes-write_bytes a.addresses r4,
        read_ipld-write_ipld a.signature r5,
        read_option-write_option a.entries r6,
        read_ipld-write_ipld a.context_id r7,
        read_ipld-write_ipld a.metadata r8,
        read_bool-write_bool a.is_rm [],
      )
      refl
