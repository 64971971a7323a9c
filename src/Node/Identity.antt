-- ===== src/Node/Identity.antt =====
-- The identity of a node and its key file (crates/ursa/src/ursa/identity.rs). Keys, the PEM format and
-- the paths of the file system are parameters; a file is its text and its mode.
pub mod Layout
pub mod Loading
pub mod Tests
use Prim.Native.String.{String}
use text.Mathlib.Text.{◌==◌ as str_eq}
use ursa.Prelude.{
  ℕ, ◌-◌, List, [], ◌∷◌, ◌++◌, take, drop, length, Option, none, some, Bool, true, false, ◌==◌,
  lookup, insert, if◌then◌else◌, Result, ok, err, panic, ◌>>=◌, ◌>>◌, unwrap, some_or_panic, ensure,
}
use ursa.Store.{Bytes}

-- A key pair of libp2p: of ed25519, or of another scheme.
pub data Keypair : Type 0 where
  ed25519 : ℕ → Keypair
  other_key : ℕ → Keypair

pub data IoError : Type 0 where
  not_found invalid_data io_failed : IoError

-- The 64 bytes of an ed25519 pair (secret, then public), and the texts of PEM.
pub record Formats : Type 1 where
  pub Text : Type 0
  pub encode : ℕ → Bytes
  pub decode : Bytes → Option ℕ
  pub pem_encode : String → Bytes → Text
  pub pem_parse : Text → Option (String × Bytes)
  pub file_of : String → ℕ → ℕ

-- The files by their paths, and whether directories and files can be created.
pub record Files (Text : Type 0) : Type 0 where
  pub files : List (ℕ × (Text × ℕ))
  pub writable : Bool

-- The ASN.1 header of id-ed25519, and what separates the secret from the public key.
abbrev asn1_header : Bytes
asn1_header =
    0x30 ∷ 0x53 ∷ 0x02 ∷ 0x01 ∷ 0x01 ∷ 0x30 ∷ 0x05 ∷ 0x06 ∷ 0x03 ∷ 0x2B ∷ 0x65 ∷ 0x70 ∷ 0x04 ∷ 0x22
    ∷ 0x04 ∷ 0x20 ∷ []

abbrev pub pubkey_separator : Bytes
pubkey_separator = 0xA1 ∷ 0x23 ∷ 0x03 ∷ 0x21 ∷ 0x00 ∷ []

-- `key` has 64 bytes.
pub pem_contents : Bytes → Bytes
pem_contents key = asn1_header ++ (take 32 key ++ (pubkey_separator ++ drop 32 key))

-- `contents[from..to]`.
abbrev slice : ℕ → ℕ → Bytes → Bytes
slice from to xs = take (to - from) (drop from xs)

-- The two parts that `load` copies out.
pub key_parts : Bytes → Bytes
key_parts contents = slice 16 48 contents ++ drop 53 contents

module _ (f : Formats) where
  pub encode_pem : Keypair → Result IoError f.Text
  unfolding pem_contents
  encode_pem (ed25519 key) = ok (f.pem_encode "PRIVATE KEY" (pem_contents (f.encode key)))
  encode_pem (other_key n) = panic

  -- The mode is 0o600.
  pub save : Files f.Text → ℕ → Keypair → Result IoError (Files f.Text)
  unfolding encode_pem
  save fs path key = do
    pem ← encode_pem key
    ensure fs.writable io_failed
    ok (record fs { files = insert path (pem, 384) fs.files })

  pub read_key : String → Bytes → Result IoError Keypair
  unfolding key_parts
  read_key tag contents =
      if str_eq tag "PRIVATE KEY"
      then (do
        ensure (length contents == 85) invalid_data
        key ← some_or_panic (f.decode (key_parts contents))
        ok (ed25519 key))
      else panic

  pub load : Files f.Text → ℕ → Result IoError Keypair
  unfolding read_key
  load fs path = elim (lookup path fs.files) [
    | none ↦ err not_found
    | some (text, mode) ↦ do
      (tag, contents) ← some_or_panic (f.pem_parse text)
      read_key tag contents
  ]

  pub record IdentityManager : Type 0 where
    pub name : String
    pub identity : Keypair
    pub dir : ℕ

  -- `fresh` is the key pair that is generated.
  pub new_identity : ℕ → Files f.Text → String → ℕ → Result IoError (Files f.Text × IdentityManager)
  unfolding save
  new_identity fresh fs name dir = do
    fs' ← unwrap (save fs (f.file_of name dir) (ed25519 fresh))
    ok (fs', record { name = name; identity = ed25519 fresh; dir = dir })

  -- Any error of `load` is logged, and gives none.
  pub load_identity : Files f.Text → String → ℕ → Result IoError (Option IdentityManager)
  unfolding load
  load_identity fs name dir = elim (load fs (f.file_of name dir)) [
    | ok identity ↦ ok (some (record { name = name; identity = identity; dir = dir }))
    | err e ↦ ok none
    | panic ↦ panic
  ]

  pub load_or_new : ℕ → Files f.Text → String → ℕ → Result IoError (Files f.Text × IdentityManager)
  unfolding load_identity new_identity
  load_or_new fresh fs name dir = do
    loaded ← load_identity fs name dir
    elim loaded [ none ↦ new_identity fresh fs name dir | some im ↦ ok (fs, im) ]
