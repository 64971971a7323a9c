-- ===== src/Index/SignedHead.antt =====
-- `SignedHead` of crates/ursa-index-provider/src/signed_head.rs, and the handler `head` of provider.rs.
-- Signatures, the encoding of public keys, base64 and the text of a Cid are parameters.
pub mod Opened
pub mod Tests
use Prim.Native.String.{String}
use text.Mathlib.Text.{◌==◌ as str_eq}
use ursa.Prelude.{
  ℕ, List, [], ◌∷◌, Option, none, some, Bool, true, false, if◌then◌else◌, Result, ok, err, ◌>>=◌,
  map_err,
}
use ursa.Store.{Cid, Bytes}
use ursa.Index.Provider.{Provider}

pub record SignedHead : Type 0 where
  pub head : Cid
  pub sig : Bytes
  pub pubkey : Bytes

pub data SignedHeadError : Type 0 where
  invalid_signature invalid_public_key : SignedHeadError

-- What the head is signed with. A key pair and a public key are numbers.
pub record Keys : Type 0 where
  pub public : ℕ → ℕ
  pub sign : ℕ → Bytes → Result (Unit {0}) Bytes
  pub verify : ℕ → Bytes → Bytes → Bool
  pub to_protobuf_encoding : ℕ → Bytes
  pub from_protobuf_encoding : Bytes → Result (Unit {0}) ℕ
  pub cid_bytes : Cid → Bytes

module _ (k : Keys) where
  pub new_head : ℕ → Cid → Result (Unit {0}) SignedHead
  new_head signing_key cid = do
    sig ← k.sign signing_key (k.cid_bytes cid)
    ok (record { head = cid; pubkey = k.to_protobuf_encoding (k.public signing_key); sig = sig })

  pub open_head : SignedHead → Result SignedHeadError (ℕ × Cid)
  open_head h = do
    pk ← map_err (λ _. invalid_public_key) (k.from_protobuf_encoding h.pubkey)
    if k.verify pk (k.cid_bytes h.head) h.sig then ok (pk, h.head) else err invalid_signature

-- A JSON value, as far as the conversions look into it, and the entries of an object. The texts of byte
-- strings and Cids, which only their codecs read, have a type of their own.
mutual
  pub data Json (T : Type 0) : Type 0 where
    str : T → Json T
    obj : Map T → Json T
    other_json : ℕ → Json T

  pub data Map (T : Type 0) : Type 0 where
    no_entry : Map T
    entry : String → Json T → Map T → Map T

get_key : {T : Type 0} → String → Map T → Option (Json T)
get_key key no_entry = none
get_key key (entry k v m) = if str_eq key k then some v else get_key key m

pub data FormatError : Type 0 where
  missing_link_key missing_bytes_key missing_bytes_string not_base64 : FormatError
  missing_entry missing_str not_cid missing_field wrong_shape : FormatError

-- The texts of byte strings and of Cids.
pub record Texts : Type 1 where
  pub Text : Type 0
  pub base64_encode : Bytes → Text
  pub base64_decode : Text → Result (Unit {0}) Bytes
  pub cid_text : Cid → Text
  pub cid_of : Text → Result (Unit {0}) Cid

ok_or : {A : Type 0} → FormatError → Option A → Result FormatError A
ok_or e none = err e
ok_or e (some a) = ok a

abbrev as_str : {T : Type 0} → Json T → Option T
as_str (str s) = some s
as_str (obj m) = none
as_str (other_json n) = none

-- `Value::get`: a value that is no object has no key.
key_of : {T : Type 0} → String → Json T → Option (Json T)
unfolding get_key
key_of key (obj m) = get_key key m
key_of key (str s) = none
key_of key (other_json n) = none

module _ (t : Texts) where
  from_bytes_to_map : Bytes → Map t.Text
  from_bytes_to_map b = entry "/" (obj (entry "bytes" (str (t.base64_encode b)) no_entry)) no_entry

  from_map_to_bytes : Map t.Text → Result FormatError Bytes
  unfolding get_key key_of ok_or
  from_map_to_bytes value = do
    inner ← ok_or missing_link_key (get_key "/" value)
    value_of ← ok_or missing_bytes_key (key_of "bytes" inner)
    bytes_str ← ok_or missing_bytes_string (as_str value_of)
    map_err (λ _. not_base64) (t.base64_decode bytes_str)

  from_cid_to_map : Cid → Map t.Text
  from_cid_to_map cid = entry "/" (str (t.cid_text cid)) no_entry

  from_map_to_cid : Map t.Text → Result FormatError Cid
  unfolding get_key ok_or
  from_map_to_cid value = do
    value_of ← ok_or missing_entry (get_key "/" value)
    cid_str ← ok_or missing_str (as_str value_of)
    map_err (λ _. not_cid) (t.cid_of cid_str)

  -- The derived (de)serialisation, field by field.
  pub serialize : SignedHead → Map t.Text
  unfolding from_cid_to_map from_bytes_to_map
  serialize h = entry "head" (obj (from_cid_to_map h.head)) (
      entry "sig" (obj (from_bytes_to_map h.sig))
        (entry "pubkey" (obj (from_bytes_to_map h.pubkey)) no_entry))

  abbrev as_map : Json t.Text → Option (Map t.Text)
  as_map (obj m) = some m
  as_map (str s) = none
  as_map (other_json n) = none

  pub field : String → Map t.Text → Result FormatError (Map t.Text)
  unfolding get_key ok_or
  field name m = do value ← ok_or missing_field (get_key name m); ok_or wrong_shape (as_map value)

  pub deserialize : Map t.Text → Result FormatError SignedHead
  unfolding field from_map_to_cid from_map_to_bytes
  deserialize m = do
    head_map ← field "head" m
    head ← from_map_to_cid head_map
    sig_map ← field "sig" m
    sig ← from_map_to_bytes sig_map
    pubkey_map ← field "pubkey" m
    pubkey ← from_map_to_bytes pubkey_map
    ok (record { head = head; sig = sig; pubkey = pubkey })

-- GET /head: the head, signed; `none` says that there is none.
pub data HeadError : Type 0 where
  no_head_found signing_failed : HeadError

unfoldable pub head_handler : {Db : Type 0} → Keys → Provider Db → Result HeadError SignedHead
unfolding new_head
head_handler k p = elim p.head [
  | none ↦ err no_head_found
  | some cid ↦ map_err (λ _. signing_failed) (new_head k p.keypair cid)
]
