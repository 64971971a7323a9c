-- ===== src/Node/Identity/Loading.antt =====
-- What is saved is loaded, and what `load_or_new` does with the key file that it finds.
use Prim.Native.String.{String}
use ursa.Prelude.{
  ℕ, ◌≡◌, refl, sym, ◌∙◌, subst, inl, inr, length, some, true, lookup, insert, lookup-insert,
  ==_refl, Result, ok, err, panic, Result-cases, ok-injective,
}
use ursa.Store.{Bytes}
use ursa.Node.Identity.{
  Keypair, ed25519, IoError, Formats, Files, IdentityManager, pem_contents, encode_pem, save,
  read_key, load, new_identity, load_identity, load_or_new,
}
use ursa.Node.Identity.Layout.{length-pem_contents, key_parts-pem_contents}

-- Keys and PEM texts read back, and a key pair has 64 bytes.
pub record AreFormats (f : Formats) : Type 0 where
  pub length_encode : (key : ℕ) → length (f.encode key) ≡ 64
  pub decode_encode : (key : ℕ) → f.decode (f.encode key) ≡ some key
  pub parse_encode : (tag : String) (b : Bytes) → f.pem_parse (f.pem_encode tag b) ≡ some (tag, b)

module _ (f : Formats) (formats : AreFormats f) where
  -- The files after a key was saved.
  abbrev pub with_key : Files f.Text → ℕ → ℕ → Files f.Text
  with_key fs path key = record fs {
    files = insert path (f.pem_encode "PRIVATE KEY" (pem_contents (f.encode key)), 384) fs.files;
  }

  abbrev pub manager : String → ℕ → Keypair → IdentityManager f
  manager name dir key = record { name = name; identity = key; dir = dir }

  read_key-saved :
      (key : ℕ) → read_key f "PRIVATE KEY" (pem_contents (f.encode key)) ≡ ok (ed25519 key)
  unfolding read_key
  read_key-saved key =
      rw
        (
          length-pem_contents (f.encode key) (formats.length_encode key),
          key_parts-pem_contents (f.encode key) (formats.length_encode key),
          formats.decode_encode key,
        )
        refl

  stored :
      (fs : Files f.Text) (path key : ℕ)
      → lookup path (with_key fs path key).files
        ≡ some (f.pem_encode "PRIVATE KEY" (pem_contents (f.encode key)), 384)
  stored fs path key =
      rw
        (
          lookup-insert path path (f.pem_encode "PRIVATE KEY" (pem_contents (f.encode key)), 384)
              fs.files,
          ==_refl path,
        )
        refl

  -- A key that was saved is loaded from its file, whatever the other files are.
  pub load-save :
      (fs : Files f.Text) (path key : ℕ)
      → fs.writable ≡ true
      → (save f fs path (ed25519 key) ≡ ok (with_key fs path key))
        × (load f (with_key fs path key) path ≡ ok (ed25519 key))
  unfolding save encode_pem load
  load-save fs path key h = (
    rw h refl,
    rw (stored fs path key, load, formats.parse_encode "PRIVATE KEY" (pem_contents (f.encode key)))
        (read_key-saved key),
  )

  -- A key file that loads is kept, and gives the identity.
  load_or_new_keeps :
      (fresh : ℕ) (fs : Files f.Text) (name : String) (dir : ℕ) (key : Keypair)
      → load f fs (f.file_of name dir) ≡ ok key
      → load_or_new f fresh fs name dir ≡ ok (fs, manager name dir key)
  unfolding load_or_new load_identity
  load_or_new_keeps fresh fs name dir key l = rw (l, load_or_new, load_identity) refl

  -- Where loading fails with any error, be it that there is no file or that its contents have the wrong
  -- length, a fresh key takes the file's place.
  load_or_new_replaces :
      (fresh : ℕ) (fs : Files f.Text) (name : String) (dir : ℕ) (e : IoError)
      → fs.writable ≡ true
      → load f fs (f.file_of name dir) ≡ err e
      → load_or_new f fresh fs name dir
        ≡ ok (with_key fs (f.file_of name dir) fresh, manager name dir (ed25519 fresh))
  unfolding load_or_new load_identity new_identity
  load_or_new_replaces fresh fs name dir e h l =
      rw
        (l, load_or_new, load_identity, (load-save fs (f.file_of name dir) fresh h).0, new_identity)
        refl

  -- The identity is stable: a second call with any other fresh key gives the same identity, and leaves the
  -- files as they are.
  pub load_or_new_twice :
      (fresh other : ℕ) (fs fs' : Files f.Text) (name : String) (dir : ℕ) (im : IdentityManager f)
      → fs.writable ≡ true
      → load_or_new f fresh fs name dir ≡ ok (fs', im)
      → load_or_new f other fs' name dir ≡ ok (fs', im)
  unfolding load_or_new
  load_or_new_twice fresh other fs fs' name dir im h l =
      let saved = with_key fs (f.file_of name dir) fresh in
      elim (Result-cases (load f fs (f.file_of name dir))) [
        | inl (key, e) ↦
            again (sym (load_or_new_keeps fresh fs name dir key e) ∙ l)
              (load_or_new_keeps other fs name dir key e)
        | inr (inl (e, failed)) ↦
            again (sym (load_or_new_replaces fresh fs name dir e h failed) ∙ l) (
              load_or_new_keeps other saved name dir (ed25519 fresh)
                ((load-save fs (f.file_of name dir) fresh h).1))
        | inr (inr p) ↦ absurd (clash (rw (p, load_or_new, load_identity) at l))
      ]
    where
      again :
          {fs1 : Files f.Text} {im1 : IdentityManager f}
          → ◌≡◌ {A = Result IoError (Files f.Text × IdentityManager f)}
              (ok (fs1, im1))
              (ok (fs', im))
          → load_or_new f other fs1 name dir ≡ ok (fs1, im1)
          → load_or_new f other fs' name dir ≡ ok (fs', im)
      again same e = subst (λ r. load_or_new f other r.0 name dir ≡ ok r) (ok-injective same) e

      clash : ◌≡◌ {A = Result IoError (Files f.Text × IdentityManager f)} panic (ok (fs', im)) → ⊥
      clash e = cc
