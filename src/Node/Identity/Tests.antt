-- ===== src/Node/Identity/Tests.antt =====
-- Keys of 64 equal bytes, a key file that loads and one that does not, and the theorems at these.
use Prim.Native.String.{String}
use ursa.Prelude.{ℕ, zero, suc, ◌≡◌, refl, [], ◌∷◌, Option, none, some, true, ok, err}
use ursa.Store.{Bytes}
use ursa.Node.Identity.{ed25519, invalid_data, Formats, Files, save, load, load_or_new}
use ursa.Node.Identity.Loading.{AreFormats, with_key, manager, load-save, load_or_new_twice}

abbrev pub copies : ℕ → ℕ → Bytes
copies zero key = []
copies (suc n) key = key ∷ copies n key

abbrev pub first_byte : Bytes → Option ℕ
first_byte [] = none
first_byte (x ∷ _) = some x

abbrev pub formats : Formats
formats = record {
  Text = String × Bytes;
  encode = copies 64;
  decode = first_byte;
  pem_encode = λ tag b. (tag, b);
  pem_parse = λ text. some text;
  file_of = λ name dir. dir;
}

pub formats-AreFormats : AreFormats formats
formats-AreFormats = record {
  length_encode = λ key. refl;
  decode_encode = λ key. refl;
  parse_encode = λ tag b. refl;
}

-- File 1 is too short for a key.
abbrev pub disk : Files (String × Bytes)
disk = record { files = (1, (("PRIVATE KEY", 7 ∷ []), 420)) ∷ []; writable = true }

too_short : load formats disk 1 ≡ err invalid_data
unfolding load
too_short = refl

load-save_example :
    (save formats disk 2 (ed25519 9) ≡ ok (with_key formats formats-AreFormats disk 2 9))
    × (load formats (with_key formats formats-AreFormats disk 2 9) 2 ≡ ok (ed25519 9))
load-save_example = load-save formats formats-AreFormats disk 2 9 refl

pub made :
    load_or_new formats 9 disk "default" 1
    ≡ ok (
      with_key formats formats-AreFormats disk 1 9,
      manager formats formats-AreFormats "default" 1 (ed25519 9),
    )
unfolding load_or_new save
made = refl

load_or_new_twice_example :
    load_or_new formats 8 (with_key formats formats-AreFormats disk 1 9) "default" 1
    ≡ ok (
      with_key formats formats-AreFormats disk 1 9,
      manager formats formats-AreFormats "default" 1 (ed25519 9),
    )
load_or_new_twice_example =
    load_or_new_twice formats formats-AreFormats 9 8 disk
      (with_key formats formats-AreFormats disk 1 9) "default" 1
      (manager formats formats-AreFormats "default" 1 (ed25519 9)) refl made
