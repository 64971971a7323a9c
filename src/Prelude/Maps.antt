-- ===== src/Prelude/Maps.antt =====
-- The hash maps of the source, as association lists with number keys. A lookup sees the first entry,
-- an insertion replaces, a removal takes every entry of its key.
use Prim.Native.Nat.{ℕ}
use mathlib.Core.Path.{◌≡◌, refl}
use mathlib.Core.Option.{Option, none, some}
use mathlib.Core.List.{List, [], ◌∷◌}
use native.Mathlib.Omega.{arith}
use mathlib.Core.Bool.{false, ◌||◌}
use ursa.Prelude.Tests.{◌==◌, if◌then◌else◌}
use ursa.Prelude.Lists.{elem, Distinct}

module _ {ℓ} {V : Type ℓ} where
  abbrev pub lookup : ℕ → List (ℕ × V) → Option V
  lookup k [] = none
  lookup k ((j, v) ∷ m) = if k == j then some v else lookup k m

  abbrev pub insert : ℕ → V → List (ℕ × V) → List (ℕ × V)
  insert k v [] = (k, v) ∷ []
  insert k v ((j, w) ∷ m) = if k == j then (k, v) ∷ m else (j, w) ∷ insert k v m

  abbrev pub erase : ℕ → List (ℕ × V) → List (ℕ × V)
  erase k [] = []
  erase k ((j, w) ∷ m) = let rest = erase k m in if k == j then rest else (j, w) ∷ rest

  pub lookup-insert :
      (i k : ℕ) (v : V) (m : List (ℕ × V))
      → lookup i (insert k v m) ≡ (if i == k then some v else lookup i m)
  lookup-insert i k v [] = refl
  lookup-insert i k v ((j, w) ∷ m) = ground (arith, lookup-insert i k v m)

  pub lookup-erase :
      (i k : ℕ) (m : List (ℕ × V)) → lookup i (erase k m) ≡ (if i == k then none else lookup i m)
  lookup-erase i k [] = ground arith
  lookup-erase i k ((j, w) ∷ m) = ground (arith, lookup-erase i k m)

  -- No key has two entries.
  abbrev keys_of : List (ℕ × V) → List ℕ
  keys_of [] = []
  keys_of ((j, w) ∷ m) = j ∷ keys_of m

  abbrev pub Unique : List (ℕ × V) → Type 0
  Unique m = Distinct (keys_of m)

  elem-keys_insert :
      (a k : ℕ) (v : V) (m : List (ℕ × V))
      → elem a (keys_of (insert k v m)) ≡ (a == k || elem a (keys_of m))
  elem-keys_insert a k v [] = refl
  elem-keys_insert a k v ((j, w) ∷ m) = ground (arith, elem-keys_insert a k v m)

  elem-keys_erase :
      (a k : ℕ) (m : List (ℕ × V))
      → elem a (keys_of (erase k m)) ≡ (if a == k then false else elem a (keys_of m))
  elem-keys_erase a k [] = ground arith
  elem-keys_erase a k ((j, w) ∷ m) = ground (arith, elem-keys_erase a k m)

  pub Unique-insert : (k : ℕ) (v : V) (m : List (ℕ × V)) → Unique m → Unique (insert k v m)
  Unique-insert k v [] u = (refl, tt)
  Unique-insert k v ((j, w) ∷ m) u = ground (arith, Unique-insert k v m, elem-keys_insert j k v m)

  pub Unique-erase : (k : ℕ) (m : List (ℕ × V)) → Unique m → Unique (erase k m)
  Unique-erase k [] u = tt
  Unique-erase k ((j, w) ∷ m) u = ground (arith, Unique-erase k m, elem-keys_erase j k m)

  lookup-absent : (k : ℕ) (m : List (ℕ × V)) → lookup k m ≡ none → elem k (keys_of m) ≡ false
  lookup-absent k [] h = refl
  lookup-absent k ((j, w) ∷ m) h = ground (arith, lookup-absent k m)

  pub erase-absent : (k : ℕ) (m : List (ℕ × V)) → elem k (keys_of m) ≡ false → erase k m ≡ m
  erase-absent k [] h = refl
  erase-absent k ((j, w) ∷ m) h = ground (arith, erase-absent k m)
