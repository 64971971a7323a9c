-- ===== src/Prelude/Lists.antt =====
-- Lists under native lengths, and lists of numbers as finite sets with a Boolean membership.
use Prim.Native.Nat.{ℕ, zero, suc, ◌+◌, ◌-◌, ◌≤◌, ◌<◌}
use mathlib.Core.Path.{◌≡◌, refl, ap}
use mathlib.Core.Bool.{Bool, true, false, ◌||◌}
use mathlib.Core.List.{List, [], ◌∷◌, ◌++◌, map}
use native.Mathlib.Omega.{arith}
use ursa.Prelude.Tests.{◌==◌, if◌then◌else◌}

module _ {ℓ} {A : Type ℓ} where
  abbrev pub length : List A → ℕ
  length [] = 0
  length (x ∷ xs) = suc (length xs)

  abbrev pub take : ℕ → List A → List A
  take zero xs = []
  take (suc n) [] = []
  take (suc n) (x ∷ xs) = x ∷ take n xs

  abbrev pub drop : ℕ → List A → List A
  drop zero xs = xs
  drop (suc n) [] = []
  drop (suc n) (x ∷ xs) = drop n xs

  pub length-append : (xs ys : List A) → length (xs ++ ys) ≡ length xs + length ys
  length-append [] ys = omega arith
  length-append (x ∷ xs) ys = omega (arith, length-append xs ys)

  pub take-append-drop : (n : ℕ) (xs : List A) → take n xs ++ drop n xs ≡ xs
  take-append-drop zero xs = refl
  take-append-drop (suc n) [] = refl
  take-append-drop (suc n) (x ∷ xs) = ap (◌∷◌ x) (take-append-drop n xs)

  pub length-drop : (n : ℕ) (xs : List A) → length (drop n xs) ≡ length xs - n
  length-drop zero xs = omega arith
  length-drop (suc n) [] = omega arith
  length-drop (suc n) (x ∷ xs) = omega (arith, length-drop n xs)

  pub length-take_le : (n : ℕ) (xs : List A) → length (take n xs) ≤ n
  length-take_le zero xs = omega arith
  length-take_le (suc n) [] = omega arith
  length-take_le (suc n) (x ∷ xs) = omega (arith, length-take_le n xs)

length-map {ℓ κ} :
    {A : Type ℓ} {B : Type κ} (f : A → B) (xs : List A) → length (map f xs) ≡ length xs
length-map f [] = refl
length-map f (x ∷ xs) = ap suc (length-map f xs)

-- Membership in a set of numbers.
abbrev pub elem : ℕ → List ℕ → Bool
elem a [] = false
elem a (x ∷ xs) = a == x || elem a xs

-- Every copy of `a` goes.
abbrev pub remove : ℕ → List ℕ → List ℕ
remove a [] = []
remove a (x ∷ xs) = let rest = remove a xs in if a == x then rest else x ∷ rest

-- A set grows by what is not yet in it.
abbrev pub add : ℕ → List ℕ → List ℕ
add a xs = if elem a xs then xs else a ∷ xs

abbrev pub add_all : List ℕ → List ℕ → List ℕ
add_all [] xs = xs
add_all (a ∷ as') xs = add_all as' (add a xs)

-- No number stands twice.
abbrev pub Distinct : List ℕ → Type 0
Distinct [] = Unit {0}
Distinct (x ∷ xs) = (elem x xs ≡ false) × Distinct xs

pub elem-append : (a : ℕ) (xs ys : List ℕ) → elem a (xs ++ ys) ≡ (elem a xs || elem a ys)
elem-append a [] ys = refl
elem-append a (x ∷ xs) ys = ground (arith, elem-append a xs ys)

pub elem-remove :
    (a b : ℕ) (xs : List ℕ) → elem a (remove b xs) ≡ (if a == b then false else elem a xs)
elem-remove a b [] = ground arith
elem-remove a b (x ∷ xs) = ground (arith, elem-remove a b xs)

elem-add : (a b : ℕ) (xs : List ℕ) → elem a (add b xs) ≡ (a == b || elem a xs)
elem-add a b xs = ground arith

pub elem-add_all : (a : ℕ) (bs xs : List ℕ) → elem a (add_all bs xs) ≡ (elem a bs || elem a xs)
elem-add_all a [] xs = refl
elem-add_all a (b ∷ bs) xs = ground (arith, elem-add_all a bs (add b xs), elem-add a b xs)

pub Distinct-remove : (b : ℕ) (xs : List ℕ) → Distinct xs → Distinct (remove b xs)
Distinct-remove b [] d = tt
Distinct-remove b (x ∷ xs) d = ground (arith, Distinct-remove b xs d.1, elem-remove x b xs)

Distinct-add : (b : ℕ) (xs : List ℕ) → Distinct xs → Distinct (add b xs)
Distinct-add b xs d = ground arith

pub Distinct-add_all : (bs xs : List ℕ) → Distinct xs → Distinct (add_all bs xs)
Distinct-add_all [] xs d = d
Distinct-add_all (b ∷ bs) xs d = Distinct-add_all bs (add b xs) (Distinct-add b xs d)

length-remove_le : (b : ℕ) (xs : List ℕ) → length (remove b xs) ≤ length xs
length-remove_le b [] = omega arith
length-remove_le b (x ∷ xs) = ground (arith, length-remove_le b xs)

pub length-remove_lt : (b : ℕ) (xs : List ℕ) → elem b xs ≡ true → length (remove b xs) < length xs
length-remove_lt b [] h = absurd (false-true h)
  where
    false-true : false ≡ true → ⊥
    false-true e = cc
length-remove_lt b (x ∷ xs) h = ground (arith, length-remove_le b xs, length-remove_lt b xs)

-- A set that lies within another is no longer than it.
pub length-le_of_subset :
    (xs ys : List ℕ)
    → Distinct xs
    → ((a : ℕ) → elem a xs ≡ true → elem a ys ≡ true)
    → length xs ≤ length ys
length-le_of_subset [] ys d h = omega arith
length-le_of_subset (x ∷ xs) ys d h =
    let x_in : elem x ys ≡ true = h x (ground arith) in
    let rest =
      length-le_of_subset xs (remove x ys) d.1 (λ a m. ground (arith, h a, elem-remove a x ys)) in
    omega (arith, rest, length-remove_lt x ys x_in)

-- How many elements of the first list are not in the second.
abbrev pub unseen : List ℕ → List ℕ → ℕ
unseen [] seen = 0
unseen (x ∷ xs) seen = (if elem x seen then 0 else 1) + unseen xs seen

pub unseen-le : (xs seen : List ℕ) → unseen xs seen ≤ length xs
unseen-le [] seen = omega arith
unseen-le (x ∷ xs) seen = ground (arith, unseen-le xs seen)

unseen-cons_le : (xs seen : List ℕ) (a : ℕ) → unseen xs (a ∷ seen) ≤ unseen xs seen
unseen-cons_le [] seen a = omega arith
unseen-cons_le (x ∷ xs) seen a = ground (arith, unseen-cons_le xs seen a)

pub unseen-cons_lt :
    (xs seen : List ℕ) (a : ℕ)
    → elem a xs ≡ true
    → elem a seen ≡ false
    → unseen xs (a ∷ seen) < unseen xs seen
unseen-cons_lt [] seen a h k = absurd (false-true h)
  where
    false-true : false ≡ true → ⊥
    false-true e = cc
unseen-cons_lt (x ∷ xs) seen a h k =
    ground (arith, unseen-cons_lt xs seen a, unseen-cons_le xs seen a)
