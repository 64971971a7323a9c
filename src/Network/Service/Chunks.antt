-- ===== src/Network/Service/Chunks.antt =====
-- The chunks in which the entries of an advertisement are stored (`slice::chunks`).
use ursa.Prelude.{
  ℕ, zero, suc, ◌≡◌, ◌≤◌, ◌<◌, ◌∙◌, refl, ap, List, [], ◌∷◌, ◌++◌, take, drop, length,
  take-append-drop, length-drop, length-take_le, arith,
}
use ursa.Network.Service.Publish.{pieces, chunks}

abbrev pub flatten {ℓ} : {A : Type ℓ} → List (List A) → List A
flatten [] = []
flatten (xs ∷ xss) = xs ++ flatten xss

-- No chunk is longer than the size.
abbrev pub AllWithin {ℓ} : {A : Type ℓ} → ℕ → List (List A) → Type 0
AllWithin n [] = Unit {0}
AllWithin n (xs ∷ xss) = (length xs ≤ n) × AllWithin n xss

module _ {ℓ} {A : Type ℓ} where
  flatten-pieces :
      (fuel n : ℕ) (xs : List A) → 0 < n → length xs ≤ fuel → flatten (pieces fuel n xs) ≡ xs
  unfolding pieces
  flatten-pieces zero n [] h k = refl
  flatten-pieces zero n (x ∷ xs) h k = absurd (omega arith)
  flatten-pieces (suc fuel) n [] h k = refl
  flatten-pieces (suc fuel) n (x ∷ xs) h k =
      ap (λ r. take n (x ∷ xs) ++ r)
        (flatten-pieces fuel n (drop n (x ∷ xs)) h (omega (arith, length-drop n (x ∷ xs))))
      ∙ take-append-drop n (x ∷ xs)

  pieces-AllWithin : (fuel n : ℕ) (xs : List A) → AllWithin n (pieces fuel n xs)
  unfolding pieces
  pieces-AllWithin zero n xs = tt
  pieces-AllWithin (suc fuel) n [] = tt
  pieces-AllWithin (suc fuel) n (x ∷ xs) =
      (length-take_le n (x ∷ xs), pieces-AllWithin fuel n (drop n (x ∷ xs)))

  -- The chunks of a list, at any size above 0, hold its elements in their order, and none is longer than
  -- the size.
  pub chunks_partition :
      (n : ℕ) (xs : List A) → 0 < n → (flatten (chunks n xs) ≡ xs) × AllWithin n (chunks n xs)
  unfolding chunks
  chunks_partition n xs h =
      (flatten-pieces (length xs) n xs h (omega arith), pieces-AllWithin (length xs) n xs)
