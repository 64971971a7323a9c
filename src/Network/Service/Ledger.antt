-- ===== src/Network/Service/Ledger.antt =====
-- The advertisements that several publications leave below the head.
use ursa.Prelude.{◌≡◌, refl, sym, subst, List, [], ◌∷◌, ◌++◌, Option}
use ursa.Store.{Cid, BlockStore}
use ursa.Network.Service.{World}
use ursa.Network.Service.Advertised.{rev_onto, Advertises, Advertises-Grows}
use ursa.Index.Provider.{ObjectStore}
use ursa.Index.Provider.Growth.{Grows as Extends}

pub rev_onto-rev_onto {ℓ} :
    {A : Type ℓ} (xs ys zs : List A) → rev_onto (rev_onto xs ys) zs ≡ rev_onto ys (xs ++ zs)
rev_onto-rev_onto [] ys zs = refl
rev_onto-rev_onto (x ∷ xs) ys zs = rev_onto-rev_onto xs (x ∷ ys) zs

pub rev_onto-append {ℓ} :
    {A : Type ℓ} (xs ys zs : List A) → rev_onto xs (ys ++ zs) ≡ rev_onto xs ys ++ zs
rev_onto-append [] ys zs = refl
rev_onto-append (x ∷ xs) ys zs = rev_onto-append xs (x ∷ ys) zs

pub append-rev_onto {ℓ} :
    {A : Type ℓ} (xs ys zs : List A) → rev_onto (xs ++ ys) zs ≡ rev_onto ys (rev_onto xs zs)
append-rev_onto [] ys zs = refl
append-rev_onto (x ∷ xs) ys zs = append-rev_onto xs ys (x ∷ zs)

module _ (b : BlockStore) (o : ObjectStore) (P : World b → Type 0) where
  -- Advertisements of the roots, the newest first, down to the old head, each complete for the store of
  -- some such world.
  abbrev pub Ledger : o.Db → Option Cid → List Cid → Option Cid → Type 0
  Ledger db head [] old = head ≡ old
  Ledger db head (root ∷ roots) old =
      (w : World b) × (mid : Option Cid) × P w
      × Advertises b o w db head (root ∷ []) mid
      × Ledger db mid roots old

  pub Ledger-Extends :
      (db db' : o.Db) (head : Option Cid) (roots : List Cid) (old : Option Cid)
      → Extends o db db'
      → Ledger db head roots old
      → Ledger db' head roots old
  Ledger-Extends db db' head [] old g l = l
  Ledger-Extends db db' head (root ∷ roots) old g (w, mid, p, ads, rest) = (
    w,
    mid,
    p,
    Advertises-Grows b o w db db' head (root ∷ []) mid g ads,
    Ledger-Extends db db' mid roots old g rest,
  )

  pub Ledger-Advertises :
      (w : World b) (db : o.Db) (head mid old : Option Cid) (roots done : List Cid)
      → P w
      → Advertises b o w db head roots mid
      → Ledger db mid done old
      → Ledger db head (roots ++ done) old
  Ledger-Advertises w db head mid old [] done p ads rest =
      subst (λ h. Ledger db h done old) (sym ads) rest
  Ledger-Advertises w db head mid old (root ∷ roots) done p
        (cid, a, previous, dag, at, found, before, context, traversed, chain, later) rest =
      (
        w,
        previous,
        p,
        (cid, a, previous, dag, at, found, before, context, traversed, chain, refl),
        Ledger-Advertises w db previous mid old roots done p later rest,
      )
