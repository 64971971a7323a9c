-- ===== src/Prelude/Results.antt =====
-- Outcomes of fallible code: a value, an error that the caller sees, or a panic (`unwrap`, `expect`,
-- an index out of range), which ends the task.
use mathlib.Core.Path.{◌≡◌, refl}
use mathlib.Core.Bool.{Bool, true, false}
use mathlib.Core.Option.{Option, none, some}
use mathlib.Core.Logic.{◌⊎◌, inl, inr}

pub data Result {ℓ κ} (E : Type ℓ) (A : Type κ) : Type (ℓ ⊔ κ) where
  ok : A → Result E A
  err : E → Result E A
  panic : Result E A

infixl 5 ◌>>=◌ ◌>>◌
abbrev pub ◌>>=◌ {ℓ κ μ} :
    {E : Type ℓ} {A : Type κ} {B : Type μ} → Result E A → (A → Result E B) → Result E B
panic >>= next = panic
err e >>= next = err e
ok a >>= next = next a

abbrev pub ◌>>◌ {ℓ κ} : {E : Type ℓ} {B : Type κ} → Result E (Unit {0}) → Result E B → Result E B
m >> k = m >>= λ _. k

-- `unwrap` and `expect`: an error becomes a panic.
abbrev pub unwrap {ℓ μ κ} : {E : Type ℓ} {F : Type μ} {A : Type κ} → Result E A → Result F A
unwrap (ok a) = ok a
unwrap (err e) = panic
unwrap panic = panic

-- `unwrap` of an `Option`.
abbrev pub some_or_panic {ℓ κ} : {E : Type ℓ} {A : Type κ} → Option A → Result E A
some_or_panic none = panic
some_or_panic (some a) = ok a

-- `map_err`, and `?` where the error type changes.
abbrev pub map_err {ℓ μ κ} :
    {E : Type ℓ} {F : Type μ} {A : Type κ} → (E → F) → Result E A → Result F A
map_err f (ok a) = ok a
map_err f (err e) = err (f e)
map_err f panic = panic

abbrev pub ensure {ℓ} : {E : Type ℓ} → Bool → E → Result E (Unit {0})
ensure true e = ok tt
ensure false e = err e

-- `assert`-like tests, whose failure is a panic.
abbrev pub ensure_or_panic {ℓ} : {E : Type ℓ} → Bool → Result E (Unit {0})
ensure_or_panic true = ok tt
ensure_or_panic false = panic

pub Result-cases {ℓ κ} :
    {E : Type ℓ} {A : Type κ} (r : Result E A)
    → ((a : A) × (r ≡ ok a)) ⊎ (((e : E) × (r ≡ err e)) ⊎ (r ≡ panic))
Result-cases (ok a) = inl (a, refl)
Result-cases (err e) = inr (inl (e, refl))
Result-cases panic = inr (inr refl)

-- Both parts of a chain that ends well end well.
module _ {ℓ κ μ} {E : Type ℓ} {A : Type κ} {B : Type μ} where
  pub >>=-eq-ok :
      (first : Result E A) (next : A → Result E B) {end : B}
      → (first >>= next) ≡ ok end
      → (middle : A) × (first ≡ ok middle) × (next middle ≡ ok end)
  >>=-eq-ok panic next h = cc
  >>=-eq-ok (err e) next h = cc
  >>=-eq-ok (ok middle) next h = (middle, refl, h)

pub ok-injective {ℓ κ} :
    {E : Type ℓ} {A : Type κ} {a b : A} → ◌≡◌ {A = Result E A} (ok a) (ok b) → a ≡ b
ok-injective h = cc

pub map_err-eq-ok {ℓ μ κ} :
    {E : Type ℓ} {F : Type μ} {A : Type κ} (f : E → F) (r : Result E A) {a : A}
    → map_err f r ≡ ok a
    → r ≡ ok a
map_err-eq-ok f (ok a) h = cc
map_err-eq-ok f (err e) h = cc
map_err-eq-ok f panic h = cc

-- A step of a loop on fuel: what went wrong ends the loop.
abbrev pub resume {ℓ κ μ} :
    {E : Type μ} {S : Type ℓ} {A : Type κ}
    → (S → Option (Result E A))
    → Result E S
    → Option (Result E A)
resume go (ok s) = go s
resume go (err e) = some (err e)
resume go panic = some panic

pub resume-eq-ok {ℓ κ μ} :
    {E : Type μ} {S : Type ℓ} {A : Type κ} (go : S → Option (Result E A)) (r : Result E S) {a : A}
    → resume go r ≡ some (ok a)
    → (s : S) × (r ≡ ok s) × (go s ≡ some (ok a))
resume-eq-ok go (ok s) h = (s, refl, h)
resume-eq-ok go (err e) h = cc
resume-eq-ok go panic h = cc
