-- ===== src/Index/Provider/Failures.antt =====
-- What `publish` leaves behind where it fails.
use ursa.Prelude.{
  ℕ, ◌≡◌, refl, inl, inr, none, lookup, erase, lookup-erase, ==_refl, Option-cases, Result, ok, err,
  panic, ◌>>=◌,
}
use ursa.Store.{Cid}
use ursa.Index.Advertisement.{Codecs}
use ursa.Index.Provider.{ObjectStore, Provider, ProviderError, finish, store_ad, published, publish}

module _ (o : ObjectStore) (c : Codecs) where
  abbrev pub Lost : Provider o.Db → ℕ → Provider o.Db → Type 0
  Lost p id p' = (p'.head ≡ none) × (p'.blockstore ≡ p.blockstore) × (lookup id p'.temp_ads ≡ none)

  published-err :
      (p : Provider o.Db) (id : ℕ) (r : Result ProviderError (Cid × o.Db)) (e : ProviderError)
      → p.head ≡ none
      → lookup id p.temp_ads ≡ none
      → (published o c p r).1 ≡ err e
      → Lost p id (published o c p r).0
  published-err p id (ok (cid, db)) e h l f = absurd (clash f)
    where
      clash : ◌≡◌ {A = Result ProviderError (Unit {0})} (ok tt) (err e) → ⊥
      clash x = cc
  published-err p id (err x) e h l f = (h, refl, l)
  published-err p id panic e h l f = (h, refl, l)

  -- A publication that fails, for an unknown draft as well as for one that cannot be signed or
  -- stored, loses the head: the next advertisement has no link to those before. The draft is gone too.
  pub publish_failure :
      (p : Provider o.Db) (id : ℕ) (e : ProviderError)
      → (publish o c p id).1 ≡ err e
      → Lost p id (publish o c p id).0
  unfolding publish
  publish_failure p id e f = elim (Option-cases (lookup id p.temp_ads)) [
    | inl absent ↦ rw (absent, publish) (refl, refl, absent)
    | inr (a, there) ↦
        rw (there, publish)
          (published-err (record p { head = none; temp_ads = erase id p.temp_ads }) id
            (finish o c p.keypair p.head a >>= λ signed. store_ad o c p.blockstore signed) e refl
            (rw (lookup-erase id id p.temp_ads, ==_refl id)) (rw (there, publish) at f))
  ]
