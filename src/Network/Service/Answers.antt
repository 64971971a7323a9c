-- ===== src/Network/Service/Answers.antt =====
-- What a Bitswap event sends on the channels that wait for its block.
use ursa.Prelude.{
  ℕ, zero, suc, ◌+◌, ◌≤◌, ◌<◌, ◌≡◌, refl, ap, inl, inr, List, [], ◌∷◌, ◌++◌, map, Option, some,
  Bool, true, false, lookup, erase, ◌==◌, ==_iff, subst, if◌then◌else◌, Result, ok, Bool-cases,
  arith,
}
use ursa.Store.{Cid, BlockStore, contains}
use ursa.Network.Behaviour.{BitswapInfo, Sender}
use ursa.Network.Service.{BlockReply, stored, not_found, World, UrsaService, ServiceError}
use ursa.Network.Service.Bitswap.{wait, reply_all, handle_bitswap}

module _ (b : BlockStore) (w : World b) where
  -- The store answers each look, and `present` is what it answers.
  abbrev pub Seen : Cid → (ℕ → Bool) → Type 0
  Seen cid present = (look : ℕ) → contains b (w.stores look) cid ≡ ok (present look)

  -- Each channel gets the verdict of its own look at the store.
  abbrev pub verdicts : (ℕ → Bool) → ℕ → List Sender → List (Sender × BlockReply)
  verdicts present look [] = []
  verdicts present look (chan ∷ chans) =
      (chan, if present look then stored else not_found) ∷ verdicts present (suc look) chans

  reply_all_lem :
      (cid : Cid) (present : ℕ → Bool) (look : ℕ) (chans : List Sender)
      → Seen cid present
      → reply_all b w cid look chans ≡ ok (verdicts present look chans)
  unfolding reply_all
  reply_all_lem cid present look [] seen = refl
  reply_all_lem cid present look (chan ∷ chans) seen =
      rw (seen look, reply_all_lem cid present (suc look) chans seen)

  -- A block that was seen once is seen at every later look.
  abbrev pub Stays : (ℕ → Bool) → Type 0
  Stays present = (look : ℕ) → present look ≡ true → present (suc look) ≡ true

  all_stored :
      (present : ℕ → Bool) (look : ℕ) (chans : List Sender)
      → Stays present
      → present look ≡ true
      → verdicts present look chans ≡ map (λ chan. (chan, stored)) chans
  all_stored present look [] stays e = refl
  all_stored present look (chan ∷ chans) stays e =
      rw (e, all_stored present (suc look) chans stays (stays look e))

  passed :
      (present : ℕ → Bool) (look at : ℕ)
      → present look ≡ false
      → present at ≡ true
      → look ≤ at
      → look < at
  passed present look at absent there h = elim (Bool-cases (at == look)) [
    | inl e ↦
        let same = (==_iff at look).0 e in absurd (clash (subst (λ i. present i ≡ true) same there))
    | inr e ↦ ground (arith, e, h)
  ]
    where
      clash : present look ≡ true → ⊥
      clash t = cc

  wait_ends :
      (cid : Cid) (present : ℕ → Bool) (fuel look at : ℕ)
      → Seen cid present
      → Stays present
      → present at ≡ true
      → look ≤ at
      → at < look + fuel
      → (next : ℕ) × (wait b w cid fuel look ≡ some (ok next)) × (present next ≡ true)
  unfolding wait
  wait_ends cid present zero look at seen stays e low high = absurd (omega arith)
  wait_ends cid present (suc fuel) look at seen stays e low high =
      elim (Bool-cases (present look)) [
        | inl now ↦ (suc look, rw (seen look, wait, now) refl, stays look now)
        | inr later ↦
            let below = passed present look at later e low in
            rw (seen look, wait, later)
              (wait_ends cid present fuel (suc look) at seen stays e (omega arith) (omega arith))
      ]

  module _ {Db : Type 0} where
    abbrev pub Answered :
        UrsaService Db
        → BitswapInfo
        → List (Sender × BlockReply)
        → Option (Result ServiceError (UrsaService Db))
        → Type 0
    Answered s info replies outcome =
        (s' : UrsaService Db) × (outcome ≡ some (ok s'))
        × (s'.block_replies ≡ s.block_replies ++ replies)
        × (s'.response_channels ≡ erase info.cid s.response_channels)

    -- A query that found its block: once the block is in the store, the wait for it ends, and every channel
    -- that waits for it is told that it is stored, in the order of the requests, and waits no more.
    pub found_block_answers :
        (fuel : ℕ) (s : UrsaService Db) (info : BitswapInfo) (chans : List Sender)
        (present : ℕ → Bool) (n : ℕ)
        → info.block_found ≡ true
        → lookup info.cid s.response_channels ≡ some chans
        → Seen info.cid present
        → Stays present
        → present n ≡ true
        → n < fuel
        → Answered s info (map (λ chan. (chan, stored)) chans) (handle_bitswap b w fuel s info)
    unfolding handle_bitswap
    found_block_answers fuel s info chans present n found l seen stays e h =
        let (next, ended, there) =
          wait_ends info.cid present fuel 0 n seen stays e (omega arith) (omega arith) in
        rw (l, handle_bitswap, found, ended, reply_all_lem info.cid present next chans seen)
          (
            _,
            refl,
            ap (λ r. s.block_replies ++ r) (all_stored present next chans stays there),
            refl,
          )

    -- A query that did not find its block: nothing is waited for, and every channel that waits for the block
    -- is told what the store answers at that moment, in the order of the requests.
    pub missed_block_answers :
        (fuel : ℕ) (s : UrsaService Db) (info : BitswapInfo) (chans : List Sender)
        (present : ℕ → Bool)
        → info.block_found ≡ false
        → lookup info.cid s.response_channels ≡ some chans
        → Seen info.cid present
        → Answered s info (verdicts present 0 chans) (handle_bitswap b w fuel s info)
    unfolding handle_bitswap
    missed_block_answers fuel s info chans present missed l seen =
        rw (l, handle_bitswap, missed, reply_all_lem info.cid present 0 chans seen)
          (_, refl, refl, refl)
