-- ===== src/Network/Service/Waiting.antt =====
-- The senders of block requests, over a run of the loop: each waits until its block's query ends, and is
-- then told once.
use ursa.Prelude.{
  ℕ, suc, ◌+◌, ◌≡◌, ◌==◌, refl, ap, subst, inl, inr, List, [], ◌∷◌, ◌++◌, Option, none, some, Bool,
  true, false, lookup, insert, erase, Unique, Unique-insert, Unique-erase, erase-absent,
  Option-cases, if◌then◌else◌, arith, Result, ok, unwrap, >>=-eq-ok, ok-injective, List-cases,
}
use ursa.Store.{Cid, BlockStore, contains}
use ursa.Network.Behaviour.{Sender, BitswapInfo, peers, cancel}
use ursa.Network.Service.{
  World, UrsaService, UrsaCommand, get_bitswap, BitswapType, no_peers, ServiceError, BlockReply,
  tracked,
}
use ursa.Network.Service.Bitswap.{
  wait, reply_all, answer, waiting_for, handle_bitswap, handle_get_bitswap,
}
use ursa.Network.Service.Turns.{Turn, event, command, swarm}
use ursa.Network.Service.Frame.{Same}
use ursa.Index.Provider.{ObjectStore}
use ursa.Metrics.{MetricEvent}

abbrev one_if : Bool → ℕ
one_if true = 1
one_if false = 0

abbrev count : Sender → List Sender → ℕ
count t [] = 0
count t (u ∷ us) = one_if (u == t) + count t us

-- How often the sender waits for a block.
abbrev waits : Sender → List (Cid × List Sender) → ℕ
waits t [] = 0
waits t ((cid, us) ∷ m) = count t us + waits t m

-- How often the sender was told of a block.
abbrev pub told : Sender → List (Sender × BlockReply) → ℕ
told t [] = 0
told t ((u, r) ∷ rs) = one_if (u == t) + told t rs

count-append : (t : Sender) (us vs : List Sender) → count t (us ++ vs) ≡ count t us + count t vs
count-append t [] vs = omega arith
count-append t (u ∷ us) vs = omega (arith, count-append t us vs)

told-append :
    (t : Sender) (rs qs : List (Sender × BlockReply)) → told t (rs ++ qs) ≡ told t rs + told t qs
told-append t [] qs = omega arith
told-append t ((u, r) ∷ rs) qs = omega (arith, told-append t rs qs)

waits-insert :
    (t : Sender) (cid : Cid) (us : List Sender) (m : List (Cid × List Sender))
    → waits t (insert cid us m) + count t (waiting_for cid m) ≡ waits t m + count t us
waits-insert t cid us [] = omega arith
waits-insert t cid us ((d, vs) ∷ m) = ground (arith, waits-insert t cid us m)

waits-erase :
    (t : Sender) (cid : Cid) (m : List (Cid × List Sender))
    → Unique m
    → waits t (erase cid m) + count t (waiting_for cid m) ≡ waits t m
waits-erase t cid [] u = omega arith
waits-erase t cid ((d, vs) ∷ m) u = ground (arith, waits-erase t cid m, erase-absent cid m)

reply_all-told :
    (b : BlockStore) (w : World b) (t : Sender) (cid : Cid) (look : ℕ) (chans : List Sender)
    (rs : List (Sender × BlockReply))
    → reply_all b w cid look chans ≡ ok rs
    → told t rs ≡ count t chans
unfolding reply_all
reply_all-told b w t cid look [] rs h = subst (λ q. told t q ≡ 0) (ok-injective h) refl
reply_all-told b w t cid look (chan ∷ chans) rs h =
    let (found, _, g) = >>=-eq-ok (unwrap (contains b (w.stores look) cid)) _ h in
    let (rest, r, e) = >>=-eq-ok (reply_all b w cid (suc look) chans) _ g in
    subst (λ q. told t q ≡ one_if (chan == t) + count t chans) (ok-injective e)
      (omega (arith, reply_all-told b w t cid (suc look) chans rest r))

abbrev pub account : {Db : Type 0} → Sender → UrsaService Db → ℕ
account t s = told t s.block_replies + waits t s.response_channels

-- How often the sender is handed over with a request.
abbrev pub asks : Sender → UrsaCommand → ℕ
asks t (get_bitswap cid kind u) = one_if (u == t)
asks t _ = 0

module _ (b : BlockStore) (o : ObjectStore) where
  abbrev pub turn_asks : Sender → Turn b o → ℕ
  turn_asks t (event w fuel e) = 0
  turn_asks t (command w c) = asks t c
  turn_asks t (swarm steps) = 0

  abbrev pub asked : Sender → List (Turn b o) → ℕ
  asked t [] = 0
  asked t (u ∷ us) = turn_asks t u + asked t us

  -- What a turn does to the accounts.
  pub record Keeps (t : Sender) (k : ℕ) (s s' : UrsaService o.Db) : Type 0 where
    pub total : account t s' ≡ account t s + k
    pub unique : Unique s'.response_channels

  pub Keeps-Same :
      (t : Sender) (s s' : UrsaService o.Db)
      → Unique s.response_channels
      → Same s s'
      → Keeps t 0 s s'
  Keeps-Same t s s' u same = record {
    total = rw (same.channels, same.replies) (omega arith);
    unique = rw same.channels u;
  }

  pub handle_get_bitswap-Keeps :
      (w : World b) (t : Sender) (s : UrsaService o.Db) (cid : Cid) (kind : BitswapType)
      (u : Sender)
      → Unique s.response_channels
      → Keeps t (one_if (u == t)) s (handle_get_bitswap b w s cid kind u)
  unfolding handle_get_bitswap
  handle_get_bitswap-Keeps w t s cid kind u unique = elim (List-cases (peers s.behaviour)) [
    | inl e ↦
        rw (e, handle_get_bitswap)
          (record {
            total = omega (arith, told-append t s.block_replies ((u, no_peers) ∷ []));
            unique = unique;
          })
    | inr (p, ps, e) ↦
        rw (e, handle_get_bitswap)
          (record {
            total = omega (
              arith,
              waits-insert t cid (waiting_for cid s.response_channels ++ u ∷ [])
                  s.response_channels,
              count-append t (waiting_for cid s.response_channels) (u ∷ []),
            );
            unique = Unique-insert cid _ s.response_channels unique;
          })
  ]

  answer-Keeps :
      (w : World b) (t : Sender) (s s' : UrsaService o.Db) (cid : Cid) (chans : List Sender)
      (waited : Result ServiceError ℕ)
      → Unique s.response_channels
      → lookup cid s.response_channels ≡ some chans
      → answer b w s cid chans waited ≡ ok s'
      → Keeps t 0 s s'
  answer-Keeps w t s s' cid chans waited u l h =
      let (look, _, g) = >>=-eq-ok waited _ h in
      let (rs, r, e) = >>=-eq-ok (reply_all b w cid look chans) _ g in
      let waiting : waiting_for cid s.response_channels ≡ chans = rw (l, waiting_for) refl in
      subst (Keeps t 0 s) (ok-injective e) (record {
        total = omega (
          arith,
          told-append t s.block_replies rs,
          reply_all-told b w t cid look chans rs r,
          waits-erase t cid s.response_channels u,
          ap (count t) waiting,
        );
        unique = Unique-erase cid s.response_channels u;
      })

  cancelled : BitswapInfo → UrsaService o.Db → UrsaService o.Db
  unfolding cancel tracked
  cancelled info s =
      tracked MetricEvent.bitswap true (record s { behaviour = cancel s.behaviour info.query_id })

  pub handle_bitswap-Keeps :
      (w : World b) (fuel : ℕ) (t : Sender) (s s' : UrsaService o.Db) (info : BitswapInfo)
      → Unique s.response_channels
      → handle_bitswap b w fuel s info ≡ some (ok s')
      → Keeps t 0 s s'
  unfolding handle_bitswap cancelled tracked
  handle_bitswap-Keeps w fuel t s s' info u h =
      elim (Option-cases (lookup info.cid s.response_channels)) [
        | inl e ↦
            subst (Keeps t 0 s) (ok-injective (inner (rw (e, handle_bitswap) at h)))
              (record { total = omega arith; unique = u })
        | inr (chans, e) ↦
            elim (Option-cases
              (if info.block_found then wait b w info.cid fuel 0 else some (ok 0))) [
                | inl q ↦ absurd (clash (rw (q, handle_bitswap) at (rw (e, handle_bitswap) at h)))
                | inr (waited, q) ↦
                    let k =
                      answer-Keeps w t (cancelled info s) s' info.cid chans waited u e
                        (inner (rw (q, handle_bitswap) at (rw (e, handle_bitswap) at h))) in
                    record { total = k.total; unique = k.unique }
              ]
      ]
    where
      inner : {r : Result ServiceError (UrsaService o.Db)} → some r ≡ some (ok s') → r ≡ ok s'
      inner e = cc

      clash : ◌≡◌ {A = Option (Result ServiceError (UrsaService o.Db))} none (some (ok s')) → ⊥
      clash e = cc
