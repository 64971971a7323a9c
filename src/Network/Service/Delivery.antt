-- ===== src/Network/Service/Delivery.antt =====
-- What becomes of a request for a block, from the command to the end of its query: the commands and the events
-- of `UrsaService::start` together.
use ursa.Prelude.{
  suc, ℕ, ◌≡◌, ◌≢◌, ◌==◌, ==_iff, ==_refl, refl, sym, ap, ◌∙◌, subst, inl, inr, ◌⊎◌, List, [], ◌∷◌,
  ◌++◌, map, some, Bool, true, false, elem, lookup, erase, lookup-erase, Option-cases, Bool-cases,
  List-cases, arith, ok, ok-injective, ◌<◌,
}
use ursa.Store.{Cid, BlockStore}
use ursa.Network.Behaviour.{Sender, BitswapInfo, bitswap, peers}
use ursa.Network.Service.{
  World, UrsaService, get_bitswap, BitswapType, BlockReply, stored, not_found,
}
use ursa.Network.Service.Bitswap.{waiting_for, handle_get_bitswap}
use ursa.Network.Service.Turns.{Turn, event, command, turn, start, handle_event, handle_command}
use ursa.Network.Service.Quiet.{out}
use ursa.Network.Service.Remaining.{
  Waits, Spared, first_turn, start-Waits, start-append, handle_get_bitswap_joins,
}
use ursa.Network.Service.Answers.{Seen, Stays, found_block_answers, missed_block_answers, verdicts}
use ursa.Index.Provider.{ObjectStore}

-- The sender was told so.
abbrev pub Told : Sender → BlockReply → List (Sender × BlockReply) → Type 0
Told t r [] = ⊥
Told t r ((u, q) ∷ rest) = ((u ≡ t) × (q ≡ r)) ⊎ Told t r rest

Told-append :
    (t : Sender) (r : BlockReply) (before after : List (Sender × BlockReply))
    → Told t r after
    → Told t r (before ++ after)
Told-append t r [] after h = h
Told-append t r (q ∷ before) after h = inr (Told-append t r before after h)

everyone_hears :
    (t : Sender) (chans : List Sender)
    → elem t chans ≡ true
    → Told t stored (map (λ chan. (chan, stored)) chans)
everyone_hears t [] h = cc
everyone_hears t (chan ∷ chans) h = elim (Bool-cases (chan == t)) [
  | inl e ↦ inl ((==_iff chan t).0 e, refl)
  | inr e ↦ inr (everyone_hears t chans (ground (arith, e, h)))
]

everyone_misses :
    (b : BlockStore) (w : World b) (t : Sender) (look : ℕ) (chans : List Sender)
    → elem t chans ≡ true
    → Told t not_found (verdicts b w (λ look. false) look chans)
everyone_misses b w t look [] h = cc
everyone_misses b w t look (chan ∷ chans) h = elim (Bool-cases (chan == t)) [
  | inl e ↦ inl ((==_iff chan t).0 e, refl)
  | inr e ↦ inr (everyone_misses b w t (suc look) chans (ground (arith, e, h)))
]

waits_listed :
    (t : Sender) (cid : Cid) (m : List (Cid × List Sender))
    → elem t (waiting_for cid m) ≡ true
    → (chans : List Sender) × (lookup cid m ≡ some chans) × (elem t chans ≡ true)
waits_listed t cid m h = elim (Option-cases (lookup cid m)) [
  | inl e ↦ absurd (clash (rw (e, waiting_for) at h))
  | inr (chans, e) ↦ (chans, e, rw (e, waiting_for) at h)
]
  where
    clash : false ≡ true → ⊥
    clash q = cc

none_waits : (cid : Cid) (m : List (Cid × List Sender)) → waiting_for cid (erase cid m) ≡ []
none_waits cid m = rw (lookup-erase cid cid m, waiting_for, ==_refl cid) refl

module _ (b : BlockStore) (o : ObjectStore) where
  -- A sender that was handed over with a request for a block waits for it after any turns that end no query
  -- of the block.
  request_waits :
      (asked : World b) (t : Sender) (cid : Cid) (kind : BitswapType) (s s1 : UrsaService o.Db)
      (between : List (Turn b o))
      → peers s.behaviour ≢ []
      → Spared b o cid between
      → start b o s (command asked (get_bitswap cid kind t) ∷ between) ≡ some (ok s1)
      → (chans : List Sender) × (lookup cid s1.response_channels ≡ some chans)
        × (elem t chans ≡ true)
  unfolding turn handle_command
  request_waits asked t cid kind s s1 between some_peer spared run =
      let (s0, first, rest) =
        first_turn b o s s1 (command asked (get_bitswap cid kind t)) between run in
      waits_listed t cid s1.response_channels (
        start-Waits b o t cid s0 s1 between spared
          (subst (Waits t cid) (ok-injective (out b o first)) waits_now) rest)
    where
      waits_now : Waits t cid (handle_get_bitswap b asked s cid kind t)
      waits_now = elim (List-cases (peers s.behaviour)) [
        | inl e ↦ absurd (some_peer e)
        | inr (p, ps, e) ↦ handle_get_bitswap_joins b o asked cid kind t s p ps e
      ]

  -- A sender that was handed over with a request for a block, while the node has peers, is told that the block
  -- is stored, and none waits for the block any more, after any turns that go on and end no query of
  -- the block, once its query finds it and the store has it within the looks allowed.
  pub get_bitswap_delivers :
      (asked found : World b) (fuel n : ℕ) (t : Sender) (kind : BitswapType) (info : BitswapInfo)
      (present : ℕ → Bool) (s s1 : UrsaService o.Db) (between : List (Turn b o))
      → peers s.behaviour ≢ []
      → Spared b o info.cid between
      → start b o s (command asked (get_bitswap info.cid kind t) ∷ between) ≡ some (ok s1)
      → info.block_found ≡ true
      → Seen b found info.cid present
      → Stays b found present
      → present n ≡ true
      → n < fuel
      → (s2 : UrsaService o.Db) × (start b o s (
            (command asked (get_bitswap info.cid kind t) ∷ between)
            ++ event found fuel (bitswap info) ∷ [])
          ≡ some (ok s2))
        × Told t stored s2.block_replies
        × (waiting_for info.cid s2.response_channels ≡ [])
  unfolding turn handle_event
  get_bitswap_delivers asked found fuel n t kind info present s s1 between some_peer spared run was
        seen stays here h =
      let (chans, l, listed) =
        request_waits asked t info.cid kind s s1 between some_peer spared run in
      let (s2, e, replies, channels) =
        found_block_answers b found fuel s1 info chans present n was l seen stays here h in
      (
        s2,
        start-append b o s s1 s2 (command asked (get_bitswap info.cid kind t) ∷ between)
            (event found fuel (bitswap info)) run e,
        subst (Told t stored) (sym replies)
            (Told-append t stored s1.block_replies _ (everyone_hears t chans listed)),
        ap (waiting_for info.cid) channels ∙ none_waits info.cid s1.response_channels,
      )

  -- The same sender is told that the block is not found, where the query misses it and the store is without it.
  pub get_bitswap_misses :
      (asked missed : World b) (fuel : ℕ) (t : Sender) (kind : BitswapType) (info : BitswapInfo)
      (s s1 : UrsaService o.Db) (between : List (Turn b o))
      → peers s.behaviour ≢ []
      → Spared b o info.cid between
      → start b o s (command asked (get_bitswap info.cid kind t) ∷ between) ≡ some (ok s1)
      → info.block_found ≡ false
      → Seen b missed info.cid (λ look. false)
      → (s2 : UrsaService o.Db) × (start b o s (
            (command asked (get_bitswap info.cid kind t) ∷ between)
            ++ event missed fuel (bitswap info) ∷ [])
          ≡ some (ok s2))
        × Told t not_found s2.block_replies
  unfolding turn handle_event
  get_bitswap_misses asked missed fuel t kind info s s1 between some_peer spared run was seen =
      let (chans, l, listed) =
        request_waits asked t info.cid kind s s1 between some_peer spared run in
      let (s2, e, replies, channels) =
        missed_block_answers b missed fuel s1 info chans (λ look. false) was l seen in
      (
        s2,
        start-append b o s s1 s2 (command asked (get_bitswap info.cid kind t) ∷ between)
            (event missed fuel (bitswap info)) run e,
        subst (Told t not_found) (sym replies) (
            Told-append t not_found s1.block_replies _ (everyone_misses b missed t 0 chans listed)),
      )
