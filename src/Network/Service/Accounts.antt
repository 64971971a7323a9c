-- ===== src/Network/Service/Accounts.antt =====
-- The account of a sender over a run of the loop.
use ursa.Prelude.{
  ℕ, ◌+◌, ◌≡◌, refl, sym, ap, ◌∙◌, subst, inl, inr, List, [], ◌∷◌, Option, none, some, Unique,
  Option-cases, arith, Result, ok, ok-injective, resume-eq-ok,
}
use ursa.Store.{BlockStore}
use ursa.Network.Behaviour.{Sender, BitswapInfo, BehaviourEvent, bitswap}
use ursa.Network.Service.{
  World, UrsaService, UrsaCommand, get_bitswap, put, get_peers, index, send_request, send_response,
  gossipsub_message, ServiceError,
}
use ursa.Network.Service.Turns.{
  Turn, event, command, swarm, turn, start, handle_event, handle_command,
}
use ursa.Network.Service.Quiet.{
  out, IsOtherCommand, event_cases, handle_event-Same, handle_command-Same,
}
use ursa.Network.Service.Waiting.{
  Keeps, Keeps-Same, handle_get_bitswap-Keeps, handle_bitswap-Keeps, account, asks, turn_asks,
  asked,
}
use ursa.Network.Service.Frame.{Same}
use ursa.Index.Provider.{ObjectStore}

module _ (b : BlockStore) (o : ObjectStore) where
  ended :
      (w : World b) (fuel : ℕ) (t : Sender) (s s' : UrsaService o.Db) (info : BitswapInfo)
      → Unique s.response_channels
      → handle_event b o w fuel s (bitswap info) ≡ some (ok s')
      → Keeps b o t 0 s s'
  unfolding handle_event
  ended w fuel t s s' info u h = handle_bitswap-Keeps b o w fuel t s s' info u h

  handle_event-Keeps :
      (w : World b) (fuel : ℕ) (t : Sender) (s s' : UrsaService o.Db) (e : BehaviourEvent)
      → Unique s.response_channels
      → handle_event b o w fuel s e ≡ some (ok s')
      → Keeps b o t 0 s s'
  handle_event-Keeps w fuel t s s' e u h = elim (event_cases b o e) [
    | inl (info, same) ↦
        ended w fuel t s s' info u (subst (λ x. handle_event b o w fuel s x ≡ some (ok s')) same h)
    | inr other ↦ Keeps-Same b o t s s' u (handle_event-Same b o w fuel s s' e other h)
  ]

  quiet_command :
      (w : World b) (t : Sender) (s s' : UrsaService o.Db) (c : UrsaCommand)
      → IsOtherCommand b o c
      → asks t c ≡ 0
      → Unique s.response_channels
      → handle_command b o w s c ≡ ok s'
      → Keeps b o t (asks t c) s s'
  quiet_command w t s s' c other none_asked u h =
      rw none_asked (Keeps-Same b o t s s' u (handle_command-Same b o w s s' c other h))

  handle_command-Keeps :
      (w : World b) (t : Sender) (s s' : UrsaService o.Db) (c : UrsaCommand)
      → Unique s.response_channels
      → handle_command b o w s c ≡ ok s'
      → Keeps b o t (asks t c) s s'
  unfolding handle_command
  handle_command-Keeps w t s s' (get_bitswap cid kind sender) u h =
      subst (Keeps b o t (asks t (get_bitswap cid kind sender)) s) (ok-injective h)
        (handle_get_bitswap-Keeps b o w t s cid kind sender u)
  handle_command-Keeps w t s s' (put cid sender) u h =
      quiet_command w t s s' (put cid sender) tt refl u h
  handle_command-Keeps w t s s' (get_peers sender) u h =
      quiet_command w t s s' (get_peers sender) tt refl u h
  handle_command-Keeps w t s s' (index cids sender) u h =
      quiet_command w t s s' (index cids sender) tt refl u h
  handle_command-Keeps w t s s' (send_request peer_id r channel) u h =
      quiet_command w t s s' (send_request peer_id r channel) tt refl u h
  handle_command-Keeps w t s s' (send_response id response channel) u h =
      quiet_command w t s s' (send_response id response channel) tt refl u h
  handle_command-Keeps w t s s' (gossipsub_message topic message) u h =
      quiet_command w t s s' (gossipsub_message topic message) tt refl u h

  turn-Keeps :
      (t : Sender) (s s' : UrsaService o.Db) (x : Turn b o)
      → Unique s.response_channels
      → turn b o s x ≡ some (ok s')
      → Keeps b o t (turn_asks b o t x) s s'
  unfolding turn
  turn-Keeps t s s' (event w fuel e) u h = handle_event-Keeps w fuel t s s' e u h
  turn-Keeps t s s' (command w c) u h = handle_command-Keeps w t s s' c u (out b o h)
  turn-Keeps t s s' (swarm steps) u h =
      Keeps-Same b o t s s' u
        (subst (Same s) (ok-injective (out b o h)) (record { channels = refl; replies = refl }))

  -- Over any run of the loop that goes on, a sender is told of blocks and waits for blocks as often as it was
  -- handed over with a block request: so a sender that was handed over once is told at most once, and is
  -- told or still waits at any time.
  pub start-account :
      (t : Sender) (s s' : UrsaService o.Db) (turns : List (Turn b o))
      → Unique s.response_channels
      → start b o s turns ≡ some (ok s')
      → account t s' ≡ account t s + asked b o t turns
  unfolding start
  start-account t s s' [] u h = rw (sym (ok-injective (out b o h))) (omega arith)
  start-account t s s' (x ∷ rest) u h = elim (Option-cases (turn b o s x)) [
    | inl e ↦ absurd (clash (rw (e, start) at h))
    | inr (r, e) ↦
        let (s1, first, later) = resume-eq-ok _ r (rw (e, start) at h) in
        let k = turn-Keeps t s s1 x u (e ∙ ap some first) in
        omega (arith, k.total, start-account t s1 s' rest k.unique later)
  ]
    where
      clash : ◌≡◌ {A = Option (Result ServiceError (UrsaService o.Db))} none (some (ok s')) → ⊥
      clash e = cc
