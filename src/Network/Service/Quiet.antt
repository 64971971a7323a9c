-- ===== src/Network/Service/Quiet.antt =====
-- The turns of the service's loop that leave the waiting block requests alone: all but the end of a query
-- and the command that asks for a block.
use ursa.Prelude.{
  suc, length, ◌⊎◌, ℕ, ◌≡◌, refl, ap, subst, inl, inr, List, [], ◌∷◌, Option, some, Result, ok,
  panic, ok-injective,
}
use ursa.Store.{Cid, BlockStore}
use ursa.Network.Multiaddr.{Multiaddr}
use ursa.Network.Behaviour.{
  Sender, BitswapInfo, BehaviourEvent, bitswap, gossip_message, nat_status_changed,
  relay_reservation_opened, relay_reservation_closed, relay_circuit_opened, relay_circuit_closed,
  start_publish,
}
use ursa.Network.Service.{
  World, UrsaService, UrsaCommand, get_bitswap, put, get_peers, index, send_request, send_response,
  gossipsub_message, ServiceError, tracked, emit,
}
use ursa.Network.Service.Publish.{advertised_address, handle_start_publish, handle_index}
use ursa.Network.Service.Turns.{handle_event, handle_command, handle_gossip_command}
use ursa.Network.Service.Frame.{Same, Calm, Calm-refl, Calm-Same, publish_roots-Same}
use ursa.Index.Provider.{ObjectStore}
use ursa.Network.Service.Events.{handle_nat-Calm, handle_gossip-Calm}

module _ (b : BlockStore) (o : ObjectStore) where
  pub out : {r r' : Result ServiceError (UrsaService o.Db)} → some r ≡ some r' → r ≡ r'
  out e = cc

  -- Every event but the end of a query.
  abbrev pub IsOther : BehaviourEvent → Type 0
  IsOther (bitswap info) = ⊥
  IsOther _ = Unit {0}

  pub event_cases : (e : BehaviourEvent) → ((info : BitswapInfo) × (e ≡ bitswap info)) ⊎ IsOther e
  event_cases (bitswap info) = inl (info, refl)
  event_cases (gossip_message _ _ _) = inr tt
  event_cases (BehaviourEvent.request_message _ _ _) = inr tt
  event_cases (BehaviourEvent.peer_connected _) = inr tt
  event_cases (BehaviourEvent.peer_disconnected _) = inr tt
  event_cases (nat_status_changed _ _) = inr tt
  event_cases (relay_reservation_opened _) = inr tt
  event_cases (relay_reservation_closed _) = inr tt
  event_cases relay_circuit_opened = inr tt
  event_cases relay_circuit_closed = inr tt
  event_cases (start_publish _) = inr tt

  -- Neither the end of a query nor the start of a publication.
  abbrev pub IsPlain : BehaviourEvent → Type 0
  IsPlain (bitswap info) = ⊥
  IsPlain (start_publish address) = ⊥
  IsPlain _ = Unit {0}

  pub publication_cases :
      (e : BehaviourEvent)
      → IsOther e
      → ((address : Multiaddr) × (e ≡ start_publish address)) ⊎ IsPlain e
  publication_cases (bitswap info) x = absurd x
  publication_cases (gossip_message _ _ _) x = inr tt
  publication_cases (BehaviourEvent.request_message _ _ _) x = inr tt
  publication_cases (BehaviourEvent.peer_connected _) x = inr tt
  publication_cases (BehaviourEvent.peer_disconnected _) x = inr tt
  publication_cases (nat_status_changed _ _) x = inr tt
  publication_cases (relay_reservation_opened _) x = inr tt
  publication_cases (relay_reservation_closed _) x = inr tt
  publication_cases relay_circuit_opened x = inr tt
  publication_cases relay_circuit_closed x = inr tt
  publication_cases (start_publish address) x = inl (address, refl)

  settled :
      (s s1 s' : UrsaService o.Db)
      → ◌≡◌ {A = Option (Result ServiceError (UrsaService o.Db))} (some (ok s1)) (some (ok s'))
      → Calm s s1
      → Calm s s'
  settled s s1 s' h calm = subst (Calm s) (ok-injective (out h)) calm

  pub handle_event-Calm :
      (w : World b) (fuel : ℕ) (s s' : UrsaService o.Db) (e : BehaviourEvent)
      → IsPlain e
      → handle_event b o w fuel s e ≡ some (ok s')
      → Calm s s'
  unfolding handle_event handle_start_publish tracked emit
  handle_event-Calm w fuel s s' (bitswap info) x h = absurd x
  handle_event-Calm w fuel s s' (gossip_message peer topic m) x h =
      settled s _ s' h (handle_gossip-Calm b o w s peer m)
  handle_event-Calm w fuel s s' (BehaviourEvent.request_message _ _ _) x h =
      settled s _ s' h (record { channels = refl; replies = refl; provider = refl })
  handle_event-Calm w fuel s s' (BehaviourEvent.peer_connected _) x h =
      settled s _ s' h (record { channels = refl; replies = refl; provider = refl })
  handle_event-Calm w fuel s s' (BehaviourEvent.peer_disconnected _) x h =
      settled s _ s' h (record { channels = refl; replies = refl; provider = refl })
  handle_event-Calm w fuel s s' (nat_status_changed old new) x h =
      handle_nat-Calm b o w s s' old new (out h)
  handle_event-Calm w fuel s s' (relay_reservation_opened _) x h =
      settled s _ s' h (record { channels = refl; replies = refl; provider = refl })
  handle_event-Calm w fuel s s' (relay_reservation_closed _) x h =
      settled s _ s' h (record { channels = refl; replies = refl; provider = refl })
  handle_event-Calm w fuel s s' relay_circuit_opened x h =
      settled s _ s' h (record { channels = refl; replies = refl; provider = refl })
  handle_event-Calm w fuel s s' relay_circuit_closed x h =
      settled s _ s' h (record { channels = refl; replies = refl; provider = refl })
  handle_event-Calm w fuel s s' (start_publish address) x h = absurd x

  pub handle_event-Same :
      (w : World b) (fuel : ℕ) (s s' : UrsaService o.Db) (e : BehaviourEvent)
      → IsOther e
      → handle_event b o w fuel s e ≡ some (ok s')
      → Same s s'
  unfolding handle_event handle_start_publish
  handle_event-Same w fuel s s' e x h = elim (publication_cases e x) [
    | inl (address, q) ↦
        publish_roots-Same b o w (suc (length s.index_provider.root_cids))
          (w.multiaddr_text (advertised_address address)) s s'
          (subst (λ e. handle_event b o w fuel s e ≡ some (ok s')) q h)
    | inr plain ↦ Calm-Same s s' (handle_event-Calm w fuel s s' e plain h)
  ]

  -- Every command but the request for a block.
  abbrev pub IsOtherCommand : UrsaCommand → Type 0
  IsOtherCommand (get_bitswap cid kind sender) = ⊥
  IsOtherCommand _ = Unit {0}

  -- Neither the request for a block nor the queueing of a root.
  abbrev pub IsPlainCommand : UrsaCommand → Type 0
  IsPlainCommand (get_bitswap cid kind sender) = ⊥
  IsPlainCommand (index cids sender) = ⊥
  IsPlainCommand _ = Unit {0}

  pub handle_command-Calm :
      (w : World b) (s s' : UrsaService o.Db) (c : UrsaCommand)
      → IsPlainCommand c
      → handle_command b o w s c ≡ ok s'
      → Calm s s'
  unfolding handle_command handle_gossip_command
  handle_command-Calm w s s' (get_bitswap cid kind sender) x h = absurd x
  handle_command-Calm w s s' (put cid sender) x h = subst (Calm s) (ok-injective h) (Calm-refl s)
  handle_command-Calm w s s' (get_peers sender) x h =
      settled s _ s' (ap some h) (record { channels = refl; replies = refl; provider = refl })
  handle_command-Calm w s s' (index cids sender) x h = absurd x
  handle_command-Calm w s s' (send_request peer_id r channel) x h =
      settled s _ s' (ap some h) (record { channels = refl; replies = refl; provider = refl })
  handle_command-Calm w s s' (send_response request_id response channel) x h = absurd (clash h)
    where
      clash : ◌≡◌ {A = Result ServiceError (UrsaService o.Db)} panic (ok s') → ⊥
      clash e = cc
  handle_command-Calm w s s' (gossipsub_message topic message) x h =
      settled s _ s' (ap some h) (record { channels = refl; replies = refl; provider = refl })

  pub handle_index-Same :
      (w : World b) (s s' : UrsaService o.Db) (cids : List Cid) (sender : Sender)
      → handle_index b o w s cids sender ≡ ok s'
      → Same s s'
  unfolding handle_index
  handle_index-Same w s s' [] sender h = absurd (clash h)
    where
      clash : ◌≡◌ {A = Result ServiceError (UrsaService o.Db)} panic (ok s') → ⊥
      clash e = cc
  handle_index-Same w s s' (root ∷ cids) sender h =
      subst (Same s) (ok-injective h) (record { channels = refl; replies = refl })

  pub handle_command-Same :
      (w : World b) (s s' : UrsaService o.Db) (c : UrsaCommand)
      → IsOtherCommand c
      → handle_command b o w s c ≡ ok s'
      → Same s s'
  unfolding handle_command
  handle_command-Same w s s' (get_bitswap cid kind sender) x h = absurd x
  handle_command-Same w s s' (put cid sender) x h =
      Calm-Same s s' (handle_command-Calm w s s' (put cid sender) tt h)
  handle_command-Same w s s' (get_peers sender) x h =
      Calm-Same s s' (handle_command-Calm w s s' (get_peers sender) tt h)
  handle_command-Same w s s' (index cids sender) x h = handle_index-Same w s s' cids sender h
  handle_command-Same w s s' (send_request peer_id r channel) x h =
      Calm-Same s s' (handle_command-Calm w s s' (send_request peer_id r channel) tt h)
  handle_command-Same w s s' (send_response request_id response channel) x h =
      Calm-Same s s' (handle_command-Calm w s s' (send_response request_id response channel) tt h)
  handle_command-Same w s s' (gossipsub_message topic message) x h =
      Calm-Same s s' (handle_command-Calm w s s' (gossipsub_message topic message) tt h)
