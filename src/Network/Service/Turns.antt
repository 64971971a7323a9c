-- ===== src/Network/Service/Turns.antt =====
-- A turn of the service's loop (`UrsaService::start`): an event of the swarm, a command, or a poll of the
-- swarm that changes the behaviour and yields nothing.
use Prim.Native.String.{String}
use ursa.Prelude.{
  ℕ, List, [], ◌∷◌, ◌++◌, Option, none, some, true, false, if◌then◌else◌, Result, ok, panic, resume,
}
use ursa.Store.{BlockStore}
use ursa.Network.Multiaddr.{PeerId, Multiaddr, p2p, p2p_circuit}
use ursa.Network.Behaviour.{
  BehaviourEvent, NatStatus, public, private_nat, unknown, GossipsubMessage,
  is_relay_client_enabled, publish_ad, send_request, publish, peers, bitswap, gossip_message,
  nat_status_changed, relay_reservation_opened, relay_reservation_closed, relay_circuit_opened,
  relay_circuit_closed, start_publish,
}
use ursa.Network.Behaviour.Steps.{Step, run}
use ursa.Network.Discovery.{bootstrap_addrs}
use ursa.Network.Service.{
  UrsaCommand, get_bitswap, put, get_peers, index, send_request as request, send_response,
  gossipsub_message, UrsaEvent, gossip, World, UrsaService, ServiceError, tracked, emit,
}
use ursa.Network.Service.Bitswap.{handle_bitswap, handle_get_bitswap}
use ursa.Network.Service.Publish.{handle_start_publish, handle_index}
use ursa.Index.Provider.{ObjectStore}
use ursa.Metrics.{MetricEvent}

module _ (b : BlockStore) {Db : Type 0} (w : World b) where
  -- A private node listens on the relay of some bootstrap node, if it may.
  abbrev pub relay_through :
      UrsaService Db → Option (PeerId × Multiaddr) → Result ServiceError (UrsaService Db)
  relay_through s none = ok s
  relay_through s (some (relay_peer, relay_addr)) =
      let addr = relay_addr ++ p2p relay_peer ∷ p2p_circuit ∷ [] in
      if w.listens addr then ok (record s { listeners = s.listeners ++ addr ∷ [] }) else panic

  unfoldable pub went_private : UrsaService Db → Result ServiceError (UrsaService Db)
  unfolding bootstrap_addrs is_relay_client_enabled
  went_private s =
      if is_relay_client_enabled s.behaviour
      then relay_through s (w.choose (bootstrap_addrs s.behaviour.discovery))
      else ok s

  unfoldable pub handle_nat :
      UrsaService Db → NatStatus → NatStatus → Result ServiceError (UrsaService Db)
  unfolding publish_ad went_private
  handle_nat s unknown private_nat = went_private s
  handle_nat s (public _) private_nat = ok s
  handle_nat s private_nat private_nat = ok s
  handle_nat s _ (public addr) = ok (record s { behaviour = publish_ad s.behaviour addr })
  handle_nat s _ unknown = ok s

  unfoldable pub handle_gossip : UrsaService Db → PeerId → GossipsubMessage → UrsaService Db
  unfolding tracked emit
  handle_gossip s peer message =
      let s' = tracked MetricEvent.gossip_message true s in
      if w.is_connected peer then emit (gossip message) s' else s'

  unfoldable pub handle_gossip_command : UrsaService Db → String → GossipsubMessage → UrsaService Db
  unfolding publish
  handle_gossip_command s topic message = record s {
    behaviour = (publish w.message_id s.behaviour topic message).0;
  }

module _ (b : BlockStore) (o : ObjectStore) where
  unfoldable pub handle_event :
      World b
      → ℕ
      → UrsaService o.Db
      → BehaviourEvent
      → Option (Result ServiceError (UrsaService o.Db))
  unfolding handle_bitswap handle_gossip handle_nat handle_start_publish tracked emit
  handle_event w fuel s (bitswap info) = handle_bitswap b w fuel s info
  handle_event w fuel s (gossip_message peer topic message) =
      some (ok (handle_gossip b w s peer message))
  handle_event w fuel s (BehaviourEvent.request_message peer asked channel) = some (
      ok (
        emit (UrsaEvent.request_message asked channel)
          (tracked MetricEvent.request_message true s)))
  handle_event w fuel s (BehaviourEvent.peer_connected peer) =
      some (ok (emit (UrsaEvent.peer_connected peer) (tracked MetricEvent.peer_connected false s)))
  handle_event w fuel s (BehaviourEvent.peer_disconnected peer) =
      some (
        ok
          (emit (UrsaEvent.peer_disconnected peer) (tracked MetricEvent.peer_disconnected false s)))
  handle_event w fuel s (nat_status_changed old new) = some (handle_nat b w s old new)
  handle_event w fuel s (relay_reservation_opened peer) =
      some (ok (tracked MetricEvent.relay_reservation_opened false s))
  handle_event w fuel s (relay_reservation_closed peer) =
      some (ok (tracked MetricEvent.relay_reservation_closed false s))
  handle_event w fuel s relay_circuit_opened =
      some (ok (tracked MetricEvent.relay_circuit_opened false s))
  handle_event w fuel s relay_circuit_closed =
      some (ok (tracked MetricEvent.relay_circuit_closed false s))
  handle_event w fuel s (start_publish public_address) = handle_start_publish b o w s public_address

  -- `Put` is ignored, and `SendResponse` is a `todo!`.
  unfoldable pub handle_command :
      World b → UrsaService o.Db → UrsaCommand → Result ServiceError (UrsaService o.Db)
  unfolding handle_get_bitswap handle_index handle_gossip_command peers send_request
  handle_command w s (get_bitswap cid kind sender) = ok (handle_get_bitswap b w s cid kind sender)
  handle_command w s (put cid sender) = ok s
  handle_command w s (get_peers sender) =
      ok (record s { peer_replies = s.peer_replies ++ (sender, peers s.behaviour) ∷ [] })
  handle_command w s (index cids sender) = handle_index b o w s cids sender
  handle_command w s (request peer_id r channel) =
      ok (record s { behaviour = send_request w.request_id s.behaviour peer_id r channel })
  handle_command w s (send_response request_id response channel) = panic
  handle_command w s (gossipsub_message topic message) =
      ok (handle_gossip_command b w s topic message)

  -- What the loop selects, turn by turn, each with the fuel for its busy wait, and what the swarm does with
  -- its behaviour when it is polled.
  pub data Turn : Type 0 where
    event : World b → ℕ → BehaviourEvent → Turn
    command : World b → UrsaCommand → Turn
    swarm : List Step → Turn

  unfoldable pub turn : UrsaService o.Db → Turn → Option (Result ServiceError (UrsaService o.Db))
  unfolding handle_event handle_command run
  turn s (event w fuel e) = handle_event w fuel s e
  turn s (command w c) = some (handle_command w s c)
  turn s (swarm steps) = some (ok (record s { behaviour = run s.behaviour steps }))

  unfoldable pub start :
      UrsaService o.Db → List Turn → Option (Result ServiceError (UrsaService o.Db))
  unfolding turn
  start s [] = some (ok s)
  start s (t ∷ ts) = elim (turn s t) [ none ↦ none | some r ↦ resume (λ s'. start s' ts) r ]
