-- ===== src/Network/Behaviour/Handlers.antt =====
-- The handlers of crates/ursa-network/src/behaviour.rs: what each event of a sub-behaviour changes. A
-- handler that only writes to the log changes nothing.
use Prim.Native.String.{String}
use text.Mathlib.Text.{◌==◌ as str_eq}
use ursa.Prelude.{
  ℕ, List, [], ◌∷◌, ◌++◌, none, some, Bool, true, false, ◌||◌, lookup, erase, if◌then◌else◌,
}
use ursa.Network.Multiaddr.{PeerId, Multiaddr}
use ursa.Network.Discovery.{DiscoveryEvent, connected, disconnected, add_peer_address}
use ursa.Network.Exchange.{UrsaExchangeRequest, UrsaExchangeResponse}
use ursa.Network.Behaviour.{
  Behaviour, QueryId, RequestId, BitswapInfo, NatStatus, GossipsubMessage, nat_status_changed,
  peer_connected, peer_disconnected, relay_reservation_opened, relay_reservation_closed,
  relay_circuit_opened, relay_circuit_closed, bitswap, gossip_message, request_message,
  add_explicit_peer, exchange_address, Reply, answered, failed, push_event, call,
}

abbrev ursa_kad_protocol : String
ursa_kad_protocol = "/ursa/kad/0.0.1"

pub data PingEvent : Type 0 where
  pong ping_timeout ping_unsupported ping_other : PeerId → PingEvent
  ping_success : PeerId → ℕ → PingEvent

unfoldable pub handle_ping : Behaviour → PingEvent → Behaviour
handle_ping b (pong _) = b
handle_ping b (ping_success _ rtt) = b
handle_ping b (ping_timeout _) = b
handle_ping b (ping_unsupported _) = b
handle_ping b (ping_other _) = b

pub record IdentifyInfo : Type 0 where
  pub protocols : List String
  pub listen_addrs : List Multiaddr

pub data IdentifyEvent : Type 0 where
  received : PeerId → IdentifyInfo → IdentifyEvent
  identify_sent identify_pushed identify_error : PeerId → IdentifyEvent

-- `protocols.iter().any(|name| name == URSA_KAD_PROTOCOL)`.
unfoldable pub speaks_ursa : List String → Bool
speaks_ursa [] = false
speaks_ursa (name ∷ names) = str_eq name ursa_kad_protocol || speaks_ursa names

-- Each address goes to the discovery and to the request-response behaviour.
unfoldable pub add_addresses : PeerId → Behaviour → List Multiaddr → Behaviour
unfolding call add_peer_address
add_addresses peer_id b [] = b
add_addresses peer_id b (address ∷ addresses) =
    add_addresses peer_id
      (call (record b { discovery = add_peer_address b.discovery (peer_id, address) })
        (exchange_address peer_id address))
      addresses

unfoldable pub handle_identify : Behaviour → IdentifyEvent → Behaviour
unfolding call add_addresses
handle_identify b (received peer_id info) =
    if speaks_ursa info.protocols
    then add_addresses peer_id (call b (add_explicit_peer peer_id)) info.listen_addrs
    else b
handle_identify b (identify_sent _) = b
handle_identify b (identify_pushed _) = b
handle_identify b (identify_error _) = b

pub data AutonatEvent : Type 0 where
  status_changed : NatStatus → NatStatus → AutonatEvent
  outbound_probe inbound_probe : AutonatEvent

unfoldable pub handle_autonat : Behaviour → AutonatEvent → Behaviour
unfolding push_event
handle_autonat b (status_changed old new) = push_event b (nat_status_changed old new)
handle_autonat b outbound_probe = b
handle_autonat b inbound_probe = b

pub data RelayServerEvent : Type 0 where
  reservation_req_accepted : PeerId → Bool → RelayServerEvent
  reservation_timed_out : PeerId → RelayServerEvent
  circuit_req_accepted circuit_closed other_relay_event : RelayServerEvent

-- A renewed reservation is already open.
unfoldable pub handle_relay_server : Behaviour → RelayServerEvent → Behaviour
unfolding push_event
handle_relay_server b (reservation_req_accepted src_peer_id renewed) =
    if renewed then b else push_event b (relay_reservation_opened src_peer_id)
handle_relay_server b (reservation_timed_out src_peer_id) =
    push_event b (relay_reservation_closed src_peer_id)
handle_relay_server b circuit_req_accepted = push_event b relay_circuit_opened
handle_relay_server b circuit_closed = push_event b relay_circuit_closed
handle_relay_server b other_relay_event = b

unfoldable pub handle_relay_client : Behaviour → ℕ → Behaviour
handle_relay_client b event = b

unfoldable pub handle_dcutr : Behaviour → ℕ → Behaviour
handle_dcutr b event = b

-- `Complete` carries whether the query succeeded.
pub data BitswapEvent : Type 0 where
  progress : QueryId → ℕ → BitswapEvent
  complete : QueryId → Bool → BitswapEvent

abbrev pub found_as : BitswapInfo → Bool → BitswapInfo
found_as info true = record info { block_found = true }
found_as info false = info

unfoldable pub handle_bitswap : Behaviour → BitswapEvent → Behaviour
unfolding push_event
handle_bitswap b (progress id missing) = b
handle_bitswap b (complete id succeeded) = elim (lookup id b.queries) [
  | none ↦ b
  | some info ↦
      push_event (record b { queries = erase id b.queries }) (bitswap (found_as info succeeded))
]

pub data GossipsubEvent : Type 0 where
  message : PeerId → GossipsubMessage → GossipsubEvent
  subscribed unsubscribed : PeerId → String → GossipsubEvent
  gossipsub_not_supported : PeerId → GossipsubEvent

unfoldable pub handle_gossipsub : Behaviour → GossipsubEvent → Behaviour
unfolding push_event
handle_gossipsub b (message source m) = push_event b (gossip_message source m.topic m)
handle_gossipsub b (subscribed _ _) = b
handle_gossipsub b (unsubscribed _ _) = b
handle_gossipsub b (gossipsub_not_supported _) = b

unfoldable pub handle_discovery : Behaviour → DiscoveryEvent → Behaviour
unfolding push_event
handle_discovery b (connected peer_id) = push_event b (peer_connected peer_id)
handle_discovery b (disconnected peer_id) = push_event b (peer_disconnected peer_id)

pub data RequestResponseEvent : Type 0 where
  request : PeerId → RequestId → UrsaExchangeRequest → ℕ → RequestResponseEvent
  response : PeerId → RequestId → UrsaExchangeResponse → RequestResponseEvent
  outbound_failure inbound_failure response_sent : PeerId → RequestId → RequestResponseEvent

-- The sender of a pending request is told, once; an id that is not pending is ignored.
unfoldable pub resolve : Behaviour → RequestId → Reply → Behaviour
resolve b id reply = elim (lookup id b.pending_responses) [
  | none ↦ b
  | some sender ↦ record b {
    pending_responses = erase id b.pending_responses;
    replies = b.replies ++ (sender, reply) ∷ [];
  }
]

unfoldable pub handle_request_response : Behaviour → RequestResponseEvent → Behaviour
unfolding push_event resolve
handle_request_response b (request peer id r channel) =
    push_event b (request_message peer r channel)
handle_request_response b (response peer id r) = resolve b id (answered r)
handle_request_response b (outbound_failure peer id) = resolve b id failed
handle_request_response b (inbound_failure peer id) = b
handle_request_response b (response_sent peer id) = b
