-- ===== src/Network/Discovery/Connections.antt =====
-- The connection callbacks of `DiscoveryBehaviour` (crates/ursa-network/src/discovery.rs), and a history
-- of connection events. A connection is a number.
use ursa.Prelude.{ℕ, List, [], ◌∷◌, ◌++◌, elem, remove, if◌then◌else◌}
use ursa.Network.Multiaddr.{PeerId, Multiaddr}
use ursa.Network.Discovery.{
  Discovery, connected, disconnected, connection_established, connection_closed, address_change,
  inject_event,
}

-- `other_established` and `remaining_established` are given by the swarm, and the code reads neither.
inject_connection_established : Discovery → PeerId → ℕ → ℕ → Discovery
inject_connection_established d peer_id connection_id other_established =
    if elem peer_id d.peers then d else (record d {
      peers = peer_id ∷ d.peers;
      kademlia = d.kademlia ++ connection_established peer_id connection_id ∷ [];
      events = d.events ++ connected peer_id ∷ [];
    })

inject_connection_closed : Discovery → PeerId → ℕ → ℕ → Discovery
inject_connection_closed d peer_id connection_id remaining_established =
    if elem peer_id d.peers
    then (record d {
      peers = remove peer_id d.peers;
      kademlia = d.kademlia ++ connection_closed peer_id connection_id ∷ [];
      events = d.events ++ disconnected peer_id ∷ [];
    })
    else d

inject_address_change : Discovery → PeerId → ℕ → Discovery
inject_address_change d peer_id connection_id = record d {
  kademlia = d.kademlia ++ address_change peer_id connection_id ∷ [];
}

unfoldable forward_event : Discovery → PeerId → ℕ → Discovery
forward_event d peer_id connection = record d {
  kademlia = d.kademlia ++ inject_event peer_id connection ∷ [];
}

unfoldable addresses_of_peer :
    (PeerId → List Multiaddr) → (PeerId → List Multiaddr) → PeerId → List Multiaddr
addresses_of_peer from_kademlia from_mdns peer_id = from_kademlia peer_id ++ from_mdns peer_id

-- What the swarm reports, with the connection and the number of the peer's other connections.
pub data Connection : Type 0 where
  established closed changed : PeerId → ℕ → ℕ → Connection

unfoldable pub inject : Discovery → Connection → Discovery
unfolding inject_connection_established inject_connection_closed inject_address_change
inject d (established p c others) = inject_connection_established d p c others
inject d (closed p c remaining) = inject_connection_closed d p c remaining
inject d (changed p c _) = inject_address_change d p c

unfoldable pub inject_all : Discovery → List Connection → Discovery
unfolding inject
inject_all d [] = d
inject_all d (c ∷ cs) = inject_all (inject d c) cs
