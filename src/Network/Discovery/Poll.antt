-- ===== src/Network/Discovery/Poll.antt =====
-- `DiscoveryBehaviour::poll` of crates/ursa-network/src/discovery.rs. The actions that Kademlia and mDNS
-- have ready, up to their next `Pending`, are lists; what poll leaves of them is returned.
use ursa.Prelude.{ℕ, List, [], ◌∷◌, Option, none, some}
use ursa.Network.Multiaddr.{PeerId, Multiaddr}
use ursa.Network.Discovery.{Discovery, DiscoveryEvent, add_all_addresses}

-- `OutboundQueryCompleted` with its closest peers, or another event.
pub data KademliaEvent : Type 0 where
  closest_peers : List PeerId → KademliaEvent
  other_event : KademliaEvent

pub data MdnsEvent : Type 0 where
  discovered expired : List (PeerId × Multiaddr) → MdnsEvent

-- `NetworkBehaviourAction`, over the events that a behaviour generates.
pub data Action {ℓ} (E : Type ℓ) : Type ℓ where
  generate_event : E → Action E
  dial notify_handler report_observed_addr close_connection : ℕ → Action E

pub record Polled : Type 0 where
  pub state : Discovery
  kademlia_left : List (Action KademliaEvent)
  mdns_left : List (Action MdnsEvent)
  -- `none` is `Pending`.
  pub ready : Option (Action DiscoveryEvent)

-- The closest peers are read and dropped.
unfoldable pub handle_kad_event : Discovery → KademliaEvent → Discovery
handle_kad_event d (closest_peers peers) = d
handle_kad_event d other_event = d

unfoldable pub handle_mdns_event : Discovery → MdnsEvent → Discovery
unfolding add_all_addresses
handle_mdns_event d (discovered found) = add_all_addresses d found
handle_mdns_event d (expired _) = d

unfoldable pub poll_mdns : Discovery → List (Action MdnsEvent) → Polled
unfolding handle_mdns_event
poll_mdns d [] = record { state = d; kademlia_left = []; mdns_left = []; ready = none }
poll_mdns d (generate_event e ∷ as') = poll_mdns (handle_mdns_event d e) as'
poll_mdns d (report_observed_addr a ∷ as') = record {
  state = d;
  kademlia_left = [];
  mdns_left = as';
  ready = some (report_observed_addr a);
}
poll_mdns d (close_connection c ∷ as') = record {
  state = d;
  kademlia_left = [];
  mdns_left = as';
  ready = some (close_connection c);
}
poll_mdns d (dial _ ∷ as') = poll_mdns d as'
poll_mdns d (notify_handler _ ∷ as') = poll_mdns d as'

-- An action of Kademlia that is no event is passed on as it is.
abbrev passed_on :
    Discovery
    → Action DiscoveryEvent
    → List (Action KademliaEvent)
    → List (Action MdnsEvent)
    → Polled
passed_on d a kad mdns = record { state = d; kademlia_left = kad; mdns_left = mdns; ready = some a }

unfoldable pub poll_kademlia :
    Discovery → List (Action KademliaEvent) → List (Action MdnsEvent) → Polled
unfolding handle_kad_event poll_mdns
poll_kademlia d [] mdns = poll_mdns d mdns
poll_kademlia d (generate_event e ∷ as') mdns = poll_kademlia (handle_kad_event d e) as' mdns
poll_kademlia d (dial o ∷ as') mdns = passed_on d (dial o) as' mdns
poll_kademlia d (notify_handler h ∷ as') mdns = passed_on d (notify_handler h) as' mdns
poll_kademlia d (report_observed_addr a ∷ as') mdns = passed_on d (report_observed_addr a) as' mdns
poll_kademlia d (close_connection c ∷ as') mdns = passed_on d (close_connection c) as' mdns

-- Events of its own come first, one a poll.
unfoldable pub poll : Discovery → List (Action KademliaEvent) → List (Action MdnsEvent) → Polled
unfolding poll_kademlia
poll d kad mdns = elim d.events [
  | [] ↦ poll_kademlia d kad mdns
  | e ∷ rest ↦ passed_on (record d { events = rest }) (generate_event e) kad mdns
]
