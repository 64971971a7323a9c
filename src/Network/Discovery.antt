-- ===== src/Network/Discovery.antt =====
-- `DiscoveryBehaviour` of crates/ursa-network/src/discovery.rs. What it asks of Kademlia is recorded in
-- `kademlia`, call by call; what Kademlia and mDNS yield when they are polled is an argument.
pub mod Connections
pub mod Peers
pub mod Events
pub mod Poll
pub mod Startup
mod Tests
use ursa.Prelude.{
  ℕ, List, [], ◌∷◌, ◌++◌, Option, none, some, Bool, true, false, not, ◌&&◌, elem, remove,
  if◌then◌else◌, Result, ok, err, panic, ◌>>=◌, ◌>>◌, ensure_or_panic, some_or_panic,
}
use ursa.Network.Multiaddr.{PeerId, Protocol, p2p, Multiaddr, pop}
use ursa.Network.Config.{NetworkConfig}

pub data DiscoveryError : Type 0 where
  no_bootstrap_nodes no_known_peers : DiscoveryError

pub data DiscoveryEvent : Type 0 where
  connected disconnected : PeerId → DiscoveryEvent

-- The calls that reach Kademlia.
pub data KadCall : Type 0 where
  add_address : PeerId → Multiaddr → KadCall
  bootstrap : KadCall
  connection_established : PeerId → ℕ → KadCall
  connection_closed : PeerId → ℕ → KadCall
  address_change : PeerId → ℕ → KadCall
  inject_event : PeerId → ℕ → KadCall

pub record PeerInfo : Type 0 where
  pub peer_id : PeerId
  pub addresses : List Multiaddr

pub record Discovery : Type 0 where
  pub local_peer_id : PeerId
  pub kademlia : List KadCall
  pub replication_factor : ℕ
  pub bootstrap_nodes : List (PeerId × Multiaddr)
  pub peers : List PeerId
  pub peer_info : List (PeerId × PeerInfo)
  pub events : List DiscoveryEvent
  pub mdns : Bool

-- A bootstrap address ends in the peer's id; one that does not is skipped with a warning. An id that
-- is no multihash of a key is unwrapped (`from_multihash`).
abbrev parsed_node :
    (ℕ → Option PeerId)
    → Option (Protocol × Multiaddr)
    → Result DiscoveryError (Option (PeerId × Multiaddr))
parsed_node from_multihash (some (p2p mh, addr)) = do
  peer_id ← some_or_panic (from_multihash mh)
  ok (some (peer_id, addr))
parsed_node from_multihash _ = ok none

unfoldable pub bootstrap_node :
    (ℕ → Option PeerId) → Multiaddr → Result DiscoveryError (Option (PeerId × Multiaddr))
unfolding pop
bootstrap_node from_multihash addr = parsed_node from_multihash (pop addr)

abbrev keep_some {ℓ} : {A : Type ℓ} → Option A → List A → List A
keep_some none xs = xs
keep_some (some a) xs = a ∷ xs

unfoldable pub bootstrap_list :
    (ℕ → Option PeerId) → List Multiaddr → Result DiscoveryError (List (PeerId × Multiaddr))
bootstrap_list from_multihash [] = ok []
bootstrap_list from_multihash (addr ∷ addrs) = do
  node ← bootstrap_node from_multihash addr
  nodes ← bootstrap_list from_multihash addrs
  ok (keep_some node nodes)

-- `mdns_starts` says whether `Mdns::new` succeeds, which is expected.
unfoldable pub new :
    (ℕ → Option PeerId) → Bool → PeerId → NetworkConfig → Result DiscoveryError Discovery
new from_multihash mdns_starts local_peer_id config = do
  nodes ← bootstrap_list from_multihash config.bootstrap_nodes
  ensure_or_panic (not (config.mdns && not mdns_starts))
  ok (record {
    local_peer_id = local_peer_id;
    kademlia = [];
    replication_factor = 8;
    bootstrap_nodes = nodes;
    peers = [];
    peer_info = [];
    events = [];
    mdns = config.mdns;
  })

unfoldable pub add_peer_address : Discovery → PeerId × Multiaddr → Discovery
add_peer_address d (peer_id, address) = record d {
  kademlia = d.kademlia ++ add_address peer_id address ∷ [];
}

pub add_all_addresses : Discovery → List (PeerId × Multiaddr) → Discovery
unfolding add_peer_address
add_all_addresses d [] = d
add_all_addresses d (a ∷ as') = add_all_addresses (add_peer_address d a) as'

unfoldable pub bootstrap_addrs : Discovery → List (PeerId × Multiaddr)
bootstrap_addrs d = d.bootstrap_nodes

-- `started` is the answer of Kademlia's own bootstrap: a query, or that it knows no peer.
abbrev pub ask_kademlia : Discovery → Option ℕ → Discovery × Result DiscoveryError ℕ
ask_kademlia d started = (
  record d { kademlia = d.kademlia ++ bootstrap ∷ [] },
  elim started [ none ↦ err no_known_peers | some query ↦ ok query ],
)

unfoldable pub bootstrap_all : Discovery → Option ℕ → Discovery × Result DiscoveryError ℕ
unfolding add_all_addresses bootstrap_addrs
bootstrap_all d started =
    let d' = add_all_addresses d (bootstrap_addrs d) in
    elim d.bootstrap_nodes [ [] ↦ (d', err no_bootstrap_nodes) | _ ∷ _ ↦ ask_kademlia d' started ]
