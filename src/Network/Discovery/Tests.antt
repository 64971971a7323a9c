-- ===== src/Network/Discovery/Tests.antt =====
-- A node with one bootstrap peer, and the theorems on discovery at a short history of it.
use ursa.Prelude.{◌≡◌, refl, List, [], ◌∷◌, some, true, false, elem, ok}
use ursa.Network.Multiaddr.{PeerId, ip4, tcp, p2p, Multiaddr}
use ursa.Network.Config.{NetworkConfig}
use ursa.Network.Discovery.{Discovery, new, bootstrap_node, bootstrap_list}
use ursa.Network.Discovery.Connections.{Connection, established, closed, inject_all}
use ursa.Network.Discovery.Peers.{elem-inject_all}
use ursa.Network.Discovery.Events.{
  Happening, reported, polled, Agrees, happen_all, happen_all-Agrees,
}

abbrev seed : PeerId × Multiaddr
seed = (8, ip4 1 ∷ tcp 6009 ∷ [])

abbrev fresh : Discovery
fresh = record {
  local_peer_id = 1;
  kademlia = [];
  replication_factor = 8;
  bootstrap_nodes = seed ∷ [];
  peers = [];
  peer_info = [];
  events = [];
  mdns = false;
}

abbrev sample_config : NetworkConfig
sample_config = record {
  mdns = false;
  relay_server = true;
  autonat = true;
  relay_client = true;
  bootstrapper = false;
  swarm_addr = [];
  bootstrap_nodes = (ip4 1 ∷ tcp 6009 ∷ p2p 8 ∷ []) ∷ (ip4 2 ∷ []) ∷ [];
  database_path = "db";
  identity = "default";
  keystore_path = "keys";
}

-- The second address names no peer.
started : new (λ mh. some mh) true 1 sample_config ≡ ok fresh
unfolding new bootstrap_list bootstrap_node
started = refl

-- Two connections to peer 5, one of which closes.
abbrev two_then_one : List Connection
two_then_one = established 5 10 0 ∷ established 5 11 1 ∷ closed 5 10 1 ∷ []

abbrev history : List Happening
history = reported (established 5 10 0) ∷ polled [] [] ∷ reported (closed 5 10 0) ∷ []

elem-inject_all_example : elem 5 (inject_all fresh two_then_one).peers ≡ false
elem-inject_all_example = elem-inject_all 5 fresh two_then_one

happen_all-Agrees_example : Agrees 5 (happen_all (record { state = fresh; past = [] }) history)
happen_all-Agrees_example = happen_all-Agrees 5 (record { state = fresh; past = [] }) history refl
