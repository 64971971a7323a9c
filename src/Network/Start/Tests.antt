-- ===== src/Network/Start/Tests.antt =====
-- A node with one bootstrap node, and the theorems at its start.
use ursa.Prelude.{
  ◌⊎◌, panic, ℕ, ◌≡◌, refl, List, [], ◌∷◌, none, some, Bool, true, false, ok, ◌*◌, ◌&&◌, leb,
}
use ursa.Network.Multiaddr.{Multiaddr, ip4, tcp, p2p}
use ursa.Network.Config.{NetworkConfig}
use ursa.Network.Discovery.{bootstrap_list, bootstrap_node, new as new_discovery}
use ursa.Network.Gossip.{GossipsubConfig, new_gossipsub}
use ursa.Network.Service.{UrsaService}
use ursa.Network.Start.{Libraries, new_service}
use ursa.Network.Start.Ready.{IsReady, Refused, new_service-outcome}
use ursa.Index.Provider.{Provider}

abbrev config : NetworkConfig
config = record {
  mdns = false;
  relay_server = true;
  autonat = true;
  relay_client = true;
  bootstrapper = false;
  swarm_addr = ip4 0 ∷ tcp 6009 ∷ [];
  bootstrap_nodes = (ip4 9 ∷ tcp 6009 ∷ p2p 5 ∷ []) ∷ [];
  database_path = "db";
  identity = "default";
  keystore_path = "keys";
}

-- The validation of the builder, as it is documented.
abbrev pub validates : GossipsubConfig → Bool
validates c =
    leb c.mesh_outbound_min c.mesh_n_low
    && (leb c.mesh_n_low c.mesh_n
        && (leb c.mesh_n c.mesh_n_high
            && (leb (c.mesh_outbound_min * 2) c.mesh_n && leb 100 c.max_transmit_size)))

abbrev pub libraries : Libraries
libraries = record {
  from_multihash = λ mh. some mh;
  mdns_starts = true;
  builds = validates;
  scores = true;
  listens = λ addr. true;
  dials = λ addr. true;
  joins = some true;
  started = some 3;
  noise_signs = true;
  dns_reads = true;
}

abbrev provider : Provider ℕ
provider = record { head = none; root_cids = []; keypair = 40; blockstore = 0; temp_ads = [] }

new_service-outcome_example :
    ((s : List Multiaddr × UrsaService ℕ) × (new_service libraries 1 config 2 provider ≡ ok s)
      × IsReady libraries 1 config 2 provider s)
    ⊎ (Refused libraries 1 config × (new_service libraries 1 config 2 provider ≡ panic))
new_service-outcome_example = new_service-outcome libraries 1 config 2 provider

-- The node starts, and where the swarm refuses to dial it panics.
starts : (s : List Multiaddr × UrsaService ℕ) × (new_service libraries 1 config 2 provider ≡ ok s)
unfolding new_service new_gossipsub new_discovery bootstrap_list bootstrap_node
starts = (_, refl)

refused : new_service (record libraries { dials = λ addr. false }) 1 config 2 provider ≡ panic
unfolding new_service new_gossipsub new_discovery bootstrap_list bootstrap_node
refused = refl
