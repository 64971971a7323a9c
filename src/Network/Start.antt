-- ===== src/Network/Start.antt =====
-- The start of the network: `Behaviour::new` of crates/ursa-network/src/behaviour.rs and `UrsaService::new`
-- of service.rs. What the libraries answer during it is a parameter.
pub mod Ready
pub mod Tests
use Prim.Native.String.{String}
use ursa.Prelude.{
  ℕ, List, [], ◌∷◌, ◌++◌, Option, none, some, Bool, true, false, not, ◌&&◌, ◌||◌, if◌then◌else◌,
  Result, ok, err, panic, ◌>>=◌, ◌>>◌, unwrap, ensure_or_panic,
}
use ursa.Network.Multiaddr.{PeerId, Multiaddr}
use ursa.Network.Config.{NetworkConfig}
use ursa.Network.Transport.{new_transport, relay_transport}
use ursa.Network.Discovery.{Discovery, new as new_discovery, bootstrap_all}
use ursa.Network.Gossip.{GossipsubConfig, new_gossipsub}
use ursa.Network.Behaviour.{Behaviour, subscribe}
use ursa.Network.Service.{UrsaService}
use ursa.Index.Provider.{Provider}

-- What the libraries answer: the ids in addresses, mDNS, the validation of the gossip configuration and of
-- its scores, the swarm's answers to `listen_on` and `dial`, the subscription, Kademlia's bootstrap, and what the
-- transport needs.
pub record Libraries : Type 0 where
  pub from_multihash : ℕ → Option PeerId
  pub mdns_starts : Bool
  pub builds : GossipsubConfig → Bool
  pub scores : Bool
  pub listens : Multiaddr → Bool
  pub dials : Multiaddr → Bool
  pub joins : Option Bool
  pub started : Option ℕ
  pub noise_signs : Bool
  pub dns_reads : Bool

-- `bool::then`, as a toggle: autonat starts without a public address.
abbrev pub toggle {ℓ} : {A : Type ℓ} → Bool → A → Option A
toggle true a = some a
toggle false a = none

-- `relay_client` says whether the relay client was instantiated; the hole puncher needs it.
pub new_behaviour : Libraries → PeerId → NetworkConfig → Bool → Result String Behaviour
unfolding new_gossipsub new_discovery
new_behaviour l local_peer_id config relay_client = do
  _ ← new_gossipsub l.builds config
  ensure_or_panic l.scores
  discovery ← unwrap (new_discovery l.from_multihash l.mdns_starts local_peer_id config)
  ensure_or_panic (not config.relay_client || relay_client)
  ok (record {
    autonat = toggle config.autonat none;
    relay_client = relay_client;
    relay_server = config.relay_server;
    dcutr = config.relay_client;
    discovery = discovery;
    events = [];
    pending_requests = [];
    pending_responses = [];
    queries = [];
    calls = [];
    replies = [];
  })

-- Each bootstrap node is dialled, and a refusal is unwrapped.
pub dial_all : (Multiaddr → Bool) → List Multiaddr → Result String (List Multiaddr)
dial_all dials [] = ok []
dial_all dials (addr ∷ addrs) = do
  ensure_or_panic (dials addr)
  rest ← dial_all dials addrs
  ok (addr ∷ rest)

-- The topic of all nodes.
abbrev ursa_global : String
ursa_global = "/ursa/global"

-- A failed subscription and a failed bootstrap are only warned of. The dialled addresses come first.
unfoldable pub new_service :
    {Db : Type 0}
    → Libraries
    → PeerId
    → NetworkConfig
    → Db
    → Provider Db
    → Result String (List Multiaddr × UrsaService Db)
unfolding new_transport new_behaviour dial_all subscribe bootstrap_all
new_service l local_peer_id config store index_provider = do
  _ ← new_transport l.noise_signs l.dns_reads (relay_transport config.relay_client)
  behaviour ← new_behaviour l local_peer_id config config.relay_client
  ensure_or_panic (l.listens config.swarm_addr)
  dialled ← dial_all l.dials config.bootstrap_nodes
  let (subscribed, _) = subscribe l.joins behaviour ursa_global
  let (discovery, _) = bootstrap_all subscribed.discovery l.started
  ok (
    dialled,
    record {
      peer_id = local_peer_id;
      store = store;
      behaviour = record subscribed { discovery = discovery };
      index_provider = index_provider;
      response_channels = [];
      event_channel = [];
      block_replies = [];
      peer_replies = [];
      index_replies = [];
      listeners = config.swarm_addr ∷ [];
      changes = [];
      http_announced = [];
    },
  )
