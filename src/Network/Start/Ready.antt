-- ===== src/Network/Start/Ready.antt =====
-- The state in which a node starts.
use Prim.Native.String.{String}
use ursa.Prelude.{
  ◌⊎◌, inl, inr, panic, Bool-cases, Result-cases, ◌≡◌, refl, List, [], ◌∷◌, Option, none, Bool,
  true, false, not, ◌||◌, ok,
}
use ursa.Network.Multiaddr.{PeerId, Multiaddr}
use ursa.Network.Config.{NetworkConfig}
use ursa.Network.Transport.{new_transport}
use ursa.Network.Discovery.{Discovery, new as new_discovery}
use ursa.Network.Gossip.{GossipsubConfig, new_gossipsub}
use ursa.Network.Gossip.Mesh.{IsMesh, gossip_config-IsMesh}
use ursa.Network.Behaviour.{
  Behaviour, flatten_option, subscribe, public_address, is_relay_client_enabled,
}
use ursa.Network.Service.{UrsaService}
use ursa.Network.Start.{Libraries, toggle, new_behaviour, dial_all, new_service}
use ursa.Index.Provider.{Provider}

abbrev AllDialled : (Multiaddr → Bool) → List Multiaddr → Type 0
AllDialled dials [] = Unit {0}
AllDialled dials (a ∷ addrs) = (dials a ≡ true) × AllDialled dials addrs

-- An address of the list was refused.
abbrev SomeRefused : (Multiaddr → Bool) → List Multiaddr → Type 0
SomeRefused dials [] = ⊥
SomeRefused dials (a ∷ addrs) = (dials a ≡ false) ⊎ SomeRefused dials addrs

-- The swarm listens on the address of the service and dials all bootstrap nodes; the service has the id,
-- the store and the provider that it was given, nobody waits for a block or for an answer, and the relay
-- client is on exactly if the configuration asks for it.
pub record IsReady {Db : Type 0} (l : Libraries) (peer : PeerId) (config : NetworkConfig)
    (store : Db) (p : Provider Db) (s : List Multiaddr × UrsaService Db) : Type 0 where
  pub peer_id : s.1.peer_id ≡ peer
  pub shared_store : s.1.store ≡ store
  pub provider : s.1.index_provider ≡ p
  listens : l.listens config.swarm_addr ≡ true
  listening : s.1.listeners ≡ config.swarm_addr ∷ []
  dials : AllDialled l.dials config.bootstrap_nodes
  dialled : s.0 ≡ config.bootstrap_nodes
  no_channels : s.1.response_channels ≡ []
  no_responses : s.1.behaviour.pending_responses ≡ []
  no_queries : s.1.behaviour.queries ≡ []
  no_events : s.1.behaviour.events ≡ []
  relay : is_relay_client_enabled s.1.behaviour ≡ config.relay_client
  address : public_address s.1.behaviour ≡ none

-- What keeps the service from starting: no signature for noise, no DNS configuration, a builder that refuses
-- a configuration which its documentation allows, scores that are refused, a discovery that fails, or a swarm
-- that refuses to listen or to dial.
pub data Refused (l : Libraries) (peer : PeerId) (config : NetworkConfig) : Type 0 where
  no_signature : l.noise_signs ≡ false → Refused l peer config
  no_dns : l.dns_reads ≡ false → Refused l peer config
  no_gossip : (c : GossipsubConfig) → IsMesh c → l.builds c ≡ false → Refused l peer config
  no_scores : l.scores ≡ false → Refused l peer config
  no_discovery :
      ((d : Discovery) → new_discovery l.from_multihash l.mdns_starts peer config ≡ ok d → ⊥)
      → Refused l peer config
  no_listener : l.listens config.swarm_addr ≡ false → Refused l peer config
  no_dial : SomeRefused l.dials config.bootstrap_nodes → Refused l peer config

dial_all_cases :
    (dials : Multiaddr → Bool) (addrs : List Multiaddr)
    → (AllDialled dials addrs × (dial_all dials addrs ≡ ok addrs))
      ⊎ (SomeRefused dials addrs × (dial_all dials addrs ≡ panic))
unfolding dial_all
dial_all_cases dials [] = inl (tt, refl)
dial_all_cases dials (a ∷ addrs) = elim (Bool-cases (dials a)) [
  | inr e ↦ inr (inl e, rw (e, dial_all) refl)
  | inl e ↦ elim (dial_all_cases dials addrs) [
    | inl (all, q) ↦ inl ((e, all), rw (e, dial_all, q) refl)
    | inr (some_refused, q) ↦ inr (inr some_refused, rw (e, dial_all, q) refl)
  ]
]

-- The relay client is there whenever the hole puncher needs it.
relay_given : (r : Bool) → (not r || r) ≡ true
relay_given true = refl
relay_given false = refl

address_unknown :
    (autonat : Bool) → flatten_option (toggle {A = Option Multiaddr} autonat none) ≡ none
address_unknown true = refl
address_unknown false = refl

abbrev first_behaviour : NetworkConfig → Discovery → Behaviour
first_behaviour config d = record {
  autonat = toggle config.autonat none;
  relay_client = config.relay_client;
  relay_server = config.relay_server;
  dcutr = config.relay_client;
  discovery = d;
  events = [];
  pending_requests = [];
  pending_responses = [];
  queries = [];
  calls = [];
  replies = [];
}

new_behaviour_cases :
    (l : Libraries) (peer : PeerId) (config : NetworkConfig)
    → ((d : Discovery) × (new_behaviour l peer config config.relay_client
          ≡ ok (first_behaviour config d)))
      ⊎ (Refused l peer config × (new_behaviour l peer config config.relay_client ≡ panic))
unfolding new_behaviour new_gossipsub
new_behaviour_cases l peer config =
    let (c, made, mesh) = gossip_config-IsMesh {E = String} config in
    elim (Bool-cases (l.builds c)) [
      | inr e ↦ inr (no_gossip c mesh e, rw (made, e) refl)
      | inl builds ↦ elim (Bool-cases l.scores) [
        | inr e ↦ inr (no_scores e, rw (made, builds, e) refl)
        | inl scores ↦
            elim (Result-cases (new_discovery l.from_multihash l.mdns_starts peer config)) [
              | inl (d, e) ↦
                  inl (d, rw (made, builds, scores, e, relay_given config.relay_client) refl)
              | inr (inl (x, e)) ↦ inr (no_discovery (λ d q. cc), rw (made, builds, scores, e) refl)
              | inr (inr e) ↦ inr (no_discovery (λ d q. cc), rw (made, builds, scores, e) refl)
            ]
      ]
    ]

-- The service starts, ready, or something keeps it from starting, and it panics; it never gives an error.
pub new_service-outcome :
    {Db : Type 0} (l : Libraries) (peer : PeerId) (config : NetworkConfig) (store : Db)
    (p : Provider Db)
    → ((s : List Multiaddr × UrsaService Db) × (new_service l peer config store p ≡ ok s)
        × IsReady l peer config store p s)
      ⊎ (Refused l peer config × (new_service l peer config store p ≡ panic))
unfolding new_service new_transport subscribe public_address is_relay_client_enabled
new_service-outcome l peer config store p = elim (Bool-cases l.noise_signs) [
  | inr e ↦ inr (no_signature e, rw e refl)
  | inl signs ↦ elim (Bool-cases l.dns_reads) [
    | inr e ↦ inr (no_dns e, rw (signs, e) refl)
    | inl reads ↦ elim (new_behaviour_cases l peer config) [
      | inr (refused, e) ↦ inr (refused, rw (signs, reads, e) refl)
      | inl (d, made) ↦ elim (Bool-cases (l.listens config.swarm_addr)) [
        | inr e ↦ inr (no_listener e, rw (signs, reads, made, e) refl)
        | inl listens ↦ elim (dial_all_cases l.dials config.bootstrap_nodes) [
          | inr (refused, e) ↦ inr (no_dial refused, rw (signs, reads, made, listens, e) refl)
          | inl (all, dialled) ↦ inl (
              rw (signs, reads, made, listens, dialled)
                (
                  _,
                  refl,
                  record {
                    peer_id = refl;
                    shared_store = refl;
                    provider = refl;
                    listens = listens;
                    listening = refl;
                    dials = all;
                    dialled = refl;
                    no_channels = refl;
                    no_responses = refl;
                    no_queries = refl;
                    no_events = refl;
                    relay = refl;
                    address = address_unknown config.autonat;
                  },
                ))
        ]
      ]
    ]
  ]
]
