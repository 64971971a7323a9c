-- ===== src/Network.antt =====
-- crates/ursa-network: the libp2p side of a node, from the addresses and the configuration up to the
-- event loop of the service.
pub mod Multiaddr
pub mod Config
pub mod Discovery
pub mod Exchange
pub mod Codec
pub mod Gossip
pub mod Behaviour
pub mod Service
pub mod Transport
pub mod Start
