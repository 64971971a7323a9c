-- ===== src/Network/Gossip.antt =====
-- `UrsaGossipsub` of crates/ursa-network/src/gossipsub.rs. The builder's own validation and the hash of a
-- message are parameters; durations are seconds.
pub mod Mesh
use ursa.Prelude.{
  ℕ, ltb, ◌-◌, ◌/◌, ◌*◌, Option, none, some, Bool, true, false, if◌then◌else◌, Result, ok, err,
  panic, ◌>>=◌, ◌>>◌, ensure_or_panic,
}
use ursa.Network.Config.{NetworkConfig}

pub record GossipsubConfig : Type 0 where
  pub mesh_n : ℕ
  pub mesh_n_low : ℕ
  pub mesh_n_high : ℕ
  gossip_lazy : ℕ
  heartbeat_interval : ℕ
  fanout_ttl : ℕ
  pub max_transmit_size : ℕ
  duplicate_cache_time : ℕ
  pub mesh_outbound_min : ℕ
  max_messages_per_rpc : Option ℕ

-- A subtraction of `usize`. Below zero it panics where overflow is checked, and else gives a number that the
-- builder refuses with a panic.
checked_sub {ℓ} : {E : Type ℓ} → ℕ → ℕ → Result E ℕ
checked_sub a b = if ltb a b then panic else ok (a - b)

pub gossip_config {ℓ} : {E : Type ℓ} → NetworkConfig → Result E GossipsubConfig
unfolding checked_sub
gossip_config config = do
  let mesh_n = if config.bootstrapper then 0 else 8
  mesh_outbound_min ← if config.bootstrapper then ok 0 else checked_sub (mesh_n / 2) 1
  ok (record {
    mesh_n = mesh_n;
    mesh_n_low = if config.bootstrapper then 0 else 4;
    mesh_n_high = if config.bootstrapper then 0 else 12;
    gossip_lazy = mesh_n;
    heartbeat_interval = 1;
    fanout_ttl = 60;
    max_transmit_size = 4 * 1024 * 1024;
    duplicate_cache_time = 60;
    mesh_outbound_min = mesh_outbound_min;
    max_messages_per_rpc = some 1;
  })

-- `builds` is the validation of the builder, which is expected to accept.
unfoldable pub new_gossipsub {ℓ} :
    {E : Type ℓ} → (GossipsubConfig → Bool) → NetworkConfig → Result E GossipsubConfig
unfolding gossip_config
new_gossipsub builds config = do c ← gossip_config config; ensure_or_panic (builds c); ok c
