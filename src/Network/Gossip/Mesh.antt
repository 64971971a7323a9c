-- ===== src/Network/Gossip/Mesh.antt =====
-- The mesh numbers of a gossip configuration.
use ursa.Prelude.{ℕ, ◌≤◌, ◌*◌, ◌≡◌, refl, Bool, true, false, Result, ok, arith}
use ursa.Network.Config.{NetworkConfig}
use ursa.Network.Gossip.{GossipsubConfig, gossip_config, new_gossipsub}

-- What the documentation of the builder asks of a configuration.
pub record IsMesh (c : GossipsubConfig) : Type 0 where
  pub outbound_low : c.mesh_outbound_min ≤ c.mesh_n_low
  pub low_mesh : c.mesh_n_low ≤ c.mesh_n
  pub mesh_high : c.mesh_n ≤ c.mesh_n_high
  pub outbound_half : c.mesh_outbound_min * 2 ≤ c.mesh_n
  pub transmits : 100 ≤ c.max_transmit_size

-- No subtraction underflows, and the configuration is one that the documentation of the builder allows.
pub gossip_config-IsMesh {ℓ} :
    {E : Type ℓ} (config : NetworkConfig)
    → (c : GossipsubConfig) × (gossip_config {E = E} config ≡ ok c) × IsMesh c
unfolding gossip_config
gossip_config-IsMesh {E = E} config = kinds config.bootstrapper
  where
    kinds :
        (bootstrapper : Bool)
        → (c : GossipsubConfig) × (gossip_config {E = E}
              (record config { bootstrapper = bootstrapper })
            ≡ ok c)
          × IsMesh c
    kinds true = (
      _,
      refl,
      record {
        outbound_low = omega arith;
        low_mesh = omega arith;
        mesh_high = omega arith;
        outbound_half = omega arith;
        transmits = omega arith;
      },
    )
    kinds false = (
      _,
      refl,
      record {
        outbound_low = omega arith;
        low_mesh = omega arith;
        mesh_high = omega arith;
        outbound_half = omega arith;
        transmits = omega arith;
      },
    )

-- A builder that accepts all configurations that its documentation allows accepts that of a bootstrapper
-- and that of any other node: the construction does not panic.
pub new_gossipsub_builds :
    (builds : GossipsubConfig → Bool) (config : NetworkConfig)
    → ((c : GossipsubConfig) → IsMesh c → builds c ≡ true)
    → (c : GossipsubConfig) × ◌≡◌ {A = Result ℕ GossipsubConfig}
        (new_gossipsub builds config)
        (ok c)
      × IsMesh c
unfolding new_gossipsub
new_gossipsub_builds builds config accepts =
    let (c, made, mesh) = gossip_config-IsMesh {E = ℕ} config in
    (c, rw (made, accepts c mesh, new_gossipsub) refl, mesh)
