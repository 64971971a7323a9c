-- ===== src/Node/Config/Tests.antt =====
-- A home directory with no configuration yet, and the theorems at it.
use ursa.Prelude.{◌≡◌, refl, [], ◌∷◌, Option, none, some, true, false, ok}
use ursa.Network.Multiaddr.{Multiaddr, ip4, tcp, p2p}
use ursa.Network.Config.{Host, default_config, parse_all}
use ursa.Rpc.Server.{default_config as default_server}
use ursa.Node.Config.{UrsaConfig, default_ursa, default_provider, Toml, Disk, store, CliOpts}
use ursa.Metrics.Server.{default_metrics}
use ursa.Node.Config.Loading.{IsToml}

abbrev pub node_5 : Multiaddr
node_5 = ip4 9 ∷ tcp 6009 ∷ p2p 5 ∷ []

abbrev pub host : Host
host = record { parse_multiaddr = λ s. ok node_5; home_join = λ s. s }

-- A text is the configuration in it, if there is one.
abbrev pub toml : Toml
toml = record {
  Text = Option UrsaConfig;
  to_text = λ c. some (some c);
  from_text = λ x. x;
  empty = none;
}

pub toml-IsToml : IsToml toml
toml-IsToml = record { reads = λ c x e. cc; needs_fields = refl }

abbrev pub config : UrsaConfig
config = record {
  network_config = record {
    mdns = false;
    relay_server = true;
    autonat = true;
    relay_client = true;
    bootstrapper = false;
    swarm_addr = node_5;
    bootstrap_nodes = node_5 ∷ node_5 ∷ [];
    database_path = ".ursa/data/ursa_db";
    identity = "default";
    keystore_path = ".ursa/keystore";
  };
  provider_config = default_provider host;
  metrics_config = default_metrics;
  server_config = default_server;
}

pub config-default : {E : Type 0} → default_ursa {E = E} host ≡ ok config
unfolding default_ursa default_config parse_all
config-default = refl

abbrev pub blank : Disk (Option UrsaConfig)
blank = record { files = λ p. none; makes_dirs = true; creates = true; writes = true }

abbrev no_opts : CliOpts toml
no_opts = record { config = none; rpc = false; rpc_port = none }

abbrev pub full : Disk (Option UrsaConfig)
full = record blank { writes = false }

abbrev pub freed : Disk (Option UrsaConfig)
freed = record blank { files = (store full ".ursa/config.toml" none).files }
