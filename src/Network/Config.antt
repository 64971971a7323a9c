-- ===== src/Network/Config.antt =====
-- `NetworkConfig` of crates/ursa-network/src/config.rs. Paths are texts; parsing an address is a
-- parameter, since `Multiaddr::from_str` belongs to libp2p.
use Prim.Native.String.{String}
use ursa.Prelude.{List, [], ◌∷◌, Bool, true, false, Result, ok, ◌>>=◌, unwrap}
use ursa.Network.Multiaddr.{Multiaddr}

pub record NetworkConfig : Type 0 where
  pub mdns : Bool
  pub relay_server : Bool
  pub autonat : Bool
  pub relay_client : Bool
  pub bootstrapper : Bool
  pub swarm_addr : Multiaddr
  pub bootstrap_nodes : List Multiaddr
  pub database_path : String
  pub identity : String
  pub keystore_path : String

abbrev default_bootstrap : List String
default_bootstrap =
    "/ip4/159.223.211.234/tcp/6009/p2p/12D3KooWDji7xMLia6GAsyr4oiEFD2dd3zSryqNhfxU3Grzs1r9p"
    ∷ "/ip4/146.190.232.131/tcp/6009/p2p/12D3KooWGw8vCj9XayJDMXUiox6pCUFm7oVuWkDJeE2H9SDQVEcM" ∷ []

-- What the default takes from outside: the parser of addresses, and paths below the home directory.
pub record Host : Type 0 where
  pub parse_multiaddr : String → Result String Multiaddr
  pub home_join : String → String

-- `node.parse().unwrap()` for each node.
unfoldable pub parse_all : Host → List String → Result String (List Multiaddr)
parse_all host [] = ok []
parse_all host (s ∷ ss) = do
  addr ← unwrap (host.parse_multiaddr s)
  rest ← parse_all host ss
  ok (addr ∷ rest)

unfoldable pub default_config : Host → Result String NetworkConfig
unfolding parse_all
default_config host = do
  bootstrap_nodes ← parse_all host default_bootstrap
  swarm_addr ← unwrap (host.parse_multiaddr "/ip4/0.0.0.0/tcp/6009")
  ok (record {
    mdns = false;
    relay_server = true;
    autonat = true;
    relay_client = true;
    bootstrapper = false;
    swarm_addr = swarm_addr;
    bootstrap_nodes = bootstrap_nodes;
    database_path = host.home_join ".ursa/data/ursa_db";
    identity = "default";
    keystore_path = host.home_join ".ursa/keystore";
  })
