-- ===== src/Node/Main/Tests.antt =====
-- A machine with an empty key store, two databases and the network of one peer, and the theorems at it.
use Prim.Native.String.{String}
use ursa.Prelude.{◌⊎◌, ℕ, ◌≡◌, refl, List, [], ◌∷◌, Option, none, some, false, ◌+◌, ok, panic}
use ursa.Network.Start.Tests.{libraries}
use ursa.Rpc.Server.{Listening, new_server, start, default_config as default_server}
use ursa.Rpc.Server.Tests.{trees, node, no_http}
use ursa.Node.Identity.{Keypair, ed25519, other_key, Files, IdentityManager}
use ursa.Node.Identity.Tests.{formats, disk, formats-AreFormats, made}
use ursa.Node.Identity.Loading.{with_key, manager}
use ursa.Network.Config.{default_config}
use ursa.Node.Config.{store, load_config}
use ursa.Node.Config.Tests.{host, toml, toml-IsToml, config, config-default, full, freed}
use ursa.Node.Main.{Machine, choose_identity, Node, start_node, main}
use ursa.Node.Main.Started.{IsStarted, Unstarted, start_node-outcome}
use ursa.Node.Main.First.{plain, main_interrupted}

-- A database is opened only once.
abbrev open_one : List String → String → Option ℕ
open_one [] path = some 0
open_one (_ ∷ _) path = some 1

abbrev secret : Keypair → ℕ
secret (ed25519 k) = k
secret (other_key k) = k

abbrev machine : Machine ℕ
machine = record {
  host = host;
  fresh = 9;
  dir_of = λ path. 1;
  number = secret;
  peer_of = λ k. k + 1;
  open_db = open_one;
  libraries = libraries;
}

abbrev listening : Listening trees
listening = start trees (new_server trees node no_http) default_server

abbrev keys : Files formats.Text
keys = with_key formats formats-AreFormats disk 1 9

abbrev im : IdentityManager formats
im = manager formats formats-AreFormats "default" 1 (ed25519 9)

identified : choose_identity formats machine disk config.network_config ≡ ok (keys, im)
unfolding choose_identity
identified = made

start_node-outcome_example :
    ((n : Node formats machine) × (start_node formats machine disk config (some 5000) ≡ ok n)
      × IsStarted formats machine disk config (some 5000) n)
    ⊎ (Unstarted formats machine disk config
        × (start_node formats machine disk config (some 5000) ≡ panic))
start_node-outcome_example = start_node-outcome formats machine disk config (some 5000)

main_interrupted_example :
    (main formats machine toml trees listening full disk (plain toml false none) none ≡ panic)
    × (main formats machine toml trees listening freed disk (plain toml false none) none ≡ panic)
unfolding load_config store default_config
main_interrupted_example =
    main_interrupted formats machine toml trees listening toml-IsToml config (some config)
      config-default refl full freed disk false none none refl refl refl refl refl
