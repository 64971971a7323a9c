-- ===== src/Node/Main.antt =====
-- `main` of crates/ursa/src/main.rs up to the wait for Ctrl-C, and the commands of
-- crates/ursa/src/ursa/rpc_commands.rs. RocksDB, the generation of keys and what the network's libraries
-- answer are parameters.
pub mod Started
pub mod First
mod Tests
use Prim.Native.String.{String}
use text.Mathlib.Text.{◌==◌ as str_eq}
use ursa.Prelude.{
  ℕ, List, [], ◌∷◌, Option, none, some, Bool, true, false, if◌then◌else◌, Result, ok, err, panic,
  ◌>>=◌, unwrap, some_or_panic,
}
use ursa.Network.Multiaddr.{PeerId, Multiaddr}
use ursa.Network.Config.{NetworkConfig, Host}
use ursa.Network.Service.{UrsaService}
use ursa.Network.Start.{Libraries, new_service}
use ursa.Index.Provider.{Provider, new_provider}
use ursa.Rpc.Api.{NodeNetworkInterface}
use ursa.Rpc.Client.{CallError}
use ursa.Rpc.Server.{ServerConfig, Web, Listening, call_function}
use ursa.Rpc.Functions.{get_file, put_file}
use ursa.Node.Identity.{
  Keypair, ed25519, other_key, IoError, Formats, Files, IdentityManager, load_or_new,
}
use ursa.Node.Config.{ProviderConfig, UrsaConfig, Toml, Disk, load_config, CliOpts, to_config}
use ursa.Metrics.Server.{MetricsServiceConfig}

pub data RpcCommands : Type 0 where
  put : String → RpcCommands
  get : String → String → RpcCommands

-- What a command logs.
pub data Logged : Type 0 where
  put_done : String → Logged
  file_stored : String → Logged
  call_failed : Logged

module _ (w : Web) (server : Listening w) where
  abbrev put_logged : Result CallError String → Result ℕ Logged
  put_logged (ok v) = ok (put_done v)
  put_logged (err e) = ok call_failed
  put_logged panic = panic

  abbrev get_logged : String → Result CallError (Unit {0}) → Result ℕ Logged
  get_logged path (ok v) = ok (file_stored path)
  get_logged path (err e) = ok call_failed
  get_logged path panic = panic

  unfoldable pub run_command : RpcCommands → Result ℕ Logged
  run_command (put path) = put_logged (call_function w server put_file (record { path = path }))
  run_command (get cid path) =
      get_logged path (call_function w server get_file (record { path = path; cid = cid }))

-- What the node finds on its machine: the key that is generated next, the directories of key files, the
-- peer id of a key pair, the databases that open (given those that are open), and the network.
pub record Machine (Db : Type 0) : Type 0 where
  pub host : Host
  pub fresh : ℕ
  pub dir_of : String → ℕ
  pub number : Keypair → ℕ
  pub peer_of : ℕ → PeerId
  pub open_db : List String → String → Option Db
  pub libraries : Libraries

module _ {Db : Type 0} (f : Formats) (mc : Machine Db) where
  abbrev pub random_identity : IdentityManager f
  random_identity = record { name = "random"; identity = ed25519 mc.fresh; dir = mc.dir_of "" }

  unfoldable pub choose_identity :
      Files f.Text → NetworkConfig → Result IoError (Files f.Text × IdentityManager f)
  choose_identity keys config =
      if str_eq config.identity "random"
      then ok (keys, random_identity)
      else load_or_new f mc.fresh keys config.identity (mc.dir_of config.keystore_path)

  -- The parts of a node whose tasks were spawned.
  pub record Node : Type 0 where
    pub keys : Files f.Text
    pub identity : IdentityManager f
    pub store : Db
    pub dialled : List Multiaddr
    pub service : UrsaService Db
    pub interface : NodeNetworkInterface Db
    pub server_config : ServerConfig
    pub metrics_config : MetricsServiceConfig
    pub provider : Provider Db
    pub provider_config : ProviderConfig

  -- `--rpc-port` goes before the configured port.
  pub override_port : Option ℕ → ServerConfig → ServerConfig
  override_port none config = config
  override_port (some port) config = record config { port = port }

  unfoldable pub start_node : Files f.Text → UrsaConfig → Option ℕ → Result ℕ Node
  unfolding override_port choose_identity
  start_node keys config rpc_port = do
    let server_config = override_port rpc_port config.server_config
    (keys', im) ← unwrap (choose_identity keys config.network_config)
    let keypair = mc.number im.identity
    db ← some_or_panic (mc.open_db [] config.network_config.database_path)
    provider_db ←
        some_or_panic (
          mc.open_db (config.network_config.database_path ∷ [])
            config.provider_config.database_path)
    let index_provider = new_provider keypair provider_db
    (dialled, service) ←
        unwrap
          (new_service mc.libraries (mc.peer_of keypair) config.network_config db index_provider)
    ok (record {
      keys = keys';
      identity = im;
      store = db;
      dialled = dialled;
      service = service;
      interface = record { store = db; sent = [] };
      server_config = server_config;
      metrics_config = config.metrics_config;
      provider = index_provider;
      provider_config = config.provider_config;
    })

  pub data Outcome : Type 0 where
    commanded : Logged → Outcome
    started : Node → Outcome

  module _ (t : Toml) (w : Web) (server : Listening w) where
    abbrev chosen :
        Files f.Text → CliOpts t → Option RpcCommands → Result IoError UrsaConfig → Result ℕ Outcome
    chosen keys opts cmd (err e) = err 1
    chosen keys opts cmd panic = panic
    chosen keys opts (some command) (ok config) = do
      logged ← run_command w server command
      ok (commanded logged)
    chosen keys opts none (ok config) = do
      node ← start_node keys config opts.rpc_port
      ok (started node)

    abbrev after_load :
        Disk t.Text × Result IoError (Unit {0})
        → (Disk t.Text → Result ℕ Outcome)
        → Result ℕ Outcome
    after_load (d, panic) next = panic
    after_load (d, ok tt) next = next d
    after_load (d, err e) next = next d

    -- An error of `load_config` is dropped.
    unfoldable pub main :
        Disk t.Text → Files f.Text → CliOpts t → Option RpcCommands → Result ℕ Outcome
    unfolding load_config to_config start_node run_command
    main d keys opts cmd =
        after_load (load_config t mc.host d (mc.host.home_join ".ursa/config.toml"))
          λ d'. do config ← to_config t mc.host opts d'; chosen keys opts cmd config
