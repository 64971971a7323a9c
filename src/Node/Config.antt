-- ===== src/Node/Config.antt =====
-- The configuration of a node: crates/ursa/src/config.rs, the options of crates/ursa/src/ursa/mod.rs, and the
-- defaults of the index provider, the metrics and the network. TOML and the file system are parameters; an
-- `err` of the outer result is the code with which the process exits.
pub mod Loading
pub mod Tests
use Prim.Native.String.{String}
use text.Mathlib.Text.{◌==◌ as str_eq}
use ursa.Prelude.{
  ℕ, Option, none, some, Bool, true, false, if◌then◌else◌, Result, ok, err, panic, ◌>>=◌, ◌>>◌,
  unwrap, some_or_panic, ensure,
}
use ursa.Network.Config.{NetworkConfig, Host, default_config as default_network}
use ursa.Metrics.Server.{MetricsServiceConfig, default_metrics}
use ursa.Rpc.Server.{ServerConfig, default_config as default_server}
use ursa.Node.Identity.{IoError, io_failed}

pub record ProviderConfig : Type 0 where
  pub local_address : String
  pub port : ℕ
  pub domain : String
  pub indexer_url : String
  pub database_path : String

abbrev default_provider : Host → ProviderConfig
default_provider host = record {
  local_address = "0.0.0.0";
  port = 8070;
  domain = "";
  indexer_url = "https://dev.cid.contact";
  database_path = host.home_join ".ursa/data/index_provider_db";
}

pub record UrsaConfig : Type 0 where
  pub network_config : NetworkConfig
  pub provider_config : ProviderConfig
  pub metrics_config : MetricsServiceConfig
  pub server_config : ServerConfig

-- The texts of the default addresses are unwrapped.
unfoldable pub default_ursa : {E : Type 0} → Host → Result E UrsaConfig
default_ursa host = do
  network ← unwrap (default_network host)
  ok (record {
    network_config = network;
    provider_config = default_provider host;
    metrics_config = default_metrics;
    server_config = default_server;
  })

-- How a configuration is written and read.
pub record Toml : Type 1 where
  pub Text : Type 0
  pub to_text : UrsaConfig → Option Text
  pub from_text : Text → Option UrsaConfig
  pub empty : Text

-- A file that can be read, one that is not UTF-8, and one that cannot be opened.
pub data Entry (Text : Type 0) : Type 0 where
  utf8 : Text → Entry Text
  not_utf8 locked : Entry Text

-- The files by their paths, and which steps of writing a file go through.
pub record Disk (Text : Type 0) : Type 0 where
  pub files : String → Option (Entry Text)
  pub makes_dirs : Bool
  pub creates : Bool
  pub writes : Bool

unfoldable pub store : {Text : Type 0} → Disk Text → String → Text → Disk Text
store d path contents = record d {
  files = λ p. if str_eq p path then some (utf8 contents) else d.files p;
}

abbrev pub is_some {ℓ} : {A : Type ℓ} → Option A → Bool
is_some none = false
is_some (some a) = true

module _ (t : Toml) where
  -- `create_dir_all`, `File::create` and `write_all`: a file that is created starts empty.
  unfoldable pub write_config :
      Disk t.Text → String → t.Text → Disk t.Text × Result IoError (Unit {0})
  unfolding store
  write_config d path contents =
      if d.makes_dirs
      then (if d.creates
          then (if d.writes
              then (store d path contents, ok tt)
              else (store d path t.empty, err io_failed))
          else (d, err io_failed))
      else (d, err io_failed)

  abbrev written :
      Disk t.Text → String → Result IoError t.Text → Disk t.Text × Result IoError (Unit {0})
  written d path (ok contents) = write_config d path contents
  written d path (err e) = (d, err e)
  written d path panic = (d, panic)

  unfoldable pub load_config : Host → Disk t.Text → String → Disk t.Text × Result IoError (Unit {0})
  unfolding write_config default_ursa
  load_config host d path =
      if is_some (d.files path)
      then (d, ok tt)
      else written d path (do config ← default_ursa host; some_or_panic (t.to_text config))

  -- A file that cannot be opened, or is not there, ends the process.
  pub read_file_to_string : Disk t.Text → String → Result ℕ (Result IoError t.Text)
  read_file_to_string d path = elim (d.files path) [
    | some (utf8 contents) ↦ ok (ok contents)
    | some not_utf8 ↦ ok (err io_failed)
    | some locked ↦ err 1
    | none ↦ err 1
  ]

  pub record CliOpts : Type 0 where
    pub config : Option String
    pub rpc : Bool
    pub rpc_port : Option ℕ

  abbrev pub config_path : Host → CliOpts → String
  config_path host opts = elim opts.config [
    | none ↦ host.home_join ".ursa/config.toml"
    | some config_file ↦ config_file
  ]

  unfoldable pub to_config : Host → CliOpts → Disk t.Text → Result ℕ (Result IoError UrsaConfig)
  unfolding read_file_to_string
  to_config host opts d = do
    read ← read_file_to_string d (config_path host opts)
    toml ← unwrap read
    config ← some_or_panic (t.from_text toml)
    ok (ok config)
