-- ===== src/Node/Main/First.antt =====
-- A first start that cannot write the configuration, and the starts after it.
use Prim.Native.String.{String}
use ursa.Prelude.{
  ℕ, ◌≡◌, refl, ap, ◌∙◌, Option, none, some, Bool, true, false, Result, ok, err, panic, ◌>>=◌,
}
use ursa.Rpc.Server.{Web, Listening}
use ursa.Node.Identity.{IoError, io_failed, Formats, Files}
use ursa.Node.Config.{UrsaConfig, default_ursa, Toml, Disk, load_config, CliOpts, to_config}
use ursa.Node.Config.Loading.{IsToml, load_config_interrupted}
use ursa.Node.Main.{Machine, RpcCommands, Outcome, main, after_load, chosen}

-- The options of a start without `--config`.
abbrev pub plain : (t : Toml) → Bool → Option ℕ → CliOpts t
plain t rpc rpc_port = record { config = none; rpc = rpc; rpc_port = rpc_port }

module _ {Db : Type 0} (f : Formats) (mc : Machine Db) (t : Toml) (w : Web) (server : Listening w)
    (toml : IsToml t) (config : UrsaConfig) (x : t.Text)
    (default : default_ursa {E = IoError} mc.host ≡ ok config)
    (printed : t.to_text config ≡ some x) where
  abbrev pub home : String
  home = mc.host.home_join ".ursa/config.toml"

  abbrev Next : Type 0
  Next = Disk t.Text → Result ℕ (Outcome f mc)

  after_ok :
      (r : Disk t.Text × Result IoError (Unit {0})) (next : Next)
      → r.1 ≡ ok tt
      → after_load f mc t w server r next ≡ next r.0
  after_ok (d, ok tt) next h = refl
  after_ok (d, err e) next h = cc
  after_ok (d, panic) next h = cc

  after_err :
      (r : Disk t.Text × Result IoError (Unit {0})) (next : Next)
      → r.1 ≡ err io_failed
      → after_load f mc t w server r next ≡ next r.0
  after_err (d, ok tt) next h = cc
  after_err (d, err e) next h = refl
  after_err (d, panic) next h = cc

  -- Without `--config`: where the configuration file is created and then cannot be written, this start
  -- panics, and so does every later one without `--config` that finds the file as it was left, with any
  -- command.
  pub main_interrupted :
      (d later : Disk t.Text) (keys : Files f.Text) (rpc : Bool) (rpc_port : Option ℕ)
      (cmd : Option RpcCommands)
      → d.files home ≡ none
      → d.makes_dirs ≡ true
      → d.creates ≡ true
      → d.writes ≡ false
      → later.files home ≡ (load_config t mc.host d home).0.files home
      → (main f mc t w server d keys (plain t rpc rpc_port) cmd ≡ panic)
        × (main f mc t w server later keys (plain t rpc rpc_port) cmd ≡ panic)
  unfolding main
  main_interrupted d later keys rpc rpc_port cmd missing dirs creates writes same =
      let opts = plain t rpc rpc_port in
      let left = (load_config t mc.host d home).0 in
      let (failed, kept, broken) =
        load_config_interrupted t mc.host toml config x default printed d left opts missing dirs
          creates writes refl in
      let (failed', kept', broken') =
        load_config_interrupted t mc.host toml config x default printed d later opts missing dirs
          creates writes same in
      (
        after_err _ _ failed ∙ ap (λ r. r >>= chosen f mc t w server keys opts cmd) broken,
        after_ok _ _ (ap (λ r. r.1) kept')
            ∙ (ap (λ r. to_config t mc.host opts r.0 >>= chosen f mc t w server keys opts cmd) kept'
                ∙ ap (λ r. r >>= chosen f mc t w server keys opts cmd) broken'),
      )
