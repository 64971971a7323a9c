-- ===== src/Node/Config/Loading.antt =====
-- What the first start of a node leaves for later starts, where writing goes through and where it does not.
use Prim.Native.String.{String}
use text.Mathlib.TextEquality.{eq_iff}
use ursa.Prelude.{◌≡◌, refl, ap, ◌∙◌, none, some, true, false, ok, err, panic, ◌>>=◌, some_or_panic}
use ursa.Network.Config.{Host}
use ursa.Node.Identity.{IoError, io_failed}
use ursa.Node.Config.{
  UrsaConfig, default_ursa, Toml, Entry, utf8, Disk, store, write_config, load_config,
  read_file_to_string, CliOpts, config_path, to_config,
}

-- A configuration that was written is read as it was; an empty text is no configuration.
pub record IsToml (t : Toml) : Type 0 where
  pub reads : (c : UrsaConfig) (x : t.Text) → t.to_text c ≡ some x → t.from_text x ≡ some c
  pub needs_fields : t.from_text t.empty ≡ none

module _ (t : Toml) (host : Host) where
  store_self :
      (d : Disk t.Text) (path : String) (x : t.Text) → (store d path x).files path ≡ some (utf8 x)
  unfolding store
  store_self d path x = rw ((eq_iff path path).1 refl) refl

  -- A path that has a file is left alone.
  load_config_keeps :
      (d : Disk t.Text) (path : String) (e : Entry t.Text)
      → d.files path ≡ some e
      → load_config t host d path ≡ (d, ok tt)
  unfolding load_config
  load_config_keeps d path e h = rw h refl

  reads_file :
      (d : Disk t.Text) (opts : CliOpts t) (x : t.Text)
      → d.files (config_path t host opts) ≡ some (utf8 x)
      → to_config t host opts d ≡ (some_or_panic (t.from_text x) >>= λ c. ok (ok c))
  unfolding to_config read_file_to_string
  reads_file d opts x h = rw (h, to_config, read_file_to_string) refl

  module _ (toml : IsToml t) (config : UrsaConfig) (x : t.Text)
      (default : default_ursa {E = IoError} host ≡ ok config)
      (printed : t.to_text config ≡ some x) where
    first_written :
        (d : Disk t.Text) (path : String)
        → d.files path ≡ none
        → load_config t host d path ≡ write_config t d path x
    unfolding load_config
    first_written d path h = rw (h, default, printed) refl

    -- Where the configuration file is missing and can be written, the first start writes the defaults and reads
    -- them back, and every later start finds the file, leaves it alone and reads the same.
    pub to_config-load_config :
        (d : Disk t.Text) (opts : CliOpts t)
        → d.files (config_path t host opts) ≡ none
        → d.makes_dirs ≡ true
        → d.creates ≡ true
        → d.writes ≡ true
        → let (d', outcome) = load_config t host d (config_path t host opts) in
          (outcome ≡ ok tt)
          × (to_config t host opts d' ≡ ok (ok config))
          × (load_config t host d' (config_path t host opts) ≡ (d', ok tt))
    unfolding write_config
    to_config-load_config d opts h dirs creates writes =
        let path = config_path t host opts in
        let stored : write_config t d path x ≡ (store d path x, ok tt) =
          rw (dirs, write_config) (rw (creates, write_config) (rw (writes, write_config) refl)) in
        rw (first_written d path h, stored)
          (
            refl,
            reads_file (store d path x) opts x (store_self d path x)
                ∙ ap (λ o. some_or_panic o >>= λ c. ok (ok c)) (toml.reads config x printed),
            load_config_keeps (store d path x) path (utf8 x) (store_self d path x),
          )

    -- Where the first start creates the file and then fails to write it, the file stays empty: a later start,
    -- whatever else has changed on the disk, takes it for the configuration and panics.
    pub load_config_interrupted :
        (d later : Disk t.Text) (opts : CliOpts t)
        → d.files (config_path t host opts) ≡ none
        → d.makes_dirs ≡ true
        → d.creates ≡ true
        → d.writes ≡ false
        → later.files (config_path t host opts)
          ≡ (load_config t host d (config_path t host opts)).0.files (config_path t host opts)
        → ((load_config t host d (config_path t host opts)).1 ≡ err io_failed)
          × (load_config t host later (config_path t host opts) ≡ (later, ok tt))
          × (to_config t host opts later ≡ panic)
    unfolding write_config
    load_config_interrupted d later opts h dirs creates writes same =
        let path = config_path t host opts in
        let failed : write_config t d path x ≡ (store d path t.empty, err io_failed) =
          rw (dirs, write_config) (rw (creates, write_config) (rw (writes, write_config) refl)) in
        let left = first_written d path h ∙ failed in
        let found : later.files path ≡ some (utf8 t.empty) =
          same ∙ (ap (λ r. r.0.files path) left ∙ store_self d path t.empty) in
        (
          ap (λ r. r.1) left,
          load_config_keeps later path (utf8 t.empty) found,
          reads_file later opts t.empty found
              ∙ ap (λ o. some_or_panic o >>= λ c. ok (ok c)) toml.needs_fields,
        )
