-- ===== src/Node/Main/Started.antt =====
-- When a node starts, and how the parts of a started node belong together.
use ursa.Prelude.{
  ℕ, ◌≡◌, refl, [], ◌∷◌, ◌⊎◌, inl, inr, Option, none, some, Option-cases, Result-cases, ok, panic,
}
use ursa.Network.Start.Ready.{IsReady, Refused, new_service-outcome}
use ursa.Index.Provider.{new_provider}
use ursa.Node.Identity.{Formats, Files, IdentityManager}
use ursa.Node.Config.{UrsaConfig}
use ursa.Node.Main.{Machine, choose_identity, Node, override_port, start_node}

module _ {Db : Type 0} (f : Formats) (mc : Machine Db) where
  -- The service, the provider and the interface share the key, the store and the provider, which has a
  -- database of its own; nothing has been published or sent; the port of the command line goes before the
  -- configured one.
  pub record IsStarted (keys : Files f.Text) (config : UrsaConfig) (rpc_port : Option ℕ)
      (n : Node f mc) : Type 0 where
    identity : choose_identity f mc keys config.network_config ≡ ok (n.keys, n.identity)
    signer : n.provider.keypair ≡ mc.number n.identity.identity
    shared : n.service.index_provider ≡ n.provider
    headless : n.provider.head ≡ none
    unqueued : n.provider.root_cids ≡ []
    database : mc.open_db [] config.network_config.database_path ≡ some n.store
    provider_database :
        mc.open_db (config.network_config.database_path ∷ []) config.provider_config.database_path
        ≡ some n.provider.blockstore
    service_store : n.service.store ≡ n.store
    interface_store : n.interface.store ≡ n.store
    unsent : n.interface.sent ≡ []
    ready :
        IsReady mc.libraries
          (mc.peer_of (mc.number n.identity.identity))
          config.network_config
          n.store
          n.provider
          (n.dialled, n.service)
    port : n.server_config.port ≡ (elim rpc_port [ none ↦ config.server_config.port | some p ↦ p ])

  -- What keeps a node from starting.
  pub data Unstarted (keys : Files f.Text) (config : UrsaConfig) : Type 0 where
    no_identity :
        ((x : Files f.Text × IdentityManager f)
          → choose_identity f mc keys config.network_config ≡ ok x
          → ⊥)
        → Unstarted keys config
    no_database : mc.open_db [] config.network_config.database_path ≡ none → Unstarted keys config
    no_provider_database :
        mc.open_db (config.network_config.database_path ∷ []) config.provider_config.database_path
          ≡ none
        → Unstarted keys config
    no_network :
        (x : Files f.Text × IdentityManager f)
        → choose_identity f mc keys config.network_config ≡ ok x
        → Refused mc.libraries (mc.peer_of (mc.number x.1.identity)) config.network_config
        → Unstarted keys config

  port_override :
      (rpc_port : Option ℕ) (config : UrsaConfig)
      → (override_port f mc rpc_port config.server_config).port
        ≡ (elim rpc_port [ none ↦ config.server_config.port | some p ↦ p ])
  unfolding override_port
  port_override none config = refl
  port_override (some p) config = refl

  abbrev Outcome : Files f.Text → UrsaConfig → Option ℕ → Type 0
  Outcome keys config rpc_port =
      ((n : Node f mc) × (start_node f mc keys config rpc_port ≡ ok n)
        × IsStarted keys config rpc_port n)
      ⊎ (Unstarted keys config × (start_node f mc keys config rpc_port ≡ panic))

  -- With an identity and both databases the network decides.
  networked :
      (keys keys' : Files f.Text) (im : IdentityManager f) (config : UrsaConfig)
      (rpc_port : Option ℕ) (db provider_db : Db)
      → choose_identity f mc keys config.network_config ≡ ok (keys', im)
      → mc.open_db [] config.network_config.database_path ≡ some db
      → mc.open_db (config.network_config.database_path ∷ []) config.provider_config.database_path
        ≡ some provider_db
      → Outcome keys config rpc_port
  unfolding start_node new_provider
  networked keys keys' im config rpc_port db provider_db chosen opened provider_opened =
      let keypair = mc.number im.identity in
      let provider = new_provider keypair provider_db in
      elim (new_service-outcome mc.libraries (mc.peer_of keypair) config.network_config db
        provider) [
          | inr (refused, e) ↦
              inr (
                no_network (keys', im) chosen refused,
                rw (chosen, opened, provider_opened, e) refl,
              )
          | inl (s, made, is_ready) ↦ inl (
            record {
              keys = keys';
              identity = im;
              store = db;
              dialled = s.0;
              service = s.1;
              interface = record { store = db; sent = [] };
              server_config = override_port f mc rpc_port config.server_config;
              metrics_config = config.metrics_config;
              provider = provider;
              provider_config = config.provider_config;
            },
            rw (chosen, opened, provider_opened, made) refl,
            record {
              identity = chosen;
              signer = refl;
              shared = is_ready.provider;
              headless = refl;
              unqueued = refl;
              database = opened;
              provider_database = provider_opened;
              service_store = is_ready.shared_store;
              interface_store = refl;
              unsent = refl;
              ready = is_ready;
              port = port_override rpc_port config;
            },
          )
        ]

  -- A node starts, and its parts belong together; or it has no identity, a database does not open, or the
  -- network keeps the service from starting, and then the start panics. There is no third outcome.
  pub start_node-outcome :
      (keys : Files f.Text) (config : UrsaConfig) (rpc_port : Option ℕ)
      → ((n : Node f mc) × (start_node f mc keys config rpc_port ≡ ok n)
          × IsStarted keys config rpc_port n)
        ⊎ (Unstarted keys config × (start_node f mc keys config rpc_port ≡ panic))
  unfolding start_node
  start_node-outcome keys config rpc_port =
      let network = config.network_config.database_path in
      let provider = config.provider_config.database_path in
      elim (Result-cases (choose_identity f mc keys config.network_config)) [
        | inr (inl (x, e)) ↦ inr (no_identity (λ y q. cc), rw e refl)
        | inr (inr e) ↦ inr (no_identity (λ y q. cc), rw e refl)
        | inl ((keys', im), chosen) ↦ elim (Option-cases (mc.open_db [] network)) [
          | inl e ↦ inr (no_database e, rw (chosen, e) refl)
          | inr (db, opened) ↦ elim (Option-cases (mc.open_db (network ∷ []) provider)) [
            | inl e ↦ inr (no_provider_database e, rw (chosen, opened, e) refl)
            | inr (provider_db, provider_opened) ↦
                networked keys keys' im config rpc_port db provider_db chosen opened provider_opened
          ]
        ]
      ]
