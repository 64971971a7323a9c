-- ===== src/Network/Service/Events.antt =====
-- A change of the NAT status and a gossip message leave the waiting block requests and the provider alone.
use ursa.Prelude.{
  ◌≡◌, refl, subst, inl, inr, [], ◌∷◌, ◌++◌, Option, none, some, Bool, true, false, if◌then◌else◌,
  Bool-cases, Result, ok, panic, ok-injective,
}
use ursa.Store.{BlockStore}
use ursa.Network.Multiaddr.{PeerId, Multiaddr, p2p, p2p_circuit}
use ursa.Network.Behaviour.{
  GossipsubMessage, NatStatus, public, private_nat, unknown, is_relay_client_enabled,
}
use ursa.Network.Discovery.{bootstrap_addrs}
use ursa.Network.Service.{World, UrsaService, ServiceError, tracked, emit}
use ursa.Network.Service.Turns.{handle_nat, handle_gossip, relay_through, went_private}
use ursa.Network.Service.Frame.{Calm, Calm-refl}
use ursa.Index.Provider.{ObjectStore}

module _ (b : BlockStore) (o : ObjectStore) where
  relay_through-Calm :
      (w : World b) (s s' : UrsaService o.Db) (chosen : Option (PeerId × Multiaddr))
      → relay_through b w s chosen ≡ ok s'
      → Calm s s'
  relay_through-Calm w s s' none h = subst (Calm s) (ok-injective h) (Calm-refl s)
  relay_through-Calm w s s' (some (peer, addr)) h =
      elim (Bool-cases (w.listens (circuit peer addr))) [
        | inl e ↦
            subst (Calm s) (ok-injective (rw (e, relay_through) at h))
              (record { channels = refl; replies = refl; provider = refl })
        | inr e ↦ absurd (clash (rw (e, relay_through) at h))
      ]
    where
      circuit : PeerId → Multiaddr → Multiaddr
      circuit peer addr = addr ++ p2p peer ∷ p2p_circuit ∷ []

      clash : ◌≡◌ {A = Result ServiceError (UrsaService o.Db)} panic (ok s') → ⊥
      clash e = cc

  went_private-Calm :
      (w : World b) (s s' : UrsaService o.Db) → went_private b w s ≡ ok s' → Calm s s'
  unfolding went_private
  went_private-Calm w s s' h = go (is_relay_client_enabled s.behaviour) h
    where
      go :
          (enabled : Bool)
          → (if enabled
              then relay_through b w s (w.choose (bootstrap_addrs s.behaviour.discovery))
              else ok s)
            ≡ ok s'
          → Calm s s'
      go true h = relay_through-Calm w s s' (w.choose (bootstrap_addrs s.behaviour.discovery)) h
      go false h = subst (Calm s) (ok-injective h) (Calm-refl s)

  pub handle_nat-Calm :
      (w : World b) (s s' : UrsaService o.Db) (old new : NatStatus)
      → handle_nat b w s old new ≡ ok s'
      → Calm s s'
  unfolding handle_nat
  handle_nat-Calm w s s' unknown private_nat h = went_private-Calm w s s' h
  handle_nat-Calm w s s' (public _) private_nat h = subst (Calm s) (ok-injective h) (Calm-refl s)
  handle_nat-Calm w s s' private_nat private_nat h = subst (Calm s) (ok-injective h) (Calm-refl s)
  handle_nat-Calm w s s' unknown (public a) h =
      subst (Calm s) (ok-injective h) (record { channels = refl; replies = refl; provider = refl })
  handle_nat-Calm w s s' (public _) (public a) h =
      subst (Calm s) (ok-injective h) (record { channels = refl; replies = refl; provider = refl })
  handle_nat-Calm w s s' private_nat (public a) h =
      subst (Calm s) (ok-injective h) (record { channels = refl; replies = refl; provider = refl })
  handle_nat-Calm w s s' unknown unknown h = subst (Calm s) (ok-injective h) (Calm-refl s)
  handle_nat-Calm w s s' (public _) unknown h = subst (Calm s) (ok-injective h) (Calm-refl s)
  handle_nat-Calm w s s' private_nat unknown h = subst (Calm s) (ok-injective h) (Calm-refl s)

  pub handle_gossip-Calm :
      (w : World b) (s : UrsaService o.Db) (peer : PeerId) (m : GossipsubMessage)
      → Calm s (handle_gossip b w s peer m)
  unfolding handle_gossip tracked emit
  handle_gossip-Calm w s peer m = elim (Bool-cases (w.is_connected peer)) [
    | inl e ↦ rw (e, handle_gossip) (record { channels = refl; replies = refl; provider = refl })
    | inr e ↦ rw (e, handle_gossip) (record { channels = refl; replies = refl; provider = refl })
  ]
