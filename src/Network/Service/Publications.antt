-- ===== src/Network/Service/Publications.antt =====
-- What any run of the service's loop has published, and what is still queued.
mod Tests
use ursa.Prelude.{
  ℕ, ◌≡◌, refl, sym, ap, ◌∙◌, subst, inl, inr, ◌⊎◌, List, [], ◌∷◌, ◌++◌, append-nil, append_assoc,
  Option, none, some, Result, ok, ok-injective,
}
use ursa.Store.{Cid, BlockStore}
use ursa.Network.Multiaddr.{Multiaddr}
use ursa.Network.Behaviour.{
  BehaviourEvent, bitswap, gossip_message, nat_status_changed, relay_reservation_opened,
  relay_reservation_closed, relay_circuit_opened, relay_circuit_closed, start_publish,
}
use ursa.Network.Service.{World, UrsaService, ServiceError}
use ursa.Network.Service.Publish.{handle_start_publish}
use ursa.Network.Service.Turns.{Turn, event, command, swarm, turn, start, handle_event}
use ursa.Network.Service.Quiet.{out, event_cases, publication_cases}
use ursa.Network.Service.Remaining.{first_turn}
use ursa.Network.Service.Advertised.{rev_onto, Decodes, Advertises, Advertises-Grows}
use ursa.Network.Service.Roots.{start_publish-Grows}
use ursa.Network.Service.Queued.{HoldsOff, Grows, turn-Grows, turn_indexes, indexed}
use ursa.Index.Provider.{ObjectStore, Provider}
use ursa.Index.Provider.Chains.{IsKept}
use ursa.Index.Provider.Growth.{Grows as Extends}
use ursa.Network.Service.Ledger.{
  rev_onto-rev_onto, rev_onto-append, append-rev_onto, Ledger, Ledger-Extends, Ledger-Advertises,
}

module _ (b : BlockStore) (o : ObjectStore) where
  starts_or_holds :
      (w : World b) (fuel : ℕ) (e : BehaviourEvent)
      → ((address : Multiaddr) × (e ≡ start_publish address)) ⊎ HoldsOff b o (event w fuel e)
  starts_or_holds w fuel (bitswap info) = inr tt
  starts_or_holds w fuel (gossip_message _ _ _) = inr tt
  starts_or_holds w fuel (BehaviourEvent.request_message _ _ _) = inr tt
  starts_or_holds w fuel (BehaviourEvent.peer_connected _) = inr tt
  starts_or_holds w fuel (BehaviourEvent.peer_disconnected _) = inr tt
  starts_or_holds w fuel (nat_status_changed _ _) = inr tt
  starts_or_holds w fuel (relay_reservation_opened _) = inr tt
  starts_or_holds w fuel (relay_reservation_closed _) = inr tt
  starts_or_holds w fuel relay_circuit_opened = inr tt
  starts_or_holds w fuel relay_circuit_closed = inr tt
  starts_or_holds w fuel (start_publish address) = inl (address, refl)

  module _ (P : World b → Type 0) where
    -- What was published, and the roots that came into the queue, in the order of their coming.
    record Accounts (old : Option Cid) (came : List Cid) (p : Provider o.Db) : Type 0 where
      published : List Cid
      ledger : Ledger b o P p.blockstore p.head published old
      ordered : rev_onto published p.root_cids ≡ came

    module _ (kept : IsKept o) (decodes : (w : World b) → P w → Decodes b o w) where
      published-Accounts :
          (w : World b) (old : Option Cid) (came : List Cid) (s s' : UrsaService o.Db)
          (address : Multiaddr)
          → P w
          → Accounts old came s.index_provider
          → handle_start_publish b o w s address ≡ some (ok s')
          → Accounts old (came ++ []) s'.index_provider
      published-Accounts w old came s s' address p acc h =
          let (ads, emptied, extends) =
            start_publish-Grows b o w kept (decodes w p) s s' address h in
          let queue = s.index_provider.root_cids in
          record {
            published = rev_onto queue [] ++ acc.published;
            ledger =
                Ledger-Advertises b o P w s'.index_provider.blockstore s'.index_provider.head
                  s.index_provider.head old (rev_onto queue []) acc.published p ads
                  (Ledger-Extends b o P s.index_provider.blockstore s'.index_provider.blockstore
                    s.index_provider.head acc.published old extends acc.ledger);
            ordered =
                ap (rev_onto (rev_onto queue [] ++ acc.published)) emptied
                ∙ (append-rev_onto (rev_onto queue []) acc.published []
                    ∙ (ap (rev_onto acc.published)
                          (rev_onto-rev_onto queue [] [] ∙ append-nil queue)
                        ∙ (acc.ordered ∙ sym (append-nil came))));
          }

      grown-Accounts :
          (old : Option Cid) (came more : List Cid) (p q : Provider o.Db)
          → Accounts old came p
          → Grows more p q
          → Accounts old (came ++ more) q
      grown-Accounts old came more p q acc g = record {
        published = acc.published;
        ledger =
            subst (λ db. Ledger b o P db q.head acc.published old) (sym g.store)
              (subst (λ h. Ledger b o P p.blockstore h acc.published old) (sym g.head) acc.ledger);
        ordered =
            ap (rev_onto acc.published) g.roots
            ∙ (rev_onto-append acc.published p.root_cids more ∙ ap (λ xs. xs ++ more) acc.ordered);
      }

      -- The worlds of a turn's events are such worlds.
      abbrev In : Turn b o → Type 0
      In (event w fuel e) = P w
      In (command w c) = Unit {0}
      In (swarm steps) = Unit {0}

      turn-Accounts :
          (old : Option Cid) (came : List Cid) (s s' : UrsaService o.Db) (x : Turn b o)
          → In x
          → Accounts old came s.index_provider
          → turn b o s x ≡ some (ok s')
          → Accounts old (came ++ turn_indexes b o x) s'.index_provider
      unfolding turn handle_event
      turn-Accounts old came s s' (event w fuel e) p acc a = elim (starts_or_holds w fuel e) [
        | inl (address, q) ↦
            published-Accounts w old came s s' address p acc
              (subst (λ x. handle_event b o w fuel s x ≡ some (ok s')) q a)
        | inr off ↦
            grown-Accounts old came [] s.index_provider s'.index_provider acc
              (turn-Grows b o s s' (event w fuel e) off a)
      ]
      turn-Accounts old came s s' (command w c) p acc a =
          grown-Accounts old came (turn_indexes b o (command w c)) s.index_provider
            s'.index_provider acc (turn-Grows b o s s' (command w c) tt a)
      turn-Accounts old came s s' (swarm steps) p acc a =
          grown-Accounts old came [] s.index_provider s'.index_provider acc
            (turn-Grows b o s s' (swarm steps) tt a)

      abbrev AllIn : List (Turn b o) → Type 0
      AllIn [] = Unit {0}
      AllIn (x ∷ rest) = In x × AllIn rest

      start-Accounts :
          (old : Option Cid) (came : List Cid) (s s' : UrsaService o.Db) (turns : List (Turn b o))
          → AllIn turns
          → Accounts old came s.index_provider
          → start b o s turns ≡ some (ok s')
          → Accounts old (came ++ indexed b o turns) s'.index_provider
      unfolding start
      start-Accounts old came s s' [] ps acc a =
          subst (λ x. Accounts old (came ++ []) x.index_provider) (ok-injective (out b o a))
            (subst (λ c. Accounts old c s.index_provider) (sym (append-nil came)) acc)
      start-Accounts old came s s' (x ∷ rest) (p, ps) acc a =
          let (s1, first, goes) = first_turn b o s s' x rest a in
          subst (λ c. Accounts old c s'.index_provider)
            (append_assoc came (turn_indexes b o x) (indexed b o rest))
            (start-Accounts old (came ++ turn_indexes b o x) s1 s' rest ps
              (turn-Accounts old came s s1 x p acc first) goes)

  -- The world of an event of the run.
  abbrev pub IsWorldOf : World b → List (Turn b o) → Type 0
  IsWorldOf w [] = ⊥
  IsWorldOf w (event v fuel e ∷ rest) = (w ≡ v) ⊎ IsWorldOf w rest
  IsWorldOf w (command v c ∷ rest) = IsWorldOf w rest
  IsWorldOf w (swarm steps ∷ rest) = IsWorldOf w rest

  each-AllIn :
      (P : World b → Type 0) (kept : IsKept o) (decodes : (w : World b) → P w → Decodes b o w)
      (turns : List (Turn b o))
      → ((w : World b) → IsWorldOf w turns → P w)
      → AllIn P kept decodes turns
  each-AllIn P kept decodes [] each = tt
  each-AllIn P kept decodes (event w fuel e ∷ rest) each =
      (each w (inl refl), each-AllIn P kept decodes rest (λ v h. each v (inr h)))
  each-AllIn P kept decodes (command w c ∷ rest) each = (tt, each-AllIn P kept decodes rest each)
  each-AllIn P kept decodes (swarm steps ∷ rest) each = (tt, each-AllIn P kept decodes rest each)

  -- With a provider's store that keeps what it is given and reads chunks back as they were encoded, over any
  -- run of the loop that goes on, each root that is or comes into the queue is published once, in the order
  -- of its coming, or is still queued: the roots published, the oldest first, and then those still queued
  -- are those queued at first and then those of the run's commands; and from the head an advertisement for
  -- each published root leads to the next older one and at last to the first head, complete for the store
  -- of some event of the run.
  pub start-Ledger :
      (s s' : UrsaService o.Db) (turns : List (Turn b o))
      → IsKept o
      → ((w : World b) → IsWorldOf w turns → Decodes b o w)
      → start b o s turns ≡ some (ok s')
      → (published : List Cid) × Ledger b o
          (λ w. IsWorldOf w turns)
          s'.index_provider.blockstore
          s'.index_provider.head
          published
          s.index_provider.head
        × (rev_onto published s'.index_provider.root_cids
            ≡ s.index_provider.root_cids ++ indexed b o turns)
  start-Ledger s s' turns kept decodes a =
      let P : World b → Type 0 = λ w. IsWorldOf w turns in
      let acc =
        start-Accounts P kept decodes s.index_provider.head s.index_provider.root_cids s s' turns
          (each-AllIn P kept decodes turns (λ w h. h))
          (record { published = []; ledger = refl; ordered = refl }) a in
      (acc.published, acc.ledger, acc.ordered)
