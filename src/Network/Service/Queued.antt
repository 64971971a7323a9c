-- ===== src/Network/Service/Queued.antt =====
-- A root that the `Index` command queues stays in the queue until a publication starts.
use ursa.Prelude.{
  ℕ, ◌≡◌, refl, sym, ap, ◌∙◌, subst, inl, inr, List, [], ◌∷◌, ◌++◌, append-nil, append_assoc,
  Option, none, some, true, elem, elem-append, lookup, ==_refl, Option-cases, List-cases,
  if◌then◌else◌, arith, Result, ok, panic, ok-injective, >>=-eq-ok,
}
use ursa.Store.{Cid, BlockStore}
use ursa.Network.Behaviour.{Sender, BitswapInfo, BehaviourEvent, start_publish, peers, cancel}
use ursa.Network.Service.{
  UrsaCommand, World, UrsaService, get_bitswap, put, get_peers, index, send_request, send_response,
  gossipsub_message, ServiceError, BitswapType, tracked,
}
use ursa.Network.Service.Bitswap.{wait, answer, handle_bitswap, handle_get_bitswap, reply_all}
use ursa.Network.Service.Publish.{handle_index}
use ursa.Network.Service.Turns.{
  Turn, event, command, swarm, turn, start, handle_event, handle_command,
}
use ursa.Network.Service.Quiet.{
  out, event_cases, publication_cases, handle_event-Calm, handle_command-Calm,
}
use ursa.Network.Service.Remaining.{first_turn}
use ursa.Index.Provider.{ObjectStore, Provider}

-- These roots came into the queue, and nothing was published.
pub record Grows {Db : Type 0} (more : List Cid) (p q : Provider Db) : Type 0 where
  pub head : q.head ≡ p.head
  pub store : q.blockstore ≡ p.blockstore
  pub roots : q.root_cids ≡ p.root_cids ++ more

Grows-refl : {Db : Type 0} (p q : Provider Db) → q ≡ p → Grows [] p q
Grows-refl p q e =
    subst (Grows [] p) (sym e)
      (record { head = refl; store = refl; roots = sym (append-nil p.root_cids) })

Grows-trans :
    {Db : Type 0} (xs ys : List Cid) (p q r : Provider Db)
    → Grows xs p q
    → Grows ys q r
    → Grows (xs ++ ys) p r
Grows-trans xs ys p q r a c = record {
  head = c.head ∙ a.head;
  store = c.store ∙ a.store;
  roots = c.roots ∙ (ap (λ rs. rs ++ ys) a.roots ∙ append_assoc p.root_cids xs ys);
}

pub Grows-elem :
    {Db : Type 0} (root : Cid) (more : List Cid) (p q : Provider Db)
    → Grows more p q
    → elem root p.root_cids ≡ true
    → elem root q.root_cids ≡ true
Grows-elem root more p q g h =
    ap (elem root) g.roots ∙ (elem-append root p.root_cids more ∙ rw h refl)

-- The root that a command queues.
abbrev indexes : UrsaCommand → List Cid
indexes (index (root ∷ cids) sender) = root ∷ []
indexes _ = []

module _ (b : BlockStore) (o : ObjectStore) where
  answer-provider :
      (w : World b) (cid : Cid) (s s' : UrsaService o.Db) (chans : List Sender)
      (waited : Result ServiceError ℕ)
      → answer b w s cid chans waited ≡ ok s'
      → s'.index_provider ≡ s.index_provider
  answer-provider w cid s s' chans waited a =
      let (look, _, g) = >>=-eq-ok waited _ a in
      let (rs, _, e) = >>=-eq-ok (reply_all b w cid look chans) _ g in
      subst (λ x. x.index_provider ≡ s.index_provider) (ok-injective e) refl

  handle_bitswap-provider :
      (w : World b) (fuel : ℕ) (s s' : UrsaService o.Db) (info : BitswapInfo)
      → handle_bitswap b w fuel s info ≡ some (ok s')
      → s'.index_provider ≡ s.index_provider
  unfolding handle_bitswap cancel tracked
  handle_bitswap-provider w fuel s s' info a =
      elim (Option-cases (lookup info.cid s.response_channels)) [
        | inl e ↦
            subst (λ x. x.index_provider ≡ s.index_provider)
              (ok-injective (out b o (rw (e, handle_bitswap) at a))) refl
        | inr (chans, e) ↦
            elim (Option-cases
              (if info.block_found then wait b w info.cid fuel 0 else some (ok 0))) [
                | inl q ↦ absurd (clash (rw (q, handle_bitswap) at (rw (e, handle_bitswap) at a)))
                | inr (waited, q) ↦
                    answer-provider w info.cid _ s' chans waited
                      (out b o (rw (q, handle_bitswap) at (rw (e, handle_bitswap) at a)))
              ]
      ]
    where
      clash : ◌≡◌ {A = Option (Result ServiceError (UrsaService o.Db))} none (some (ok s')) → ⊥
      clash e = cc

  handle_get_bitswap-provider :
      (w : World b) (cid : Cid) (kind : BitswapType) (u : Sender) (s : UrsaService o.Db)
      → (handle_get_bitswap b w s cid kind u).index_provider ≡ s.index_provider
  unfolding handle_get_bitswap
  handle_get_bitswap-provider w cid kind u s = elim (List-cases (peers s.behaviour)) [
    | inl e ↦ rw (e, handle_get_bitswap) refl
    | inr (p, ps, e) ↦ rw (e, handle_get_bitswap) refl
  ]

  handle_index-Grows :
      (w : World b) (s s' : UrsaService o.Db) (cids : List Cid) (u : Sender)
      → handle_index b o w s cids u ≡ ok s'
      → Grows (indexes (index cids u)) s.index_provider s'.index_provider
  unfolding handle_index
  handle_index-Grows w s s' [] u a = absurd (clash a)
    where
      clash : ◌≡◌ {A = Result ServiceError (UrsaService o.Db)} panic (ok s') → ⊥
      clash e = cc
  handle_index-Grows w s s' (root ∷ cids) u a =
      subst (λ x. Grows (root ∷ []) s.index_provider x.index_provider) (ok-injective a)
        (record { head = refl; store = refl; roots = refl })

  pub handle_index_queues :
      (w : World b) (s s' : UrsaService o.Db) (root : Cid) (cids : List Cid) (u : Sender)
      → handle_index b o w s (root ∷ cids) u ≡ ok s'
      → (elem root s'.index_provider.root_cids ≡ true)
        × (s'.index_provider.head ≡ s.index_provider.head)
  unfolding handle_index
  handle_index_queues w s s' root cids u a =
      subst
        (λ x.
          (elem root x.index_provider.root_cids ≡ true)
          × (x.index_provider.head ≡ s.index_provider.head))
        (ok-injective a)
        (
          elem-append root s.index_provider.root_cids (root ∷ []) ∙ ground (arith, ==_refl root),
          refl,
        )

  -- A turn that does not start a publication.
  abbrev pub HoldsOff : Turn b o → Type 0
  HoldsOff (event w fuel (start_publish address)) = ⊥
  HoldsOff _ = Unit {0}

  abbrev pub turn_indexes : Turn b o → List Cid
  turn_indexes (event w fuel e) = []
  turn_indexes (command w c) = indexes c
  turn_indexes (swarm steps) = []

  abbrev pub indexed : List (Turn b o) → List Cid
  indexed [] = []
  indexed (x ∷ rest) = turn_indexes x ++ indexed rest

  still :
      (s s' : UrsaService o.Db)
      → s'.index_provider ≡ s.index_provider
      → Grows [] s.index_provider s'.index_provider
  still s s' e = Grows-refl s.index_provider s'.index_provider e

  handle_event-Grows :
      (w : World b) (fuel : ℕ) (s s' : UrsaService o.Db) (e : BehaviourEvent)
      → HoldsOff (event w fuel e)
      → handle_event b o w fuel s e ≡ some (ok s')
      → Grows [] s.index_provider s'.index_provider
  unfolding handle_event
  handle_event-Grows w fuel s s' e off a = elim (event_cases b o e) [
    | inl (info, q) ↦ still s s' (
        handle_bitswap-provider w fuel s s' info
          (subst (λ x. handle_event b o w fuel s x ≡ some (ok s')) q a))
    | inr other ↦ elim (publication_cases b o e other) [
      | inl (address, q) ↦ absurd (subst (λ x. HoldsOff (event w fuel x)) q off)
      | inr plain ↦
          let calm = handle_event-Calm b o w fuel s s' e plain a in still s s' calm.provider
    ]
  ]

  pub turn-Grows :
      (s s' : UrsaService o.Db) (x : Turn b o)
      → HoldsOff x
      → turn b o s x ≡ some (ok s')
      → Grows (turn_indexes x) s.index_provider s'.index_provider
  unfolding turn handle_command
  turn-Grows s s' (event w fuel e) off a = handle_event-Grows w fuel s s' e off a
  turn-Grows s s' (command w (get_bitswap d kind u)) off a = still s s' (
      subst (λ x. x.index_provider ≡ s.index_provider) (ok-injective (out b o a))
        (handle_get_bitswap-provider w d kind u s))
  turn-Grows s s' (command w (index cids u)) off a = handle_index-Grows w s s' cids u (out b o a)
  turn-Grows s s' (command w (put d u)) off a =
      let calm = handle_command-Calm b o w s s' (put d u) tt (out b o a) in still s s' calm.provider
  turn-Grows s s' (command w (get_peers u)) off a =
      let calm = handle_command-Calm b o w s s' (get_peers u) tt (out b o a) in
      still s s' calm.provider
  turn-Grows s s' (command w (send_request p r u)) off a =
      let calm = handle_command-Calm b o w s s' (send_request p r u) tt (out b o a) in
      still s s' calm.provider
  turn-Grows s s' (command w (send_response i r u)) off a =
      let calm = handle_command-Calm b o w s s' (send_response i r u) tt (out b o a) in
      still s s' calm.provider
  turn-Grows s s' (command w (gossipsub_message i m)) off a =
      let calm = handle_command-Calm b o w s s' (gossipsub_message i m) tt (out b o a) in
      still s s' calm.provider
  turn-Grows s s' (swarm steps) off a =
      still s s' (ap (λ x. x.index_provider) (sym (ok-injective (out b o a))))

  abbrev pub Unpublished : List (Turn b o) → Type 0
  Unpublished [] = Unit {0}
  Unpublished (x ∷ rest) = HoldsOff x × Unpublished rest

  pub start-Grows :
      (s s' : UrsaService o.Db) (turns : List (Turn b o))
      → Unpublished turns
      → start b o s turns ≡ some (ok s')
      → Grows (indexed turns) s.index_provider s'.index_provider
  unfolding start
  start-Grows s s' [] off a =
      still s s' (ap (λ x. x.index_provider) (sym (ok-injective (out b o a))))
  start-Grows s s' (x ∷ rest) (now, later) a =
      let (s1, first, goes) = first_turn b o s s' x rest a in
      Grows-trans (turn_indexes x) (indexed rest) s.index_provider s1.index_provider
        s'.index_provider (turn-Grows s s1 x now first) (start-Grows s1 s' rest later goes)
