-- ===== src/Network/Service/Remaining.antt =====
-- A sender that was handed over with a request for a block waits for it until a query of that block ends.
use ursa.Prelude.{
  ℕ, ◌≡◌, ◌==◌, ==_iff, ==_refl, refl, ap, ◌∙◌, subst, inl, inr, List, [], ◌∷◌, ◌++◌, Option, none,
  some, Bool, true, false, elem, elem-append, lookup, insert, erase, lookup-insert, lookup-erase,
  Option-cases, Bool-cases, List-cases, if◌then◌else◌, arith, Result, ok, ok-injective,
  resume-eq-ok, >>=-eq-ok,
}
use ursa.Store.{Cid, BlockStore}
use ursa.Network.Multiaddr.{PeerId}
use ursa.Network.Behaviour.{Sender, BitswapInfo, bitswap, peers, cancel}
use ursa.Network.Service.{
  World, UrsaService, get_bitswap, put, get_peers, index, send_request, send_response,
  gossipsub_message, BitswapType, ServiceError, tracked,
}
use ursa.Network.Service.Bitswap.{
  wait, answer, waiting_for, handle_bitswap, handle_get_bitswap, reply_all,
}
use ursa.Network.Service.Turns.{
  Turn, event, command, swarm, turn, start, handle_event, handle_command,
}
use ursa.Network.Service.Frame.{Same}
use ursa.Network.Service.Quiet.{out, event_cases, handle_event-Same, handle_command-Same}
use ursa.Index.Provider.{ObjectStore}

-- The sender waits for the block.
abbrev pub Waits : {Db : Type 0} → Sender → Cid → UrsaService Db → Type 0
Waits t cid s = elem t (waiting_for cid s.response_channels) ≡ true

waiting_for-insert :
    (c d : Cid) (us : List Sender) (m : List (Cid × List Sender))
    → waiting_for c (insert d us m) ≡ (if c == d then us else waiting_for c m)
waiting_for-insert c d us m = elim (Bool-cases (c == d)) [
  | inl e ↦ rw (lookup-insert c d us m, waiting_for, e) refl
  | inr e ↦ rw (lookup-insert c d us m, waiting_for, e) refl
]

pub waiting_for-erase :
    (c d : Cid) (m : List (Cid × List Sender))
    → (c == d) ≡ false
    → waiting_for c (erase d m) ≡ waiting_for c m
waiting_for-erase c d m e = rw (lookup-erase c d m, waiting_for, e) refl

-- A sender that joins the others stands among them, and they stay.
at_other :
    (t c d : ℕ) (us : List Sender) (m : List (Cid × List Sender)) (same : Bool)
    → (c == d) ≡ same
    → elem t (waiting_for c (insert d us m))
      ≡ (if same then elem t us else elem t (waiting_for c m))
at_other t c d us m true e = ap (elem t) (waiting_for-insert c d us m) ∙ rw e refl
at_other t c d us m false e = ap (elem t) (waiting_for-insert c d us m) ∙ rw e refl

joins :
    (t c d u : ℕ) (m : List (Cid × List Sender))
    → elem t (waiting_for c m) ≡ true
    → elem t (waiting_for c (insert d (waiting_for d m ++ u ∷ []) m)) ≡ true
joins t c d u m h = elim (Bool-cases (c == d)) [
  | inl e ↦
      let before : elem t (waiting_for d m) ≡ true =
        subst (λ x. elem t (waiting_for x m) ≡ true) ((==_iff c d).0 e) h in
      at_other t c d (waiting_for d m ++ u ∷ []) m true e
      ∙ (elem-append t (waiting_for d m) (u ∷ []) ∙ rw before refl)
  | inr e ↦ at_other t c d (waiting_for d m ++ u ∷ []) m false e ∙ h
]

joined :
    (u d : ℕ) (m : List (Cid × List Sender))
    → elem u (waiting_for d (insert d (waiting_for d m ++ u ∷ []) m)) ≡ true
joined u d m =
    at_other u d d (waiting_for d m ++ u ∷ []) m true (==_refl d)
    ∙ (elem-append u (waiting_for d m) (u ∷ []) ∙ ground (arith, ==_refl u))

module _ (b : BlockStore) (o : ObjectStore) where
  -- A turn that ends no query of the block.
  abbrev pub Spares : Cid → Turn b o → Type 0
  Spares cid (event w fuel (bitswap info)) = (cid == info.cid) ≡ false
  Spares cid (event w fuel _) = Unit {0}
  Spares cid (command w c) = Unit {0}
  Spares cid (swarm steps) = Unit {0}

  handle_get_bitswap-Waits :
      (w : World b) (t : Sender) (cid d : Cid) (kind : BitswapType) (u : Sender)
      (s : UrsaService o.Db)
      → Waits t cid s
      → Waits t cid (handle_get_bitswap b w s d kind u)
  unfolding handle_get_bitswap
  handle_get_bitswap-Waits w t cid d kind u s h = elim (List-cases (peers s.behaviour)) [
    | inl e ↦ rw (e, handle_get_bitswap) h
    | inr (p, ps, e) ↦ rw (e, handle_get_bitswap) (joins t cid d u s.response_channels h)
  ]

  pub handle_get_bitswap_joins :
      (w : World b) (cid : Cid) (kind : BitswapType) (u : Sender) (s : UrsaService o.Db)
      (p : PeerId) (ps : List PeerId)
      → peers s.behaviour ≡ p ∷ ps
      → Waits u cid (handle_get_bitswap b w s cid kind u)
  unfolding handle_get_bitswap
  handle_get_bitswap_joins w cid kind u s p ps e =
      rw (e, handle_get_bitswap) (joined u cid s.response_channels)

  Waits-Same :
      (t : Sender) (cid : Cid) (s s' : UrsaService o.Db)
      → Same s s'
      → Waits t cid s
      → Waits t cid s'
  Waits-Same t cid s s' same h = rw same.channels h

  answer-Waits :
      (w : World b) (t : Sender) (cid d : Cid) (s s' : UrsaService o.Db) (chans : List Sender)
      (waited : Result ServiceError ℕ)
      → (cid == d) ≡ false
      → Waits t cid s
      → answer b w s d chans waited ≡ ok s'
      → Waits t cid s'
  answer-Waits w t cid d s s' chans waited other h a =
      let (look, _, g) = >>=-eq-ok waited _ a in
      let (rs, r, e) = >>=-eq-ok (reply_all b w d look chans) _ g in
      subst (Waits t cid) (ok-injective e)
        (rw (waiting_for-erase cid d s.response_channels other) h)

  handle_bitswap-Waits :
      (w : World b) (fuel : ℕ) (t : Sender) (cid : Cid) (s s' : UrsaService o.Db)
      (info : BitswapInfo)
      → (cid == info.cid) ≡ false
      → Waits t cid s
      → handle_bitswap b w fuel s info ≡ some (ok s')
      → Waits t cid s'
  unfolding handle_bitswap cancel tracked
  handle_bitswap-Waits w fuel t cid s s' info other h a =
      elim (Option-cases (lookup info.cid s.response_channels)) [
        | inl e ↦ subst (Waits t cid) (ok-injective (out b o (rw (e, handle_bitswap) at a))) h
        | inr (chans, e) ↦
            elim (Option-cases
              (if info.block_found then wait b w info.cid fuel 0 else some (ok 0))) [
                | inl q ↦ absurd (clash (rw (q, handle_bitswap) at (rw (e, handle_bitswap) at a)))
                | inr (waited, q) ↦
                    answer-Waits w t cid info.cid _ s' chans waited other h
                      (out b o (rw (q, handle_bitswap) at (rw (e, handle_bitswap) at a)))
              ]
      ]
    where
      clash : ◌≡◌ {A = Option (Result ServiceError (UrsaService o.Db))} none (some (ok s')) → ⊥
      clash e = cc

  turn-Waits :
      (t : Sender) (cid : Cid) (s s' : UrsaService o.Db) (x : Turn b o)
      → Spares cid x
      → Waits t cid s
      → turn b o s x ≡ some (ok s')
      → Waits t cid s'
  unfolding turn handle_event handle_command
  turn-Waits t cid s s' (event w fuel e) spared h a = elim (event_cases b o e) [
    | inl (info, q) ↦
        handle_bitswap-Waits w fuel t cid s s' info
          (subst (λ x. Spares cid (event w fuel x)) q spared) h
          (subst (λ x. handle_event b o w fuel s x ≡ some (ok s')) q a)
    | inr other ↦ Waits-Same t cid s s' (handle_event-Same b o w fuel s s' e other a) h
  ]
  turn-Waits t cid s s' (command w (get_bitswap d kind u)) spared h a =
      subst (Waits t cid) (ok-injective (out b o a)) (handle_get_bitswap-Waits w t cid d kind u s h)
  turn-Waits t cid s s' (command w (put d u)) spared h a =
      Waits-Same t cid s s' (handle_command-Same b o w s s' (put d u) tt (out b o a)) h
  turn-Waits t cid s s' (command w (get_peers u)) spared h a =
      Waits-Same t cid s s' (handle_command-Same b o w s s' (get_peers u) tt (out b o a)) h
  turn-Waits t cid s s' (command w (index cids u)) spared h a =
      Waits-Same t cid s s' (handle_command-Same b o w s s' (index cids u) tt (out b o a)) h
  turn-Waits t cid s s' (command w (send_request p r u)) spared h a =
      Waits-Same t cid s s' (handle_command-Same b o w s s' (send_request p r u) tt (out b o a)) h
  turn-Waits t cid s s' (command w (send_response i r u)) spared h a =
      Waits-Same t cid s s' (handle_command-Same b o w s s' (send_response i r u) tt (out b o a)) h
  turn-Waits t cid s s' (command w (gossipsub_message i m)) spared h a =
      Waits-Same t cid s s' (handle_command-Same b o w s s' (gossipsub_message i m) tt (out b o a))
        h
  turn-Waits t cid s s' (swarm steps) spared h a = subst (Waits t cid) (ok-injective (out b o a)) h

  no_run :
      (s' : UrsaService o.Db)
      → ◌≡◌ {A = Option (Result ServiceError (UrsaService o.Db))} none (some (ok s'))
      → ⊥
  no_run s' e = cc

  -- The state between the first turn of a run that goes on and the others.
  pub first_turn :
      (s s' : UrsaService o.Db) (x : Turn b o) (rest : List (Turn b o))
      → start b o s (x ∷ rest) ≡ some (ok s')
      → (s1 : UrsaService o.Db) × (turn b o s x ≡ some (ok s1)) × (start b o s1 rest ≡ some (ok s'))
  unfolding start
  first_turn s s' x rest h = elim (Option-cases (turn b o s x)) [
    | inl e ↦ absurd (no_run s' (rw (e, start) at h))
    | inr (r, e) ↦
        let (s1, first, later) = resume-eq-ok _ r (rw (e, start) at h) in
        (s1, e ∙ ap some first, later)
  ]

  abbrev pub Spared : Cid → List (Turn b o) → Type 0
  Spared cid [] = Unit {0}
  Spared cid (x ∷ rest) = Spares cid x × Spared cid rest

  pub start-Waits :
      (t : Sender) (cid : Cid) (s s' : UrsaService o.Db) (turns : List (Turn b o))
      → Spared cid turns
      → Waits t cid s
      → start b o s turns ≡ some (ok s')
      → Waits t cid s'
  unfolding start
  start-Waits t cid s s' [] spared h a = subst (Waits t cid) (ok-injective (out b o a)) h
  start-Waits t cid s s' (x ∷ rest) (now, later) h a =
      let (s1, first, goes) = first_turn s s' x rest a in
      start-Waits t cid s1 s' rest later (turn-Waits t cid s s1 x now h first) goes

  pub start-append :
      (s s1 s2 : UrsaService o.Db) (turns : List (Turn b o)) (x : Turn b o)
      → start b o s turns ≡ some (ok s1)
      → turn b o s1 x ≡ some (ok s2)
      → start b o s (turns ++ x ∷ []) ≡ some (ok s2)
  unfolding start
  start-append s s1 s2 [] x a e =
      rw (ap (λ r. turn b o r x) (ok-injective (out b o a)) ∙ e, start) refl
  start-append s s1 s2 (y ∷ rest) x a e =
      let (s', first, later) = first_turn s s1 y rest a in
      rw (first, start) (start-append s' s1 s2 rest x later e)
