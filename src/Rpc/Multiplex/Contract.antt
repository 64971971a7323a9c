-- ===== src/Rpc/Multiplex/Contract.antt =====
-- The contract of tower: a service is called only after a poll that found it ready, and once for each
-- such poll.
use ursa.Prelude.{
  ◌≡◌, refl, ap, inl, inr, Bool-cases, List, [], ◌∷◌, Bool, true, false, if◌then◌else◌, Result, ok,
  panic, ◌>>=◌,
}
use ursa.Rpc.Multiplex.{
  Request, Poll, pending, ready, failed, Service, poll_both, poll_http, poll_rpc, call_one,
  multiplex, is_rpc_request,
}

abbrev pub is_ready : {E : Type 0} → Poll E → Bool
is_ready ready = true
is_ready pending = false
is_ready (failed e) = false

-- A service that panics where the contract is broken.
abbrev pub guarded : {E Req Res : Type 0} → Service E Req Res → Service E Req Res
guarded s = record {
  State = s.State × Bool;
  poll_ready = λ (st, armed). let (st', p) = s.poll_ready st in ((st', is_ready p), p);
  call = λ (st, armed) req.
      if armed
      then (let (st', res) = s.call st req in ((st', false), res))
      else ((st, false), panic);
}

pub data Event (Req : Type 0) : Type 0 where
  wake : Event Req
  submit : Req → Event Req

pub data Outcome (E Res : Type 0) : Type 0 where
  polled : Poll E → Outcome E Res
  answered : Result E Res → Outcome E Res

-- A connection: it polls when it is woken, and submits a request only to a service that it found ready.
unfoldable pub drive :
    {E Req Res : Type 0}
    → (s : Service E Req Res) → Bool
    → s.State
    → List (Event Req)
    → List (Outcome E Res)
drive s armed st [] = []
drive s armed st (wake ∷ es) =
    let (st', p) = s.poll_ready st in polled p ∷ drive s (is_ready p) st' es
drive s armed st (submit req ∷ es) = elim armed [
  | true ↦ let (st', res) = s.call st req in answered res ∷ drive s false st' es
  | false ↦ drive s false st es
]

module _ {E B A C Res : Type 0} (a : Service E (Request B) A) (b : Service E (Request B) C)
    (f : A → Res) (g : C → Res) where
  abbrev strict : Service E (Request B) Res
  strict = multiplex (guarded a) (guarded b) f g

  -- While the multiplexer is ready, so are both of its services: then the guards change nothing.
  abbrev Same : List (Event (Request B)) → Type 0
  Same es =
      (x : a.State) (y : b.State) (p q armed : Bool)
      → (armed ≡ true → (p ≡ true) × (q ≡ true))
      → drive strict armed ((x, p), (y, q)) es ≡ drive (multiplex a b f g) armed (x, y) es

  after_rpc :
      (es : List (Event (Request B))) (x : a.State) (y : b.State) (rpc : Poll E)
      → Same es
      → (let (st, r) = poll_rpc (guarded a) (guarded b) f g (x, true) ((y, is_ready rpc), rpc) in
          polled r ∷ drive strict (is_ready r) st es)
        ≡ (let (st, r) = poll_rpc a b f g x (y, rpc) in
            polled r ∷ drive (multiplex a b f g) (is_ready r) st es)
  unfolding poll_rpc
  after_rpc es x y ready same =
      ap (λ o. polled ready ∷ o) (same x y true true true (λ _. (refl, refl)))
  after_rpc es x y (failed e) same =
      ap (λ o. polled (failed e) ∷ o) (same x y true false false (λ h. cc))
  after_rpc es x y pending same = ap (λ o. polled pending ∷ o) (same x y true false false (λ h. cc))

  after_http :
      (es : List (Event (Request B))) (x : a.State) (y : b.State) (q : Bool) (http : Poll E)
      → Same es
      → (let (st, r) = poll_http (guarded a) (guarded b) f g (y, q) ((x, is_ready http), http) in
          polled r ∷ drive strict (is_ready r) st es)
        ≡ (let (st, r) = poll_http a b f g y (x, http) in
            polled r ∷ drive (multiplex a b f g) (is_ready r) st es)
  unfolding poll_http
  after_http es x y q ready same = after_rpc es x (b.poll_ready y).0 (b.poll_ready y).1 same
  after_http es x y q (failed e) same =
      ap (λ o. polled (failed e) ∷ o) (same x y false q false (λ h. cc))
  after_http es x y q pending same = ap (λ o. polled pending ∷ o) (same x y false q false (λ h. cc))

  after_call :
      (es : List (Event (Request B))) (req : Request B) (x : a.State) (y : b.State) (p q : Bool)
      → p ≡ true
      → q ≡ true
      → Same es
      → (let (st, r) = call_one (guarded a) (guarded b) f g ((x, p), (y, q)) req in
          answered r ∷ drive strict false st es)
        ≡ (let (st, r) = call_one a b f g (x, y) req in
            answered r ∷ drive (multiplex a b f g) false st es)
  unfolding call_one
  after_call es req x y true true p q same = elim (Bool-cases (is_rpc_request req)) [
    | inl rpc ↦ rw rpc (
        ap (λ o. answered ((b.call y req).1 >>= λ r. ok (g r)) ∷ o)
          (same x (b.call y req).0 true false false (λ h. cc)))
    | inr http ↦ rw http (
        ap (λ o. answered ((a.call x req).1 >>= λ r. ok (f r)) ∷ o)
          (same (a.call x req).0 y false true false (λ h. cc)))
  ]
  after_call es req x y true false p q same = cc
  after_call es req x y false q' p q same = cc

  drive-Same : (es : List (Event (Request B))) → Same es
  unfolding drive poll_both
  drive-Same [] x y p q armed both = refl
  drive-Same (wake ∷ es) x y p q armed both =
      after_http es (a.poll_ready x).0 y q (a.poll_ready x).1 (drive-Same es)
  drive-Same (submit req ∷ es) x y p q true both =
      after_call es req x y p q (both refl).0 (both refl).1 (drive-Same es)
  drive-Same (submit req ∷ es) x y p q false both = drive-Same es x y p q false both

  -- Whatever a connection does, the multiplexer calls neither of its services without a poll that found
  -- that service ready: services that panic at such a call answer as those that do not.
  pub drive-guarded :
      (x : a.State) (y : b.State) (es : List (Event (Request B)))
      → drive (multiplex (guarded a) (guarded b) f g) false ((x, false), (y, false)) es
        ≡ drive (multiplex a b f g) false (x, y) es
  drive-guarded x y es = drive-Same es x y false false false (λ h. cc)
