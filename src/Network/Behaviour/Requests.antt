-- ===== src/Network/Behaviour/Requests.antt =====
-- The senders of pending requests: each is kept until its request is answered or fails, and is then told
-- once.
use ursa.Prelude.{
  ℕ, ◌+◌, ◌≡◌, ◌==◌, refl, inl, inr, List, [], ◌∷◌, ◌++◌, none, some, Bool, true, false, lookup,
  insert, erase, Unique, Unique-insert, Unique-erase, lookup-erase, erase-absent, Option-cases,
  Bool-cases, arith,
}
use ursa.Network.Multiaddr.{PeerId, Multiaddr}
use ursa.Network.Exchange.{UrsaExchangeResponse}
use ursa.Network.Behaviour.{Behaviour, RequestId, Sender, Reply, answered, failed}
use ursa.Network.Behaviour.Handlers.{
  received, identify_sent, identify_pushed, identify_error, speaks_ursa, add_addresses,
  IdentifyEvent, handle_identify, request, response, outbound_failure, inbound_failure,
  response_sent, resolve,
}
use ursa.Network.Behaviour.Steps.{
  SubEvent, of_ping, of_identify, of_gossipsub, of_bitswap, of_discovery, of_autonat,
  of_relay_server, of_relay_client, of_dcutr, of_exchange, inject_event, Step, sub_event, requests,
  gets, syncs, cancels, publishes_ad, publishes, subscribes, unsubscribes, polls, step, run,
}

abbrev one_if : Bool → ℕ
one_if true = 1
one_if false = 0

-- How many pending requests hold the sender.
abbrev holds : Sender → List (RequestId × Sender) → ℕ
holds s [] = 0
holds s ((id, t) ∷ m) = one_if (t == s) + holds s m

-- How often the sender was told something.
abbrev pub told : Sender → List (Sender × Reply) → ℕ
told s [] = 0
told s ((t, r) ∷ rs) = one_if (t == s) + told s rs

-- How often the sender was handed over with a request.
abbrev pub asks : Sender → Step → ℕ
asks s (requests id peer r t) = one_if (t == s)
asks s _ = 0

abbrev pub asked : Sender → List Step → ℕ
asked s [] = 0
asked s (st ∷ sts) = asks s st + asked s sts

-- The ids that the request-response behaviour hands out are not in use.
abbrev IsFresh : Behaviour → Step → Type 0
IsFresh b (requests id peer r t) = lookup id b.pending_responses ≡ none
IsFresh b _ = Unit {0}

abbrev AllFresh : Behaviour → List Step → Type 0
AllFresh b [] = Unit {0}
AllFresh b (st ∷ sts) = IsFresh b st × AllFresh (step b st) sts

holds-insert :
    (s t : Sender) (id : RequestId) (m : List (RequestId × Sender))
    → lookup id m ≡ none
    → holds s (insert id t m) ≡ one_if (t == s) + holds s m
holds-insert s t id [] h = refl
holds-insert s t id ((j, u) ∷ m) h = ground (arith, holds-insert s t id m)

holds-erase :
    (s t : Sender) (id : RequestId) (m : List (RequestId × Sender))
    → Unique m
    → lookup id m ≡ some t
    → holds s m ≡ one_if (t == s) + holds s (erase id m)
holds-erase s t id [] u h = cc
holds-erase s t id ((j, w) ∷ m) u h = ground (arith, holds-erase s t id m, erase-absent id m)

told-append :
    (s : Sender) (xs ys : List (Sender × Reply)) → told s (xs ++ ys) ≡ told s xs + told s ys
told-append s [] ys = omega arith
told-append s (x ∷ xs) ys = omega (arith, told-append s xs ys)

abbrev pub account : Sender → Behaviour → ℕ
account s b = told s b.replies + holds s b.pending_responses

-- What a step does to the accounts, and that ids stay unique.
record Keeps (s : Sender) (extra : ℕ) (b b' : Behaviour) : Type 0 where
  total : account s b' ≡ account s b + extra
  unique : Unique b'.pending_responses

abbrev Untouched : Behaviour → Behaviour → Type 0
Untouched b b' = (b'.replies ≡ b.replies) × (b'.pending_responses ≡ b.pending_responses)

Untouched-Keeps :
    (s : Sender) (b b' : Behaviour) → Unique b.pending_responses → Untouched b b' → Keeps s 0 b b'
Untouched-Keeps s b b' u (r, p) = record { total = rw (r, p) (omega arith); unique = rw p u }

resolve-Keeps :
    (s : Sender) (b : Behaviour) (id : RequestId) (reply : Reply)
    → Unique b.pending_responses
    → Keeps s 0 b (resolve b id reply)
unfolding resolve
resolve-Keeps s b id reply u = elim (Option-cases (lookup id b.pending_responses)) [
  | inl e ↦ rw (e, resolve) (Untouched-Keeps s b b u (refl, refl))
  | inr (t, e) ↦
      rw (e, resolve)
        (record {
          total = omega (
            arith,
            told-append s b.replies ((t, reply) ∷ []),
            holds-erase s t id b.pending_responses u e,
          );
          unique = Unique-erase id b.pending_responses u;
        })
]

add_addresses-Untouched :
    (peer : PeerId) (b : Behaviour) (addrs : List Multiaddr)
    → Untouched b (add_addresses peer b addrs)
unfolding add_addresses
add_addresses-Untouched peer b [] = (refl, refl)
add_addresses-Untouched peer b (a ∷ as') = add_addresses-Untouched peer _ as'

handle_identify-Untouched : (b : Behaviour) (e : IdentifyEvent) → Untouched b (handle_identify b e)
unfolding handle_identify
handle_identify-Untouched b (received peer info) = elim (Bool-cases (speaks_ursa info.protocols)) [
  | inl same ↦ rw same (add_addresses-Untouched peer _ info.listen_addrs)
  | inr other ↦ rw other (refl, refl)
]
handle_identify-Untouched b (identify_sent p) = (refl, refl)
handle_identify-Untouched b (identify_pushed p) = (refl, refl)
handle_identify-Untouched b (identify_error p) = (refl, refl)

inject_event-Keeps :
    (s : Sender) (b : Behaviour) (e : SubEvent)
    → Unique b.pending_responses
    → Keeps s 0 b (inject_event b e)
unfolding inject_event
inject_event-Keeps s b (of_ping e) u = Untouched-Keeps s b _ u (ground arith, ground arith)
inject_event-Keeps s b (of_identify e) u = Untouched-Keeps s b _ u (handle_identify-Untouched b e)
inject_event-Keeps s b (of_gossipsub e) u = Untouched-Keeps s b _ u (ground arith, ground arith)
inject_event-Keeps s b (of_bitswap e) u = Untouched-Keeps s b _ u (ground arith, ground arith)
inject_event-Keeps s b (of_discovery e) u = Untouched-Keeps s b _ u (ground arith, ground arith)
inject_event-Keeps s b (of_autonat e) u = Untouched-Keeps s b _ u (ground arith, ground arith)
inject_event-Keeps s b (of_relay_server e) u = Untouched-Keeps s b _ u (ground arith, ground arith)
inject_event-Keeps s b (of_relay_client e) u = Untouched-Keeps s b b u (refl, refl)
inject_event-Keeps s b (of_dcutr e) u = Untouched-Keeps s b b u (refl, refl)
inject_event-Keeps s b (of_exchange (request p i r c)) u = Untouched-Keeps s b _ u (refl, refl)
inject_event-Keeps s b (of_exchange (response p i r)) u = resolve-Keeps s b i (answered r) u
inject_event-Keeps s b (of_exchange (outbound_failure p i)) u = resolve-Keeps s b i failed u
inject_event-Keeps s b (of_exchange (inbound_failure p i)) u = Untouched-Keeps s b b u (refl, refl)
inject_event-Keeps s b (of_exchange (response_sent p i)) u = Untouched-Keeps s b b u (refl, refl)

step-Keeps :
    (s : Sender) (b : Behaviour) (st : Step)
    → Unique b.pending_responses
    → IsFresh b st
    → Keeps s (asks s st) b (step b st)
unfolding step
step-Keeps s b (sub_event e) u f = inject_event-Keeps s b e u
step-Keeps s b (requests id p r t) u f = record {
  total = omega (arith, holds-insert s t id b.pending_responses f);
  unique = Unique-insert id t b.pending_responses u;
}
step-Keeps s b (gets i c ps) u f = Untouched-Keeps s b _ u (refl, refl)
step-Keeps s b (syncs i c ps) u f = Untouched-Keeps s b _ u (refl, refl)
step-Keeps s b (cancels i) u f = Untouched-Keeps s b _ u (refl, refl)
step-Keeps s b (publishes_ad a) u f = Untouched-Keeps s b _ u (refl, refl)
step-Keeps s b (publishes i t m) u f = Untouched-Keeps s b _ u (refl, refl)
step-Keeps s b (subscribes i t) u f = Untouched-Keeps s b _ u (refl, refl)
step-Keeps s b (unsubscribes i t) u f = Untouched-Keeps s b _ u (refl, refl)
step-Keeps s b polls u f = Untouched-Keeps s b _ u (ground arith, ground arith)

-- Over any run in which request ids are not reused while pending, a sender is told of as many outcomes
-- as it was handed over with requests, less the requests that are still pending: so a sender that was
-- handed over once is told at most once, and is told or still waits at any time.
pub account-run :
    (s : Sender) (b : Behaviour) (sts : List Step)
    → Unique b.pending_responses
    → AllFresh b sts
    → account s (run b sts) ≡ account s b + asked s sts
unfolding run
account-run s b [] u f = omega arith
account-run s b (st ∷ sts) u (now, later) =
    let k = step-Keeps s b st u now in
    omega (arith, k.total, account-run s (step b st) sts k.unique later)

-- A response, or a failure, reaches the sender that waits under its id, which then waits no longer;
-- a second one under the same id changes nothing.
pub resolve_twice :
    (b : Behaviour) (id : RequestId) (s : Sender) (peer : PeerId) (r : UrsaExchangeResponse)
    → lookup id b.pending_responses ≡ some s
    → let once = inject_event b (of_exchange (response peer id r)) in
      (once.replies ≡ b.replies ++ (s, answered r) ∷ [])
      × (lookup id once.pending_responses ≡ none)
      × (inject_event once (of_exchange (response peer id r)) ≡ once)
      × (inject_event once (of_exchange (outbound_failure peer id)) ≡ once)
unfolding inject_event
resolve_twice b id s peer r e = ground (arith, lookup-erase id id b.pending_responses)
