-- ===== src/Network/Discovery/Events.antt =====
-- The events that the discovery emits: a client of them knows which peers are connected.
use ursa.Prelude.{
  ◌≡◌, refl, sym, subst, inl, inr, ◌∙◌, append_assoc, append-nil, Bool-cases, List-cases, ◌==◌,
  List, [], ◌∷◌, ◌++◌, Option, none, some, Bool, true, false, elem, elem-remove, if◌then◌else◌,
  arith,
}
use ursa.Network.Multiaddr.{PeerId, Multiaddr}
use ursa.Network.Discovery.Poll.{
  handle_kad_event, closest_peers, other_event, Action, generate_event, dial, notify_handler,
  report_observed_addr, close_connection, KademliaEvent, MdnsEvent, discovered, expired, Polled,
  handle_mdns_event, poll_mdns, poll_kademlia, poll,
}
use ursa.Network.Discovery.{
  Discovery, add_peer_address, add_all_addresses, DiscoveryEvent, connected, disconnected,
}
use ursa.Network.Discovery.Connections.{Connection, established, closed, changed, inject}

-- What a client of the events knows of a peer: an event that repeats the last one is refused.
abbrev learn : PeerId → Bool → DiscoveryEvent → Option Bool
learn p known (connected q) = if p == q then (if known then none else some true) else some known
learn p known (disconnected q) = if p == q then (if known then some false else none) else some known

abbrev hear : PeerId → Option Bool → DiscoveryEvent → Option Bool
hear p none e = none
hear p (some known) e = learn p known e

abbrev replay : PeerId → Option Bool → List DiscoveryEvent → Option Bool
replay p known [] = known
replay p known (e ∷ es) = replay p (hear p known e) es

replay-append :
    (p : PeerId) (known : Option Bool) (xs ys : List DiscoveryEvent)
    → replay p known (xs ++ ys) ≡ replay p (replay p known xs) ys
replay-append p known [] ys = refl
replay-append p known (x ∷ xs) ys = replay-append p (hear p known x) xs ys

replay-concat :
    (p : PeerId) (known : Bool) (past events : List DiscoveryEvent) (e : DiscoveryEvent)
    → replay p (some false) (past ++ events) ≡ some known
    → replay p (some false) (past ++ (events ++ e ∷ [])) ≡ learn p known e
replay-concat p known past events e a =
    rw (
      ← append_assoc past events (e ∷ []),
      replay-append p (some false) (past ++ events) (e ∷ []),
      a,
    )

-- A state with the events that were taken from it so far.
pub record Run : Type 0 where
  pub state : Discovery
  pub past : List DiscoveryEvent

pub data Happening : Type 0 where
  reported : Connection → Happening
  polled : List (Action KademliaEvent) → List (Action MdnsEvent) → Happening

abbrev taken : Option (Action DiscoveryEvent) → List DiscoveryEvent
taken (some (generate_event e)) = e ∷ []
taken _ = []

happen : Run → Happening → Run
happen r (reported c) = record r { state = inject r.state c }
happen r (polled kad mdns) =
    let result = poll r.state kad mdns in
    record { state = result.state; past = r.past ++ taken result.ready }

pub happen_all : Run → List Happening → Run
unfolding happen
happen_all r [] = r
happen_all r (h ∷ hs) = happen_all (happen r h) hs

-- A client that has read the past events and will read the queued ones agrees with the peers.
abbrev pub Agrees : PeerId → Run → Type 0
Agrees p r = replay p (some false) (r.past ++ r.state.events) ≡ some (elem p r.state.peers)

inject-Agrees :
    (p : PeerId) (past : List DiscoveryEvent) (d : Discovery) (c : Connection)
    → Agrees p (record { state = d; past = past })
    → Agrees p (record { state = inject d c; past = past })
unfolding inject
inject-Agrees p past d (established q c o) a = elim (Bool-cases (elem q d.peers)) [
  | inl old ↦ rw old a
  | inr new ↦
      rw new (replay-concat p (elem p d.peers) past d.events (connected q) a ∙ ground (arith, new))
]
inject-Agrees p past d (closed q c o) a = elim (Bool-cases (elem q d.peers)) [
  | inl old ↦ rw old (
      replay-concat p (elem p d.peers) past d.events (disconnected q) a
      ∙ ground (arith, old, elem-remove p q d.peers))
  | inr new ↦ rw new a
]
inject-Agrees p past d (changed q c o) a = a

-- Addresses reach Kademlia only.

abbrev Same : Discovery → Discovery → Type 0
Same d d' = (d'.peers ≡ d.peers) × (d'.events ≡ d.events)

add_all_addresses-Same :
    (d : Discovery) (found : List (PeerId × Multiaddr)) → Same d (add_all_addresses d found)
unfolding add_all_addresses
add_all_addresses-Same d [] = (refl, refl)
add_all_addresses-Same d (a ∷ as') = add_all_addresses-Same (add_peer_address d a) as'

handle_mdns_event-Same : (d : Discovery) (e : MdnsEvent) → Same d (handle_mdns_event d e)
unfolding handle_mdns_event
handle_mdns_event-Same d (discovered found) = add_all_addresses-Same d found
handle_mdns_event-Same d (expired found) = (refl, refl)

-- What is polled below the queue gives no event and changes no peer.
abbrev Quiet : Discovery → Polled → Type 0
Quiet d r = Same d r.state × (taken r.ready ≡ [])

poll_mdns-Quiet :
    (d : Discovery) (actions : List (Action MdnsEvent)) → Quiet d (poll_mdns d actions)
unfolding poll_mdns
poll_mdns-Quiet d [] = ((refl, refl), refl)
poll_mdns-Quiet d (generate_event e ∷ as') =
    let (peers, events) = handle_mdns_event-Same d e in
    let ((p, q), t) = poll_mdns-Quiet (handle_mdns_event d e) as' in ((p ∙ peers, q ∙ events), t)
poll_mdns-Quiet d (report_observed_addr a ∷ as') = ((refl, refl), refl)
poll_mdns-Quiet d (close_connection a ∷ as') = ((refl, refl), refl)
poll_mdns-Quiet d (dial a ∷ as') = poll_mdns-Quiet d as'
poll_mdns-Quiet d (notify_handler a ∷ as') = poll_mdns-Quiet d as'

handle_kad_event_lem : (d : Discovery) (e : KademliaEvent) → handle_kad_event d e ≡ d
unfolding handle_kad_event
handle_kad_event_lem d (closest_peers ps) = refl
handle_kad_event_lem d other_event = refl

poll_kademlia-Quiet :
    (d : Discovery) (kad : List (Action KademliaEvent)) (mdns : List (Action MdnsEvent))
    → Quiet d (poll_kademlia d kad mdns)
unfolding poll_kademlia
poll_kademlia-Quiet d [] mdns = poll_mdns-Quiet d mdns
poll_kademlia-Quiet d (generate_event e ∷ as') mdns =
    subst (λ d'. Quiet d (poll_kademlia d' as' mdns)) (sym (handle_kad_event_lem d e))
      (poll_kademlia-Quiet d as' mdns)
poll_kademlia-Quiet d (report_observed_addr a ∷ as') mdns = ((refl, refl), refl)
poll_kademlia-Quiet d (close_connection a ∷ as') mdns = ((refl, refl), refl)
poll_kademlia-Quiet d (dial a ∷ as') mdns = ((refl, refl), refl)
poll_kademlia-Quiet d (notify_handler a ∷ as') mdns = ((refl, refl), refl)

poll-eq-poll_kademlia :
    (d : Discovery) (kad : List (Action KademliaEvent)) (mdns : List (Action MdnsEvent))
    → d.events ≡ []
    → poll d kad mdns ≡ poll_kademlia d kad mdns
unfolding poll
poll-eq-poll_kademlia d kad mdns e = rw e

Quiet-Agrees :
    (p : PeerId) (past : List DiscoveryEvent) (d : Discovery) (r : Polled)
    → Quiet d r
    → Agrees p (record { state = d; past = past })
    → Agrees p (record { state = r.state; past = past ++ taken r.ready })
Quiet-Agrees p past d r ((peers, events), t) a = rw (t, append-nil past, events, peers) a

poll-Agrees :
    (p : PeerId) (past : List DiscoveryEvent) (d : Discovery) (kad : List (Action KademliaEvent))
    (mdns : List (Action MdnsEvent))
    → Agrees p (record { state = d; past = past })
    → Agrees p
        (record { state = (poll d kad mdns).state; past = past ++ taken (poll d kad mdns).ready })
unfolding poll
poll-Agrees p past d kad mdns a = elim (List-cases d.events) [
  | inl e ↦
      subst (λ r. Agrees p (record { state = r.state; past = past ++ taken r.ready }))
        (sym (poll-eq-poll_kademlia d kad mdns e))
        (Quiet-Agrees p past d (poll_kademlia d kad mdns) (poll_kademlia-Quiet d kad mdns) a)
  | inr (x, rest, e) ↦ rw e (rw (append_assoc past (x ∷ []) rest) (rw e at a))
]

-- From the start, over any history of connection reports and polls, the events that were polled and
-- those still queued tell of each peer in turn that it connected and that it disconnected, never one of
-- these twice in a row, and the last of them agrees with the set of peers.
pub happen_all-Agrees :
    (p : PeerId) (r : Run) (hs : List Happening) → Agrees p r → Agrees p (happen_all r hs)
unfolding happen_all
happen_all-Agrees p r [] a = a
happen_all-Agrees p r (reported c ∷ hs) a =
    happen_all-Agrees p (record r { state = inject r.state c }) hs
      (inject-Agrees p r.past r.state c a)
happen_all-Agrees p r (polled kad mdns ∷ hs) a =
    let result = poll r.state kad mdns in
    happen_all-Agrees p (record { state = result.state; past = r.past ++ taken result.ready }) hs
      (poll-Agrees p r.past r.state kad mdns a)
