-- ===== src/Network/Behaviour/Queue.antt =====
-- The events that the behaviour emits: which step emits which, and in which order a poll yields them.
use ursa.Prelude.{
  ◌≡◌, refl, sym, ap, ◌∙◌, inl, inr, List, [], ◌∷◌, ◌++◌, append-nil, append_assoc, none, some,
  false, lookup, Bool-cases, List-cases, arith,
}
use ursa.Network.Multiaddr.{PeerId, Multiaddr}
use ursa.Network.Discovery.{connected, disconnected}
use ursa.Network.Behaviour.{
  Behaviour, BehaviourEvent, nat_status_changed, peer_connected, peer_disconnected,
  relay_reservation_opened, relay_reservation_closed, relay_circuit_opened, relay_circuit_closed,
  bitswap, gossip_message, request_message, start_publish, poll,
}
use ursa.Network.Behaviour.Handlers.{
  received, identify_sent, identify_pushed, identify_error, speaks_ursa, add_addresses,
  IdentifyEvent, handle_identify, status_changed, reservation_req_accepted, reservation_timed_out,
  circuit_req_accepted, circuit_closed, complete, found_as, message, request,
}
use ursa.Network.Behaviour.Steps.{
  SubEvent, of_ping, of_identify, of_gossipsub, of_bitswap, of_discovery, of_autonat,
  of_relay_server, of_relay_client, of_dcutr, of_exchange, inject_event, Step, sub_event, requests,
  gets, syncs, cancels, publishes_ad, publishes, subscribes, unsubscribes, polls, step, run,
}

-- What a sub-behaviour's event is reported as, at most one event.
abbrev pub reported : Behaviour → SubEvent → List BehaviourEvent
reported b (of_autonat (status_changed old new)) = nat_status_changed old new ∷ []
reported b (of_relay_server (reservation_req_accepted p false)) = relay_reservation_opened p ∷ []
reported b (of_relay_server (reservation_timed_out p)) = relay_reservation_closed p ∷ []
reported b (of_relay_server circuit_req_accepted) = relay_circuit_opened ∷ []
reported b (of_relay_server circuit_closed) = relay_circuit_closed ∷ []
reported b (of_bitswap (complete id succeeded)) = elim (lookup id b.queries) [
  | none ↦ []
  | some info ↦ bitswap (found_as info succeeded) ∷ []
]
reported b (of_gossipsub (message p m)) = gossip_message p m.topic m ∷ []
reported b (of_discovery (connected p)) = peer_connected p ∷ []
reported b (of_discovery (disconnected p)) = peer_disconnected p ∷ []
reported b (of_exchange (request p id r channel)) = request_message p r channel ∷ []
reported b _ = []

-- What a step adds to the queue.
abbrev pushed : Behaviour → Step → List BehaviourEvent
pushed b (sub_event e) = reported b e
pushed b (publishes_ad addr) = start_publish addr ∷ []
pushed b _ = []

-- What a step takes from it.
abbrev pub taken : Behaviour → Step → List BehaviourEvent
taken b polls = elim (poll b).1 [ none ↦ [] | some e ↦ e ∷ [] ]
taken b _ = []

abbrev pub pushed_by : Behaviour → List Step → List BehaviourEvent
pushed_by b [] = []
pushed_by b (st ∷ sts) = pushed b st ++ pushed_by (step b st) sts

abbrev pub taken_by : Behaviour → List Step → List BehaviourEvent
taken_by b [] = []
taken_by b (st ∷ sts) = taken b st ++ taken_by (step b st) sts

add_addresses_events :
    (peer : PeerId) (b : Behaviour) (addrs : List Multiaddr)
    → (add_addresses peer b addrs).events ≡ b.events
unfolding add_addresses
add_addresses_events peer b [] = refl
add_addresses_events peer b (a ∷ as') = add_addresses_events peer _ as'

handle_identify_events :
    (b : Behaviour) (e : IdentifyEvent) → (handle_identify b e).events ≡ b.events
unfolding handle_identify
handle_identify_events b (received peer info) = elim (Bool-cases (speaks_ursa info.protocols)) [
  | inl same ↦ rw same (add_addresses_events peer _ info.listen_addrs)
  | inr other ↦ rw other
]
handle_identify_events b (identify_sent p) = refl
handle_identify_events b (identify_pushed p) = refl
handle_identify_events b (identify_error p) = refl

-- The queue grows at its end by exactly what is reported.
inject_event_events :
    (b : Behaviour) (e : SubEvent) → (inject_event b e).events ≡ b.events ++ reported b e
unfolding inject_event
inject_event_events b (of_ping e) = ground (arith, append-nil b.events)
inject_event_events b (of_identify e) = handle_identify_events b e ∙ sym (append-nil b.events)
inject_event_events b (of_gossipsub e) = ground (arith, append-nil b.events)
inject_event_events b (of_bitswap e) = ground (arith, append-nil b.events)
inject_event_events b (of_discovery e) = ground (arith, append-nil b.events)
inject_event_events b (of_autonat e) = ground (arith, append-nil b.events)
inject_event_events b (of_relay_server e) = ground (arith, append-nil b.events)
inject_event_events b (of_relay_client e) = sym (append-nil b.events)
inject_event_events b (of_dcutr e) = sym (append-nil b.events)
inject_event_events b (of_exchange e) = ground (arith, append-nil b.events)

step_events :
    (b : Behaviour) (st : Step) → b.events ++ pushed b st ≡ taken b st ++ (step b st).events
unfolding step
step_events b (sub_event e) = sym (inject_event_events b e)
step_events b (publishes_ad a) = refl
step_events b (requests i p r t) = append-nil b.events
step_events b (gets i c ps) = append-nil b.events
step_events b (syncs i c ps) = append-nil b.events
step_events b (cancels i) = append-nil b.events
step_events b (publishes i t m) = append-nil b.events
step_events b (subscribes i t) = append-nil b.events
step_events b (unsubscribes i t) = append-nil b.events
step_events b polls = ground (arith, append-nil b.events, List-cases b.events)

-- Over any run the events come out in the order in which they were reported, each once, and none is lost:
-- those that were queued or reported are those that polls took, followed by those still queued.
pub run_events :
    (b : Behaviour) (sts : List Step)
    → b.events ++ pushed_by b sts ≡ taken_by b sts ++ (run b sts).events
unfolding run
run_events b [] = append-nil b.events
run_events b (st ∷ sts) =
    sym (append_assoc b.events (pushed b st) (pushed_by (step b st) sts))
    ∙ ap (λ xs. xs ++ pushed_by (step b st) sts) (step_events b st)
    ∙ append_assoc (taken b st) (step b st).events (pushed_by (step b st) sts)
    ∙ ap (λ xs. taken b st ++ xs) (run_events (step b st) sts)
    ∙ sym (append_assoc (taken b st) (taken_by (step b st) sts) (run (step b st) sts).events)
