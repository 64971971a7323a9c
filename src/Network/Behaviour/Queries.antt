-- ===== src/Network/Behaviour/Queries.antt =====
-- The bitswap queries that the behaviour follows, from the request of a block to the event that ends it.
use ursa.Prelude.{
  ◌≡◌, ◌==◌, refl, ◌∙◌, ap, inl, inr, List, [], ◌∷◌, ◌++◌, none, some, Bool, true, false, not,
  lookup, insert, erase, lookup-insert, lookup-erase, Bool-cases, arith, ==_refl,
}
use ursa.Store.{Cid}
use ursa.Network.Multiaddr.{PeerId, Multiaddr}
use ursa.Network.Behaviour.{Behaviour, QueryId, bitswap, get_block, sync_block, cancel, new_query}
use ursa.Network.Behaviour.Handlers.{
  received, identify_sent, identify_pushed, identify_error, speaks_ursa, add_addresses,
  IdentifyEvent, handle_identify, progress, complete,
}
use ursa.Network.Behaviour.Steps.{
  SubEvent, of_ping, of_identify, of_gossipsub, of_bitswap, of_discovery, of_autonat,
  of_relay_server, of_relay_client, of_dcutr, of_exchange, inject_event, Step, sub_event, requests,
  gets, syncs, cancels, publishes_ad, publishes, subscribes, unsubscribes, polls, step, run,
}

-- The step is about another query, or about none.
abbrev spares : QueryId → Step → Bool
spares id (gets j cid ps) = not (id == j)
spares id (syncs j cid ps) = not (id == j)
spares id (cancels j) = not (id == j)
spares id (sub_event (of_bitswap (complete j succeeded))) = not (id == j)
spares id _ = true

abbrev AllSpare : QueryId → List Step → Type 0
AllSpare id [] = Unit {0}
AllSpare id (st ∷ sts) = (spares id st ≡ true) × AllSpare id sts

add_addresses_queries :
    (peer : PeerId) (b : Behaviour) (addrs : List Multiaddr)
    → (add_addresses peer b addrs).queries ≡ b.queries
unfolding add_addresses
add_addresses_queries peer b [] = refl
add_addresses_queries peer b (a ∷ as') = add_addresses_queries peer _ as'

handle_identify_queries :
    (b : Behaviour) (e : IdentifyEvent) → (handle_identify b e).queries ≡ b.queries
unfolding handle_identify
handle_identify_queries b (received peer info) = elim (Bool-cases (speaks_ursa info.protocols)) [
  | inl same ↦ rw same (add_addresses_queries peer _ info.listen_addrs)
  | inr other ↦ rw other
]
handle_identify_queries b (identify_sent p) = refl
handle_identify_queries b (identify_pushed p) = refl
handle_identify_queries b (identify_error p) = refl

lookup-inject_event :
    (id : QueryId) (b : Behaviour) (e : SubEvent)
    → spares id (sub_event e) ≡ true
    → lookup id (inject_event b e).queries ≡ lookup id b.queries
unfolding inject_event
lookup-inject_event id b (of_bitswap (complete j succeeded)) h =
    ground (arith, lookup-erase id j b.queries)
lookup-inject_event id b (of_bitswap (progress j missing)) h = refl
lookup-inject_event id b (of_identify e) h = ap (lookup id) (handle_identify_queries b e)
lookup-inject_event id b (of_ping e) h = ground arith
lookup-inject_event id b (of_gossipsub e) h = ground arith
lookup-inject_event id b (of_discovery e) h = ground arith
lookup-inject_event id b (of_autonat e) h = ground arith
lookup-inject_event id b (of_relay_server e) h = ground arith
lookup-inject_event id b (of_relay_client e) h = refl
lookup-inject_event id b (of_dcutr e) h = refl
lookup-inject_event id b (of_exchange e) h = ground arith

lookup-step :
    (id : QueryId) (b : Behaviour) (st : Step)
    → spares id st ≡ true
    → lookup id (step b st).queries ≡ lookup id b.queries
unfolding step
lookup-step id b (sub_event e) h = lookup-inject_event id b e h
lookup-step id b (requests i p r t) h = refl
lookup-step id b (gets j cid ps) h = ground (arith, lookup-insert id j (new_query j cid) b.queries)
lookup-step id b (syncs j cid ps) h = ground (arith, lookup-insert id j (new_query j cid) b.queries)
lookup-step id b (cancels j) h = ground (arith, lookup-erase id j b.queries)
lookup-step id b (publishes_ad a) h = refl
lookup-step id b (publishes i t m) h = refl
lookup-step id b (subscribes i t) h = refl
lookup-step id b (unsubscribes i t) h = refl
lookup-step id b polls h = ground arith

lookup-run :
    (id : QueryId) (b : Behaviour) (sts : List Step)
    → AllSpare id sts
    → lookup id (run b sts).queries ≡ lookup id b.queries
unfolding run
lookup-run id b [] h = refl
lookup-run id b (st ∷ sts) h = lookup-run id (step b st) sts h.1 ∙ lookup-step id b st h.0

-- What ends a query: the event that reports it, and no trace of it in `queries`.
abbrev pub Reported : Behaviour → QueryId → Cid → Bool → Behaviour → Type 0
Reported b id cid succeeded b' =
    (b'.events
      ≡ b.events ++ bitswap (record { cid = cid; query_id = id; block_found = succeeded }) ∷ [])
    × (lookup id b'.queries ≡ none)

complete_reports :
    (b : Behaviour) (id : QueryId) (cid : Cid) (succeeded : Bool)
    → lookup id b.queries ≡ some (new_query id cid)
    → Reported b id cid succeeded (inject_event b (of_bitswap (complete id succeeded)))
unfolding inject_event
complete_reports b id cid true e = ground (arith, lookup-erase id id b.queries)
complete_reports b id cid false e = ground (arith, lookup-erase id id b.queries)

-- A block that is asked for, by `get_block` or by `sync_block`, is reported when its query completes, with
-- its Cid, the query's id and whether the query succeeded, whatever else happens in between, as
-- long as the query is not cancelled and its id is not used again.
pub query-Reported :
    (b : Behaviour) (id : QueryId) (cid : Cid) (providers : List PeerId) (sts : List Step)
    (succeeded : Bool)
    → AllSpare id sts
    → Reported
        (run (get_block id b cid providers) sts)
        id
        cid
        succeeded
        (inject_event (run (get_block id b cid providers) sts) (of_bitswap (complete id succeeded)))
      × Reported (run (sync_block id b cid providers) sts) id cid succeeded (
          inject_event
            (run (sync_block id b cid providers) sts)
            (of_bitswap (complete id succeeded)))
unfolding get_block sync_block
query-Reported b id cid providers sts succeeded h = (
  complete_reports _ id cid succeeded (lookup-run id _ sts h ∙ inserted),
  complete_reports _ id cid succeeded (lookup-run id _ sts h ∙ inserted),
)
  where
    inserted : lookup id (insert id (new_query id cid) b.queries) ≡ some (new_query id cid)
    inserted = rw (lookup-insert id id (new_query id cid) b.queries, ==_refl id)

unknown_silent :
    (b : Behaviour) (id : QueryId) (succeeded : Bool)
    → lookup id b.queries ≡ none
    → inject_event b (of_bitswap (complete id succeeded)) ≡ b
unfolding inject_event
unknown_silent b id succeeded e = ground arith

-- A query that was cancelled, or that completed before, is not reported: its completion changes nothing.
cancelled_silent :
    (b : Behaviour) (id : QueryId) (sts : List Step) (first second : Bool)
    → AllSpare id sts
    → let gone = run (cancel b id) sts in
      let done = run (inject_event b (of_bitswap (complete id first))) sts in
      (inject_event gone (of_bitswap (complete id second)) ≡ gone)
      × (inject_event done (of_bitswap (complete id second)) ≡ done)
unfolding inject_event cancel
cancelled_silent b id sts first second h = (
  unknown_silent _ id second (lookup-run id _ sts h ∙ erased),
  unknown_silent _ id second (lookup-run id _ sts h ∙ completed),
)
  where
    erased : lookup id (erase id b.queries) ≡ none
    erased = rw (lookup-erase id id b.queries, ==_refl id)

    completed : lookup id (inject_event b (of_bitswap (complete id first))).queries ≡ none
    completed = ground (arith, lookup-erase id id b.queries)
