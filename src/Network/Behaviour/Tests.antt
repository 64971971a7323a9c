-- ===== src/Network/Behaviour/Tests.antt =====
-- A behaviour with nothing pending, and the theorems at short runs of it.
use ursa.Prelude.{◌+◌, ◌≡◌, refl, List, [], ◌∷◌, ◌++◌, none, some, true, false}
use ursa.Network.Discovery.{Discovery}
use ursa.Network.Multiaddr.{ip4}
use ursa.Network.Exchange.{UrsaExchangeRequest, UrsaExchangeResponse, car_request, car_response}
use ursa.Network.Behaviour.{Behaviour, private_nat, unknown, get_block, sync_block}
use ursa.Network.Behaviour.Handlers.{response, complete, status_changed, IdentifyInfo}
use ursa.Network.Behaviour.Steps.{
  Step, sub_event, of_exchange, of_bitswap, of_autonat, requests, gets, polls, inject_event, step,
  run,
}
use ursa.Network.Behaviour.Requests.{account, asked, account-run}
use ursa.Network.Behaviour.Queries.{Reported, query-Reported}
use ursa.Network.Behaviour.Queue.{pushed_by, taken_by, run_events}

abbrev idle_discovery : Discovery
idle_discovery = record {
  local_peer_id = 1;
  kademlia = [];
  replication_factor = 8;
  bootstrap_nodes = [];
  peers = 5 ∷ [];
  peer_info = [];
  events = [];
  mdns = false;
}

abbrev pub idle : Behaviour
idle = record {
  autonat = some none;
  relay_client = true;
  relay_server = true;
  dcutr = true;
  discovery = idle_discovery;
  events = [];
  pending_requests = [];
  pending_responses = [];
  queries = [];
  calls = [];
  replies = [];
}

abbrev ask : UrsaExchangeRequest
ask = record { request_type = car_request "Qm" }

abbrev reply : UrsaExchangeResponse
reply = record { response_type = car_response (record { cid = "Qm"; bytes = 1 ∷ [] }) }

-- Two requests, of which the first is answered.
abbrev exchange : List Step
exchange =
    requests 1 5 ask 70 ∷ requests 2 5 ask 71 ∷ sub_event (of_exchange (response 5 1 reply)) ∷ []

account-run_example : account 70 (run idle exchange) ≡ account 70 idle + asked 70 exchange
unfolding step
account-run_example = account-run 70 idle exchange tt (refl, (refl, (tt, tt)))

-- Between a query and its end, another begins and ends.
abbrev other_query : List Step
other_query = gets 4 90 (5 ∷ []) ∷ sub_event (of_bitswap (complete 4 false)) ∷ polls ∷ []

query-Reported_example :
    Reported
      (run (get_block 3 idle 80 (5 ∷ [])) other_query)
      3
      80
      true
      (inject_event (run (get_block 3 idle 80 (5 ∷ [])) other_query) (of_bitswap (complete 3 true)))
    × Reported (run (sync_block 3 idle 80 (5 ∷ [])) other_query) 3 80 true (
        inject_event
          (run (sync_block 3 idle 80 (5 ∷ [])) other_query)
          (of_bitswap (complete 3 true)))
query-Reported_example =
    query-Reported idle 3 80 (5 ∷ []) other_query true (refl, (refl, (refl, tt)))

abbrev nat_change : List Step
nat_change = sub_event (of_autonat (status_changed unknown private_nat)) ∷ polls ∷ gets 4 90 [] ∷ []

run_events_example :
    [] ++ pushed_by idle nat_change ≡ taken_by idle nat_change ++ (run idle nat_change).events
run_events_example = run_events idle nat_change

abbrev identity : IdentifyInfo
identity = record {
  protocols = "/ipfs/id/1.0.0" ∷ "/ursa/kad/0.0.1" ∷ [];
  listen_addrs = (ip4 9 ∷ []) ∷ [];
}
