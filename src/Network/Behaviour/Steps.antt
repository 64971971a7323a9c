-- ===== src/Network/Behaviour/Steps.antt =====
-- All that can happen to a `Behaviour` of crates/ursa-network/src/behaviour.rs: the events of its
-- sub-behaviours (`inject_event`), the calls of the service, and a poll.
use Prim.Native.String.{String}
use ursa.Prelude.{ℕ, List, [], ◌∷◌, Option, Bool}
use ursa.Store.{Cid}
use ursa.Network.Multiaddr.{PeerId, Multiaddr}
use ursa.Network.Discovery.{DiscoveryEvent}
use ursa.Network.Exchange.{UrsaExchangeRequest}
use ursa.Network.Behaviour.{
  Behaviour, QueryId, RequestId, Sender, GossipsubMessage, publish, subscribe, unsubscribe,
  publish_ad, send_request, get_block, sync_block, cancel, poll,
}
use ursa.Network.Behaviour.Handlers.{
  PingEvent, IdentifyEvent, AutonatEvent, RelayServerEvent, BitswapEvent, GossipsubEvent,
  RequestResponseEvent, handle_ping, handle_identify, handle_autonat, handle_relay_server,
  handle_relay_client, handle_dcutr, handle_bitswap, handle_gossipsub, handle_discovery,
  handle_request_response,
}

pub data SubEvent : Type 0 where
  of_ping : PingEvent → SubEvent
  of_identify : IdentifyEvent → SubEvent
  of_gossipsub : GossipsubEvent → SubEvent
  of_bitswap : BitswapEvent → SubEvent
  of_discovery : DiscoveryEvent → SubEvent
  of_autonat : AutonatEvent → SubEvent
  of_relay_server : RelayServerEvent → SubEvent
  of_relay_client of_dcutr : ℕ → SubEvent
  of_exchange : RequestResponseEvent → SubEvent

unfoldable pub inject_event : Behaviour → SubEvent → Behaviour
unfolding handle_ping handle_identify handle_autonat handle_relay_server handle_relay_client
    handle_dcutr handle_bitswap handle_gossipsub handle_discovery handle_request_response
inject_event b (of_ping e) = handle_ping b e
inject_event b (of_identify e) = handle_identify b e
inject_event b (of_gossipsub e) = handle_gossipsub b e
inject_event b (of_bitswap e) = handle_bitswap b e
inject_event b (of_discovery e) = handle_discovery b e
inject_event b (of_autonat e) = handle_autonat b e
inject_event b (of_relay_server e) = handle_relay_server b e
inject_event b (of_relay_client e) = handle_relay_client b e
inject_event b (of_dcutr e) = handle_dcutr b e
inject_event b (of_exchange e) = handle_request_response b e

pub data Step : Type 0 where
  sub_event : SubEvent → Step
  requests : RequestId → PeerId → UrsaExchangeRequest → Sender → Step
  gets syncs : QueryId → Cid → List PeerId → Step
  cancels : QueryId → Step
  publishes_ad : Multiaddr → Step
  publishes : Option ℕ → String → GossipsubMessage → Step
  subscribes unsubscribes : Option Bool → String → Step
  polls : Step

unfoldable pub step : Behaviour → Step → Behaviour
unfolding inject_event send_request get_block sync_block cancel publish_ad publish subscribe
    unsubscribe poll
step b (sub_event e) = inject_event b e
step b (requests id peer r sender) = send_request id b peer r sender
step b (gets id cid providers) = get_block id b cid providers
step b (syncs id cid providers) = sync_block id b cid providers
step b (cancels id) = cancel b id
step b (publishes_ad addr) = publish_ad b addr
step b (publishes id topic m) = (publish id b topic m).0
step b (subscribes fresh topic) = (subscribe fresh b topic).0
step b (unsubscribes left topic) = (unsubscribe left b topic).0
step b polls = (poll b).0

unfoldable pub run : Behaviour → List Step → Behaviour
unfolding step
run b [] = b
run b (s ∷ ss) = run (step b s) ss
