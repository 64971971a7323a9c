-- ===== src/Network/Behaviour.antt =====
-- `Behaviour` of crates/ursa-network/src/behaviour.rs: its state, its events and the calls that the
-- service makes. What it asks of the sub-behaviours of libp2p is recorded in `calls`, call by call; the
-- ids that they hand out are arguments. A one-shot sender is a number, and what is sent on it is
-- recorded in `replies`.
pub mod Handlers
pub mod Steps
pub mod Requests
pub mod Queries
pub mod Queue
pub mod Identify
pub mod Tests
use Prim.Native.String.{String}
use ursa.Prelude.{
  ℕ, List, [], ◌∷◌, ◌++◌, Option, none, some, Bool, true, false, insert, erase, is_some, Result,
}
use ursa.Store.{Cid}
use ursa.Network.Multiaddr.{PeerId, Multiaddr}
use ursa.Network.Discovery.{Discovery}
use ursa.Network.Exchange.{UrsaExchangeRequest, UrsaExchangeResponse}

abbrev pub QueryId : Type 0
QueryId = ℕ

abbrev pub RequestId : Type 0
RequestId = ℕ

abbrev pub Sender : Type 0
Sender = ℕ

pub record BitswapInfo : Type 0 where
  pub cid : Cid
  pub query_id : QueryId
  pub block_found : Bool

pub data NatStatus : Type 0 where
  public : Multiaddr → NatStatus
  private_nat unknown : NatStatus

pub record GossipsubMessage : Type 0 where
  pub topic : String
  pub bytes : List ℕ

pub data BehaviourEvent : Type 0 where
  nat_status_changed : NatStatus → NatStatus → BehaviourEvent
  peer_connected peer_disconnected : PeerId → BehaviourEvent
  relay_reservation_opened relay_reservation_closed : PeerId → BehaviourEvent
  relay_circuit_opened relay_circuit_closed : BehaviourEvent
  bitswap : BitswapInfo → BehaviourEvent
  gossip_message : PeerId → String → GossipsubMessage → BehaviourEvent
  request_message : PeerId → UrsaExchangeRequest → ℕ → BehaviourEvent
  start_publish : Multiaddr → BehaviourEvent

-- The calls that reach the other sub-behaviours.
pub data Call : Type 0 where
  add_explicit_peer : PeerId → Call
  exchange_address : PeerId → Multiaddr → Call
  exchange_request : PeerId → UrsaExchangeRequest → Call
  bitswap_get : Cid → List PeerId → Call
  bitswap_sync : Cid → List PeerId → List Cid → Call
  bitswap_cancel : QueryId → Call
  gossip_publish : String → List ℕ → Call
  gossip_subscribe gossip_unsubscribe : String → Call

-- What a requester is told: the response, or that the request failed.
pub data Reply : Type 0 where
  answered : UrsaExchangeResponse → Reply
  failed : Reply

pub record Behaviour : Type 0 where
  -- The toggles: the public address, if autonat runs and knows one.
  pub autonat : Option (Option Multiaddr)
  pub relay_client : Bool
  pub relay_server : Bool
  pub dcutr : Bool
  pub discovery : Discovery
  pub events : List BehaviourEvent
  pub pending_requests : List (RequestId × ℕ)
  pub pending_responses : List (RequestId × Sender)
  pub queries : List (QueryId × BitswapInfo)
  pub calls : List Call
  pub replies : List (Sender × Reply)

pub push_event : Behaviour → BehaviourEvent → Behaviour
push_event b e = record b { events = b.events ++ e ∷ [] }

pub call : Behaviour → Call → Behaviour
call b c = record b { calls = b.calls ++ c ∷ [] }

abbrev pub flatten_option {ℓ} : {A : Type ℓ} → Option (Option A) → Option A
flatten_option none = none
flatten_option (some a) = a

unfoldable pub public_address : Behaviour → Option Multiaddr
public_address b = flatten_option b.autonat

unfoldable pub peers : Behaviour → List PeerId
peers b = b.discovery.peers

unfoldable pub is_relay_client_enabled : Behaviour → Bool
is_relay_client_enabled b = b.relay_client

-- The answers of gossipsub are arguments, and `none` is an error.
unfoldable pub publish : Option ℕ → Behaviour → String → GossipsubMessage → Behaviour × Option ℕ
unfolding call
publish message_id b topic message = (call b (gossip_publish topic message.bytes), message_id)

unfoldable pub subscribe : Option Bool → Behaviour → String → Behaviour × Option Bool
unfolding call
subscribe fresh b topic = (call b (gossip_subscribe topic), fresh)

pub unsubscribe : Option Bool → Behaviour → String → Behaviour × Option Bool
unfolding call
unsubscribe left b topic = (call b (gossip_unsubscribe topic), left)

unfoldable pub publish_ad : Behaviour → Multiaddr → Behaviour
unfolding push_event
publish_ad b public_address = push_event b (start_publish public_address)

-- `request_id` is the id that the request-response behaviour gives the request.
unfoldable pub send_request :
    RequestId → Behaviour → PeerId → UrsaExchangeRequest → Sender → Behaviour
send_request request_id b peer request sender = record b {
  calls = b.calls ++ exchange_request peer request ∷ [];
  pending_responses = insert request_id sender b.pending_responses;
}

-- `id` is the id that bitswap gives the query.
abbrev pub new_query : QueryId → Cid → BitswapInfo
new_query id cid = record { cid = cid; query_id = id; block_found = false }

unfoldable pub get_block : QueryId → Behaviour → Cid → List PeerId → Behaviour
get_block id b cid providers = record b {
  calls = b.calls ++ bitswap_get cid providers ∷ [];
  queries = insert id (new_query id cid) b.queries;
}

unfoldable pub sync_block : QueryId → Behaviour → Cid → List PeerId → Behaviour
sync_block id b cid providers = record b {
  calls = b.calls ++ bitswap_sync cid providers (cid ∷ []) ∷ [];
  queries = insert id (new_query id cid) b.queries;
}

unfoldable pub cancel : Behaviour → QueryId → Behaviour
cancel b id = record b { calls = b.calls ++ bitswap_cancel id ∷ []; queries = erase id b.queries }

-- `Behaviour::poll`: the oldest event, or `Pending`.
unfoldable pub poll : Behaviour → Behaviour × Option BehaviourEvent
poll b = elim b.events [ [] ↦ (b, none) | e ∷ rest ↦ (record b { events = rest }, some e) ]
