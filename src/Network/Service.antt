-- ===== src/Network/Service.antt =====
-- `UrsaService` of crates/ursa-network/src/service.rs: its state, its commands and the world around a
-- turn of its loop. What a turn sends on one-shot channels, asks of the swarm and reports to the
-- metrics is recorded in the state. The service holds both ends of its unbounded event channel, so
-- that a send on it does not fail.
pub mod Bitswap
pub mod Publish
pub mod Turns
pub mod Answers
pub mod Frame
pub mod Waiting
pub mod Accounts
pub mod Chunks
pub mod Advertised
pub mod Roots
pub mod Queue
pub mod Ends
pub mod Crawl
pub mod Events
pub mod Quiet
pub mod Queued
pub mod Ledger
pub mod Publications
pub mod Remaining
pub mod Delivery
pub mod Tests
use Prim.Native.String.{String}
use ursa.Prelude.{
  ℕ, List, [], ◌∷◌, ◌++◌, Option, none, some, Bool, true, false, Result, ok, err, panic,
}
use ursa.Store.{Cid, Bytes, StoreError, BlockStore, Decoder}
use ursa.Store.Dag.{Order}
use ursa.Network.Multiaddr.{PeerId, Multiaddr}
use ursa.Network.Exchange.{UrsaExchangeRequest, UrsaExchangeResponse}
use ursa.Network.Behaviour.{Behaviour, Sender, RequestId, QueryId, GossipsubMessage}
use ursa.Index.Advertisement.{Ipld, Codecs}
use ursa.Index.Announcement.{Cbor}
use ursa.Index.Provider.{ObjectStore, Provider}
use ursa.Metrics.{Change, MetricEvent, track}

pub data BitswapType : Type 0 where
  get sync : BitswapType

pub data UrsaCommand : Type 0 where
  get_bitswap : Cid → BitswapType → Sender → UrsaCommand
  put : Cid → Sender → UrsaCommand
  get_peers : Sender → UrsaCommand
  index : List Cid → Sender → UrsaCommand
  send_request : PeerId → UrsaExchangeRequest → Sender → UrsaCommand
  send_response : RequestId → UrsaExchangeResponse → Sender → UrsaCommand
  gossipsub_message : String → GossipsubMessage → UrsaCommand

pub data UrsaEvent : Type 0 where
  peer_connected peer_disconnected : PeerId → UrsaEvent
  gossip : GossipsubMessage → UrsaEvent
  request_message : UrsaExchangeRequest → ℕ → UrsaEvent

-- What is sent on a block's one-shot channel.
pub data BlockReply : Type 0 where
  stored not_found no_peers : BlockReply

-- What ends the loop with an error.
pub data ServiceError : Type 0 where
  store_failed : StoreError → ServiceError
  encoding_failed : ServiceError

-- The world in one turn: the block store as each successive call of `contains` finds it, the store
-- that a traversal reads, the state of the swarm, ids and random numbers that are handed out, and the
-- codecs.
pub record World (b : BlockStore) : Type 0 where
  pub stores : ℕ → b.Db
  pub db : b.Db
  pub ipld : Decoder
  pub order : Order
  pub rounds : ℕ
  pub is_connected : PeerId → Bool
  pub choose : List (PeerId × Multiaddr) → Option (PeerId × Multiaddr)
  pub listens : Multiaddr → Bool
  pub query_id : QueryId
  pub request_id : RequestId
  pub message_id : Option ℕ
  pub ad_id : Cid → ℕ
  pub codecs : Codecs
  pub multiaddr_text : Multiaddr → Bytes
  pub hash_bytes : Cid → Bytes
  pub to_vec : List Ipld → Result ServiceError Bytes
  pub cbor : Cbor
  pub http_address : Option Bytes

-- `store` is the database behind the store as it was handed over; what it holds later comes from the world of
-- each turn.
pub record UrsaService (Db : Type 0) : Type 0 where
  pub peer_id : PeerId
  pub store : Db
  pub behaviour : Behaviour
  pub index_provider : Provider Db
  pub response_channels : List (Cid × List Sender)
  pub event_channel : List UrsaEvent
  pub block_replies : List (Sender × BlockReply)
  pub peer_replies : List (Sender × List PeerId)
  pub index_replies : List (Sender × List Cid)
  pub listeners : List Multiaddr
  pub changes : List Change
  pub http_announced : List Bytes

pub tracked : {Db : Type 0} → MetricEvent → Bool → UrsaService Db → UrsaService Db
unfolding track
tracked e labelled s = record s { changes = s.changes ++ track e labelled none }

pub emit : {Db : Type 0} → UrsaEvent → UrsaService Db → UrsaService Db
emit e s = record s { event_channel = s.event_channel ++ e ∷ [] }
