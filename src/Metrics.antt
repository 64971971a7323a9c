-- ===== src/Metrics.antt =====
-- crates/ursa-metrics/src/events.rs: the events of a node and the series that they move. A call of the
-- metrics macros is a `Change`; what the recorder makes of it belongs to the crate `metrics`.
pub mod Names
pub mod Server
mod Tests
use Prim.Native.String.{String}
use text.Mathlib.Text.{◌==◌ as str_eq}
use ursa.Prelude.{ℕ, ◌++◌, if◌then◌else◌, List, [], ◌∷◌, Option, none, some, Bool, true, false}

pub data MetricEvent : Type 0 where
  peer_connected peer_disconnected : MetricEvent
  relay_reservation_opened relay_reservation_closed : MetricEvent
  relay_circuit_opened relay_circuit_closed : MetricEvent
  bitswap gossip_message request_message : MetricEvent
  rpc_request_received rpc_response_sent : MetricEvent

pub data Metric : Type 0 where
  active_connected_peers active_relay_reservations active_relay_circuits : Metric
  http_rpc_requests node_bitswap_operations node_gossip_messages : Metric
  node_request_messages node_response_info : Metric
  unknown : String → Metric

-- `Display`.
pub to_string : Metric → String
to_string active_connected_peers = "active_connected_peers"
to_string active_relay_reservations = "active_relay_reservations"
to_string active_relay_circuits = "active_relay_circuits"
to_string http_rpc_requests = "http_rpc_requests"
to_string node_bitswap_operations = "node_bitswap_operations"
to_string node_gossip_messages = "node_gossip_messages"
to_string node_request_messages = "node_request_messages"
to_string node_response_info = "node_response_info"
to_string (unknown s) = s

-- `FromStr`, which never fails.
pub from_str : String → Metric
from_str s =
    if str_eq s "active_connected_peers"
    then active_connected_peers
    else if str_eq s "http_rpc_requests"
    then http_rpc_requests
    else if str_eq s "node_bitswap_operations"
    then node_bitswap_operations
    else if str_eq s "node_gossip_messages"
    then node_gossip_messages
    else if str_eq s "node_request_messages"
    then node_request_messages
    else if str_eq s "node_response_info"
    then node_response_info
    else unknown s

pub data Change : Type 0 where
  increment_counter : String → Change
  increment_gauge decrement_gauge : String → Change
  histogram : String → ℕ → Change

abbrev with_labels : MetricEvent → Option ℕ → List Change
with_labels bitswap value = increment_counter (to_string node_bitswap_operations) ∷ []
with_labels gossip_message value = increment_counter (to_string node_gossip_messages) ∷ []
with_labels request_message value = increment_counter (to_string node_request_messages) ∷ []
with_labels rpc_response_sent (some latency) = histogram (to_string node_response_info) latency ∷ []
with_labels rpc_response_sent none = []
with_labels _ value = []

abbrev without_labels : MetricEvent → List Change
without_labels peer_connected = increment_gauge (to_string active_connected_peers) ∷ []
without_labels peer_disconnected = decrement_gauge (to_string active_connected_peers) ∷ []
without_labels rpc_request_received = increment_counter (to_string active_connected_peers) ∷ []
without_labels relay_reservation_opened = increment_gauge (to_string active_relay_reservations) ∷ []
without_labels relay_reservation_closed = decrement_gauge (to_string active_relay_reservations) ∷ []
without_labels relay_circuit_opened = increment_gauge (to_string active_relay_circuits) ∷ []
without_labels relay_circuit_closed = decrement_gauge (to_string active_relay_circuits) ∷ []
without_labels _ = []

-- `labelled` says whether the call has labels.
unfoldable pub track : MetricEvent → Bool → Option ℕ → List Change
unfolding to_string
track event true value = with_labels event value
track event false value = without_labels event

-- `track_metrics` of crates/ursa-metrics/src/middleware.rs, around a request that was answered.
unfoldable track_metrics : ℕ → List Change
unfolding track
track_metrics latency =
    track rpc_request_received false none ++ track rpc_response_sent true (some latency)
