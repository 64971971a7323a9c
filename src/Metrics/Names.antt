-- ===== src/Metrics/Names.antt =====
-- The names of the series, written and read back.
use ursa.Prelude.{◌≡◌, refl, Bool, true, false}
use ursa.Metrics.{
  Metric, active_connected_peers, active_relay_reservations, active_relay_circuits,
  http_rpc_requests, node_bitswap_operations, node_gossip_messages, node_request_messages,
  node_response_info, unknown, to_string, from_str,
}

-- The series that have a name of their own.
abbrev is_known : Metric → Bool
is_known (unknown s) = false
is_known _ = true

abbrev read_back : Metric → Metric
read_back active_relay_reservations = unknown "active_relay_reservations"
read_back active_relay_circuits = unknown "active_relay_circuits"
read_back m = m

-- The name of each known series reads back as the series, but for the two of relays, which read back as
-- unknown.
from_str-to_string : (m : Metric) → is_known m ≡ true → from_str (to_string m) ≡ read_back m
unfolding from_str to_string
from_str-to_string active_connected_peers h = refl
from_str-to_string active_relay_reservations h = refl
from_str-to_string active_relay_circuits h = refl
from_str-to_string http_rpc_requests h = refl
from_str-to_string node_bitswap_operations h = refl
from_str-to_string node_gossip_messages h = refl
from_str-to_string node_request_messages h = refl
from_str-to_string node_response_info h = refl
from_str-to_string (unknown s) h = cc
