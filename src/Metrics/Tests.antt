-- ===== src/Metrics/Tests.antt =====
-- A series that reads back, and one that does not.
use ursa.Prelude.{◌≡◌, refl}
use ursa.Metrics.{node_response_info, active_relay_circuits, unknown, to_string, from_str}

reads : from_str "node_response_info" ≡ node_response_info
unfolding from_str
reads = refl

reads_no_circuits : from_str (to_string active_relay_circuits) ≡ unknown "active_relay_circuits"
unfolding from_str to_string
reads_no_circuits = refl
