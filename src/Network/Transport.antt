-- ===== src/Network/Transport.antt =====
-- `UrsaTransport::new` of crates/ursa-network/src/transport.rs. The layers are named; what a layer does
-- belongs to libp2p.
use ursa.Prelude.{Option, none, some, Bool, true, false, Result, ok, ◌>>◌, ensure_or_panic}

pub data Base : Type 0 where
  tcp_dns : Base
  relay_client : Base
  or_transport : Base → Base → Base

pub data Authentication : Type 0 where
  noise_xx : Authentication

pub data Muxer : Type 0 where
  yamux_on_read : Muxer
  mplex_block : Muxer
  select : Muxer → Muxer → Muxer

pub record Transport : Type 0 where
  pub base : Base
  authenticate : Authentication
  multiplex : Muxer

abbrev upgraded : Base → Transport
upgraded base = record {
  base = base;
  authenticate = noise_xx;
  multiplex = select yamux_on_read mplex_block;
}

-- Whether the key of noise can be signed and whether the system has a DNS configuration come from outside.
unfoldable pub new_transport : {E : Type 0} → Bool → Bool → Option Base → Result E Transport
new_transport noise_signs dns_reads relay = do
  ensure_or_panic noise_signs
  ensure_or_panic dns_reads
  ok (upgraded (elim relay [ none ↦ tcp_dns | some r ↦ or_transport tcp_dns r ]))

-- The relay transport that `UrsaService::new` hands over.
abbrev pub relay_transport : Bool → Option Base
relay_transport true = some relay_client
relay_transport false = none
