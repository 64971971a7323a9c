-- ===== src/Network/Exchange.antt =====
-- The messages of crates/ursa-network/src/codec/protocol.rs.
use Prim.Native.String.{String}
use ursa.Prelude.{ℕ, List}

pub data RequestType : Type 0 where
  car_request : String → RequestType

pub record UrsaExchangeRequest : Type 0 where
  pub request_type : RequestType

pub record CarResponse : Type 0 where
  pub cid : String
  pub bytes : List ℕ

pub data ResponseType : Type 0 where
  car_response : CarResponse → ResponseType

pub record UrsaExchangeResponse : Type 0 where
  pub response_type : ResponseType
