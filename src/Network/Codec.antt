-- ===== src/Network/Codec.antt =====
-- `UrsaExchangeCodec` of crates/ursa-network/src/codec/protocol.rs. The length-prefixed frames of libp2p and
-- the JSON texts of serde are parameters; a stream is the bytes on it.
pub mod Framing
mod Tests
use ursa.Prelude.{
  ℕ, List, [], ◌∷◌, ◌*◌, Option, none, some, Bool, true, false, Result, ok, err, ◌>>=◌, ◌>>◌,
  ensure, some_or_panic,
}
use ursa.Store.{Bytes}
use ursa.Network.Exchange.{UrsaExchangeRequest, UrsaExchangeResponse}

pub data IoError : Type 0 where
  unexpected_eof too_large write_failed : IoError

-- The frames: reading one up to a size, writing one, and closing the stream.
pub record Frames : Type 0 where
  pub read_length_prefixed : Bytes → ℕ → Result IoError Bytes
  pub write_length_prefixed : Bytes → Bytes → Result IoError Bytes
  pub close : Bytes → Result IoError Bytes

-- The JSON of a message type.
pub record Texts (M : Type 0) : Type 0 where
  pub to_vec : M → Bytes
  pub from_vec : Bytes → Option M

abbrev pub max_request_size : ℕ
max_request_size = 4 * 1024 * 1024

abbrev pub max_response_size : ℕ
max_response_size = 10 * 1024 * 1024

abbrev pub not_empty : Bytes → Bool
not_empty [] = false
not_empty (_ ∷ _) = true

-- A text that is no message is unwrapped.
abbrev parsed : {M : Type 0} → Texts M → Bytes → Result IoError M
parsed t vec = do ensure (not_empty vec) unexpected_eof; some_or_panic (t.from_vec vec)

module _ (f : Frames) where
  pub read_request : Texts UrsaExchangeRequest → Bytes → Result IoError UrsaExchangeRequest
  read_request t io = do vec ← f.read_length_prefixed io max_request_size; parsed t vec

  pub read_response : Texts UrsaExchangeResponse → Bytes → Result IoError UrsaExchangeResponse
  read_response t io = do vec ← f.read_length_prefixed io max_response_size; parsed t vec

  pub write_request : Texts UrsaExchangeRequest → Bytes → UrsaExchangeRequest → Result IoError Bytes
  write_request t io req = do written ← f.write_length_prefixed io (t.to_vec req); f.close written

  pub write_response :
      Texts UrsaExchangeResponse → Bytes → UrsaExchangeResponse → Result IoError Bytes
  write_response t io res = do written ← f.write_length_prefixed io (t.to_vec res); f.close written
