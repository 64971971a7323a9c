-- ===== src/Network/Codec/Tests.antt =====
-- Frames with their length in front, a request of four bytes, and the theorems at these.
use ursa.Prelude.{
  ℕ, ◌≡◌, refl, [], ◌∷◌, ◌++◌, some, length, take, leb, Result, ok, err, if◌then◌else◌,
}
use ursa.Store.{Bytes}
use ursa.Network.Exchange.{UrsaExchangeRequest, UrsaExchangeResponse, car_request, car_response}
use ursa.Network.Codec.{
  IoError, unexpected_eof, too_large, Frames, Texts, write_request, write_response,
}

abbrev read : Bytes → ℕ → Result IoError Bytes
read [] size = err unexpected_eof
read (n ∷ rest) size = if leb n size then ok (take n rest) else err too_large

abbrev frames : Frames
frames = record {
  read_length_prefixed = read;
  write_length_prefixed = λ io frame. ok (io ++ length frame ∷ frame);
  close = λ io. ok io;
}

abbrev asked : UrsaExchangeRequest
asked = record { request_type = car_request "Qm" }

abbrev request_texts : Texts UrsaExchangeRequest
request_texts = record { to_vec = λ m. 1 ∷ 2 ∷ 3 ∷ 4 ∷ []; from_vec = λ b. some asked }

sent : write_request frames request_texts [] asked ≡ ok (4 ∷ 1 ∷ 2 ∷ 3 ∷ 4 ∷ [])
unfolding write_request
sent = refl

abbrev answered : UrsaExchangeResponse
answered = record { response_type = car_response (record { cid = "Qm"; bytes = 7 ∷ [] }) }

abbrev response_texts : Texts UrsaExchangeResponse
response_texts = record { to_vec = λ m. 5 ∷ 6 ∷ []; from_vec = λ b. some answered }

replied : write_response frames response_texts [] answered ≡ ok (2 ∷ 5 ∷ 6 ∷ [])
unfolding write_response
replied = refl
