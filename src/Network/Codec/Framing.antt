-- ===== src/Network/Codec/Framing.antt =====
-- Messages that are written and read back.
use ursa.Prelude.{
  ℕ, ◌≤◌, ◌<◌, ◌≡◌, refl, sym, ◌∙◌, [], some, true, length, ok, err, ◌>>=◌, >>=-eq-ok,
}
use ursa.Store.{Bytes}
use ursa.Network.Exchange.{UrsaExchangeRequest}
use ursa.Network.Codec.{
  too_large, Frames, Texts, max_request_size, not_empty, read_request, write_request,
}

-- A fresh stream takes a frame of any size; it is read back up to the size asked for, and refused above it;
-- closing keeps the bytes.
pub record AreFrames (f : Frames) : Type 0 where
  pub writes : (frame : Bytes) → (io : Bytes) × (f.write_length_prefixed [] frame ≡ ok io)
  pub framed :
      (frame io : Bytes) (size : ℕ)
      → f.write_length_prefixed [] frame ≡ ok io
      → length frame ≤ size
      → f.read_length_prefixed io size ≡ ok frame
  pub refused :
      (frame io : Bytes) (size : ℕ)
      → f.write_length_prefixed [] frame ≡ ok io
      → size < length frame
      → f.read_length_prefixed io size ≡ err too_large
  pub closed : (io : Bytes) → f.close io ≡ ok io

-- The text of the message reads back, and is not empty.
pub record IsText {M : Type 0} (t : Texts M) (m : M) : Type 0 where
  pub reads : t.from_vec (t.to_vec m) ≡ some m
  pub filled : not_empty (t.to_vec m) ≡ true

module _ (f : Frames) (frames : AreFrames f) where
  -- What is left on a stream by a write and a close.
  written :
      (frame io : Bytes)
      → (f.write_length_prefixed [] frame >>= λ w. f.close w) ≡ ok io
      → f.write_length_prefixed [] frame ≡ ok io
  written frame io h =
      let (w, e, c) = >>=-eq-ok (f.write_length_prefixed [] frame) _ h in
      e ∙ (sym (frames.closed w) ∙ c)

  -- A request of at most 4 MiB that was written is read back.
  pub read_request-write_request :
      (t : Texts UrsaExchangeRequest) (req : UrsaExchangeRequest) (io : Bytes)
      → IsText t req
      → length (t.to_vec req) ≤ max_request_size
      → write_request f t [] req ≡ ok io
      → read_request f t io ≡ ok req
  unfolding read_request write_request
  read_request-write_request t req io text small h =
      rw
        (
          frames.framed (t.to_vec req) io max_request_size (written (t.to_vec req) io h) small,
          text.filled,
          text.reads,
        )
        refl
