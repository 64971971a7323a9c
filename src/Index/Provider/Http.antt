-- ===== src/Index/Provider/Http.antt =====
-- The HTTP server of the provider: `start`, the handlers' answers and `ProviderError::into_response` of
-- crates/ursa-index-provider/src/provider.rs. A handler that panics gives no answer.
use Prim.Native.String.{String}
use ursa.Prelude.{
  ℕ, ◌==◌, Option, none, some, if◌then◌else◌, Result, ok, err, panic, ◌>>=◌, some_or_panic,
}
use ursa.Store.{Cid, Bytes}
use ursa.Index.Provider.{ObjectStore, Provider, ProviderError, ad_not_found, get_block}
use ursa.Index.SignedHead.{SignedHead, HeadError, no_head_found, signing_failed, Keys, head_handler}

pub data Response (A : Type 0) : Type 0 where
  body : ℕ → A → Response A
  message : ℕ → Response A

-- `into_response`: what is not there is 404, all else 500.
abbrev status_of : ProviderError → ℕ
status_of ad_not_found = 404
status_of _ = 500

abbrev head_status : HeadError → ℕ
head_status no_head_found = 404
head_status signing_failed = 500

abbrev pub block_response : Result ProviderError Bytes → Option (Response Bytes)
block_response (ok b) = some (body 200 b)
block_response (err e) = some (message (status_of e))
block_response panic = none

abbrev pub head_response : Result HeadError SignedHead → Option (Response SignedHead)
head_response (ok h) = some (body 200 h)
head_response (err e) = some (message (head_status e))
head_response panic = none

-- What a client takes from an answer.
abbrev pub accepted : {A : Type 0} → Option (Response A) → Option A
accepted none = none
accepted (some (message status)) = none
accepted (some (body status a)) = if status == 200 then some a else none

module _ (o : ObjectStore) (k : Keys) (parse : String → Option Cid) where
  pub data Route : Type 0 where
    head : Route
    block : String → Route

  pub data Answer : Type 0 where
    of_head : Option (Response SignedHead) → Answer
    of_block : Option (Response Bytes) → Answer

  -- The two routes, /head and /:cid.
  unfoldable pub serve : Provider o.Db → Route → Answer
  unfolding get_block head_handler
  serve p head = of_head (head_response (head_handler k p))
  serve p (block cid) = of_block (block_response (get_block o p (parse cid)))

  -- The server listens at the configured address and port; its end, be it an error, is `Ok`.
  unfoldable start :
      {E : Type 0}
      → (String → ℕ → Option ℕ)
      → String
      → ℕ
      → Provider o.Db
      → Result E (ℕ × (Route → Answer))
  unfolding serve
  start address local_address port p = do
    app_address ← some_or_panic (address local_address port)
    ok (app_address, serve p)
