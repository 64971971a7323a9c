-- ===== src/Rpc/Client/Calls.antt =====
-- What a client learns of a method of the server.
use ursa.Prelude.{
  ◌≡◌, refl, ap, ◌∙◌, Bool, false, if◌then◌else◌, some, true, Result, ok, err, ◌>>=◌,
}
use ursa.Rpc.Client.{
  JsonRpcResponse, result, error, one, response, rpc_handler, CallError, status_error, Wire,
  outcome, call,
}

-- A response object reads back, and the client's own serialisation works.
pub record IsWire {R : Type 0} (w : Wire R) : Type 0 where
  pub reads : (r : JsonRpcResponse R) → w.from_text (w.to_text (response r)) ≡ some r
  pub params : w.params_serialize ≡ true
  pub request : w.request_serializes ≡ true

-- What the client should learn.
abbrev pub learnt : {R : Type 0} → JsonRpcResponse R → Result CallError R
learnt (result r) = ok r
learnt (error e) = err (status_error 500)

-- A request that serialises is sent.
sent :
    {A : Type 0} (p q : Bool) (x y z : A)
    → p ≡ true
    → q ≡ true
    → (if p then (if q then x else y) else z) ≡ x
sent true true x y z p q = refl
sent true false x y z p q = cc
sent false q x y z p r = cc

-- A call of the client through the handler of the server ends with the value of the method, or, for any
-- error of the method, with the bare status 500: neither the code nor the message of the error arrive.
pub call-rpc_handler :
    {R : Type 0} (w : Wire R) (answer : JsonRpcResponse R)
    → IsWire w
    → (rpc_handler (one answer) >>= λ http. call w (some (http.0, w.to_text http.1)))
      ≡ learnt answer
unfolding rpc_handler call
call-rpc_handler w (result r) wire =
    sent w.params_serialize w.request_serializes _ _ _ wire.params wire.request
    ∙ ap outcome (wire.reads (result r))
call-rpc_handler w (error e) wire =
    sent w.params_serialize w.request_serializes _ _ _ wire.params wire.request
