-- ===== src/Rpc/Server/Reaching.antt =====
-- What becomes of a function of the client: request, multiplexer, router, method table and back.
use Prim.Native.String.{String}
use text.Mathlib.Text.{◌==◌ as str_eq}
use ursa.Prelude.{
  ◌≡◌, refl, ap, List, [], ◌∷◌, Option, none, some, Bool, true, false, ◌==◌, ◌&&◌, if◌then◌else◌,
  Result, ok, err, panic, ◌>>=◌,
}
use ursa.Rpc.Client.{
  JsonRpcResponse, result, error, ResponseObjects, one, response, rpc_handler, CallError,
  status_error, outcome, call,
}
use ursa.Rpc.Routes.{RpcError}
use ursa.Rpc.Multiplex.{
  Method, get, put, post, other_method, Infallible, json_type, is_rpc_request, starts_with,
  call_one,
}
use ursa.Rpc.Server.{
  ServerConfig, default_config, RequestObject, Endpoint, rpc_endpoint, Route, rpc_routes, Web,
  HttpRequest, HttpResponse, new_server, answer_rpc, start, send, value_response, function_request,
  rpc_request, call_function, answered, wire,
}
use ursa.Rpc.Functions.{Function, get_block, get_file, put_file, Params, Answer, methods}

abbrev same_method : Method → Method → Bool
same_method get get = true
same_method put put = true
same_method post post = true
same_method other_method other_method = true
same_method _ _ = false

-- The route whose path is the path of the request itself.
abbrev pub exact : List Route → Method → String → Option Endpoint
exact [] method path = none
exact (r ∷ rs) method path =
    if same_method r.method method && str_eq r.path path
    then some r.endpoint
    else exact rs method path

abbrev pub find_method : String → List (String × Function) → Option Function
find_method name [] = none
find_method name ((n, f) ∷ table) = if str_eq n name then some f else find_method name table

module _ (w : Web) where
  abbrev pub responded :
      (f : Function) → Result RpcError (Answer f) → Result Infallible (ResponseObjects w.Value)
  responded f (ok a) = ok (one (result (w.value_of f a)))
  responded f (err e) = ok (one (error (w.error_object e)))
  responded f panic = panic

  -- Parameters and requests serialise; a route is found by its own path; a JSON body is extracted; a
  -- method of the table is called with the parameters; a response object reads back.
  pub record IsWeb : Type 0 where
    pub serialises : (f : Function) (p : Params f) → (v : w.Value) × (w.to_value f p ≡ some v)
    pub sends : (req : RequestObject w.Value) → w.from_json req ≡ true
    pub finds :
        (routes : List Route) (method : Method) (path : String) (e : Endpoint)
        → exact routes method path ≡ some e
        → w.find routes method path ≡ some e
    pub extracts :
        (req : HttpRequest w) → req.content_type ≡ some json_type → w.extract req ≡ some req.body
    pub handles :
        (h : (f : Function) → Params f → Result RpcError (Answer f))
        (table : List (String × Function)) (f : Function) (p : Params f)
        (req : RequestObject w.Value)
        → find_method req.method table ≡ some f
        → w.to_value f p ≡ some req.params
        → w.handle h table req ≡ responded f (h f p)
    pub reads :
        (f : Function) (r : JsonRpcResponse (Answer f))
        → w.from_text f (w.to_text (response (value_response w (w.value_of f) r))) ≡ some r

-- What the caller learns of the method's result.
abbrev pub known : {A : Type 0} → Result RpcError A → Result CallError A
known (ok a) = ok a
known (err e) = err (status_error 500)
known panic = panic

module _ (w : Web) (web : IsWeb w) (method : (f : Function) → Params f → Result RpcError (Answer f))
    (http : Endpoint → HttpRequest w → Result Infallible (HttpResponse w)) where
  replied : (f : Function) → Result RpcError (Answer f) → Result Infallible (HttpResponse w)
  replied f r = do
    objects ← responded w f r
    (code, body) ← rpc_handler objects
    ok (code, w.to_text body)

  answers :
      (f : Function) (p : Params f) (req : RequestObject w.Value)
      → find_method req.method methods ≡ some f
      → w.to_value f p ≡ some req.params
      → answer_rpc w (new_server w method http) (some req) ≡ replied f (method f p)
  unfolding answer_rpc new_server replied
  answers f p req known_method params =
      rw (web.handles method methods f p req known_method params) refl

  -- The request of a function reaches its method.
  reaches :
      (f : Function) (p : Params f) (v : w.Value) (config : ServerConfig)
      → w.to_value f p ≡ some v
      → let l = start w (new_server w method http) config in
        (l.service.call l.initial (function_request w f v).request).1
        ≡ (replied f (method f p) >>= λ r. ok r)
  unfolding start function_request rpc_request call_one is_rpc_request starts_with methods
      rpc_routes
  reaches get_block p v config e =
      rw
        (
          web.finds rpc_routes post "/rpc/v0" rpc_endpoint refl,
          web.extracts (function_request w get_block v).request refl,
        )
        (ap (λ r. r >>= λ x. ok x) (answers get_block p _ refl e))
  reaches get_file p v config e =
      rw
        (
          web.finds rpc_routes put "/rpc/v0" rpc_endpoint refl,
          web.extracts (function_request w get_file v).request refl,
        )
        (ap (λ r. r >>= λ x. ok x) (answers get_file p _ refl e))
  reaches put_file p v config e =
      rw
        (
          web.finds rpc_routes put "/rpc/v0" rpc_endpoint refl,
          web.extracts (function_request w put_file v).request refl,
        )
        (ap (λ r. r >>= λ x. ok x) (answers put_file p _ refl e))

  -- What the client makes of the reply.
  learns :
      (f : Function) (r : Result RpcError (Answer f)) (v : w.Value)
      → call (wire w f (some v)) (answered w (replied f r >>= λ x. ok x)) ≡ known r
  unfolding call replied rpc_handler
  learns f (ok a) v =
      rw (web.sends (function_request w f v).request.body) (ap outcome (web.reads f (result a)))
  learns f (err e) v = rw (web.sends (function_request w f v).request.body) refl
  learns f panic v = rw (web.sends (function_request w f v).request.body) refl

  function_request_port :
      (f : Function) (v : w.Value) → (function_request w f v).port ≡ default_config.port
  unfolding function_request rpc_request
  function_request_port get_block v = refl
  function_request_port get_file v = refl
  function_request_port put_file v = refl

  -- Whether the server has the port to which the client sends.
  chosen :
      (f : Function) (r : Result RpcError (Answer f)) (v : w.Value) (same : Bool)
      → call (wire w f (some v)) (if same then answered w (replied f r >>= λ x. ok x) else none)
        ≡ (if same then known r else panic)
  unfolding call
  chosen f r v true = learns f r v
  chosen f r v false = rw (web.sends (function_request w f v).request.body) refl

  -- A function of the client gives what the method of that name gives, with any error of the method reduced
  -- to the status 500, if the server of the node has the default port; on any other port the client panics.
  pub call_function-start :
      (config : ServerConfig) (f : Function) (p : Params f)
      → call_function w (start w (new_server w method http) config) f p
        ≡ (if config.port == default_config.port then known (method f p) else panic)
  unfolding call_function send start
  call_function-start config f p =
      let (v, e) = web.serialises f p in
      rw (e, function_request_port f v, reaches f p v config e)
        (chosen f (method f p) v (config.port == default_config.port))
