-- ===== src/Rpc/Server.antt =====
-- The server of a node (crates/ursa-rpc-server/src/server.rs, config.rs, the routes' `init` and
-- `RpcServer::new` of rpc/rpc.rs) and what crates/ursa-rpc-client/src/functions.rs sends to it. Axum,
-- JSON-RPC and JSON are parameters; a handler's state is left out here.
pub mod Reaching
pub mod Tests
use Prim.Native.String.{String}
use ursa.Prelude.{
  ℕ, List, [], ◌∷◌, Option, none, some, Bool, true, false, ◌==◌, if◌then◌else◌, Result, ok, err,
  panic, ◌>>=◌,
}
use ursa.Store.{Bytes}
use ursa.Rpc.Client.{
  JsonRpcError, JsonRpcResponse, result, error, ResponseObjects, one, Body, response, api_error,
  rpc_handler, CallError, Wire, call,
}
use ursa.Rpc.Functions.{
  Function, get_block, get_file, put_file, Params, Answer, network_get, network_get_file,
  network_put_file, methods,
}
use ursa.Rpc.Routes.{RpcError}
use ursa.Rpc.Multiplex.{
  Method, get, put, post, Request, Poll, ready, Infallible, Service, multiplex, codes,
}

pub record ServerConfig : Type 0 where
  pub port : ℕ
  pub addr : String

abbrev pub default_config : ServerConfig
default_config = record { port = 4069; addr = "0.0.0.0" }

pub record RequestObject (Value : Type 0) : Type 0 where
  pub method : String
  pub params : Value
  pub id : ℕ

pub data Endpoint : Type 0 where
  upload_endpoint get_endpoint rpc_endpoint : Endpoint

pub record Route : Type 0 where
  pub path : String
  pub method : Method
  pub endpoint : Endpoint

-- `init` of http/routes/network.rs.
pub http_routes : List Route
http_routes =
    record { path = "/"; method = post; endpoint = upload_endpoint }
    ∷ record { path = "/:cid"; method = get; endpoint = get_endpoint }
    ∷ []

-- `init` of rpc/routes/network.rs.
unfoldable pub rpc_routes : List Route
rpc_routes =
    record { path = "/rpc/v0"; method = put; endpoint = rpc_endpoint }
    ∷ record { path = "/rpc/v0"; method = post; endpoint = rpc_endpoint }
    ∷ []

-- What the libraries of the two sides do: JSON, the extraction of a body, the search for a route, and the
-- dispatch of JSON-RPC to the method that a table gives a name.
pub record Web : Type 1 where
  pub Value : Type 0
  pub Text : Type 0
  pub to_value : (f : Function) → Params f → Option Value
  pub value_of : (f : Function) → Answer f → Value
  pub error_object : RpcError → JsonRpcError
  pub from_json : RequestObject Value → Bool
  pub find : List Route → Method → String → Option Endpoint
  pub extract : Request (RequestObject Value) → Option (RequestObject Value)
  pub handle :
      ((f : Function) → Params f → Result RpcError (Answer f))
      → List (String × Function)
      → RequestObject Value
      → Result Infallible (ResponseObjects Value)
  pub to_text : Body Value → Text
  pub from_text : (f : Function) → Text → Option (JsonRpcResponse (Answer f))
  pub rejected : ℕ × Text
  pub not_found : ℕ × Text

module _ (w : Web) where
  open w use {Value, Text}

  abbrev pub HttpRequest : Type 0
  HttpRequest = Request (RequestObject Value)

  abbrev pub HttpResponse : Type 0
  HttpResponse = ℕ × Text

  -- A request that `call` of the client sends, and where.
  pub record Sent : Type 0 where
    pub addr : String
    pub port : ℕ
    pub request : HttpRequest

  unfoldable pub rpc_request : String → Value → Method → Sent
  rpc_request method_name value verb = record {
    addr = default_config.addr;
    port = default_config.port;
    request = record {
      method = verb;
      path = "/rpc/v0";
      content_type = some (codes "application/json");
      body = record { method = method_name; params = value; id = 1 };
    };
  }

  -- `get_block`, `get_file` and `put_file`.
  unfoldable pub function_request : (f : Function) → Value → Sent
  unfolding rpc_request
  function_request get_block params = rpc_request network_get params post
  function_request get_file params = rpc_request network_get_file params put
  function_request put_file params = rpc_request network_put_file params put

  -- The server of a node: what its RPC methods and its HTTP endpoints answer.
  pub record Server : Type 0 where
    pub rpc_server : List (String × Function)
    pub method : (f : Function) → Params f → Result RpcError (Answer f)
    pub http : Endpoint → HttpRequest → Result Infallible HttpResponse

  unfoldable pub new_server :
      ((f : Function) → Params f → Result RpcError (Answer f))
      → (Endpoint → HttpRequest → Result Infallible HttpResponse)
      → Server
  unfolding methods
  new_server method http = record { rpc_server = methods; method = method; http = http }

  unfoldable pub answer_rpc : Server → Option (RequestObject Value) → Result Infallible HttpResponse
  answer_rpc s none = ok w.rejected
  answer_rpc s (some req) = do
    objects ← w.handle s.method s.rpc_server req
    (code, body) ← rpc_handler objects
    ok (code, w.to_text body)

  abbrev pub serve : Server → HttpRequest → Option Endpoint → Result Infallible HttpResponse
  serve s req none = ok w.not_found
  serve s req (some rpc_endpoint) = answer_rpc s (w.extract req)
  serve s req (some upload_endpoint) = s.http upload_endpoint req
  serve s req (some get_endpoint) = s.http get_endpoint req

  -- A router of axum is always ready.
  abbrev pub router : Server → List Route → Service Infallible HttpRequest HttpResponse
  router s routes = record {
    State = Unit {0};
    poll_ready = λ st. (st, ready);
    call = λ st req. (st, serve s req (w.find routes req.method req.path));
  }

  pub record Listening : Type 1 where
    pub ip : String
    pub port : ℕ
    pub service : Service Infallible HttpRequest HttpResponse
    pub initial : service.State

  -- `start`: the configured port on every interface. The configured address is not read.
  unfoldable pub start : Server → ServerConfig → Listening
  unfolding http_routes rpc_routes
  start s config = record {
    ip = "0.0.0.0";
    port = config.port;
    service = multiplex (router s http_routes) (router s rpc_routes) (λ r. r) (λ r. r);
    initial = (tt, tt);
  }

  -- What the client gets: nothing where no server has the port, or where the handler panics.
  abbrev pub answered : Result Infallible HttpResponse → Option HttpResponse
  answered (ok r) = some r
  answered (err e) = elim e [ ]
  answered panic = none

  unfoldable pub send : Listening → Sent → Option HttpResponse
  send l sent =
      if l.port == sent.port then answered (l.service.call l.initial sent.request).1 else none

  abbrev pub value_response : {A : Type 0} → (A → Value) → JsonRpcResponse A → JsonRpcResponse Value
  value_response encode (result a) = result (encode a)
  value_response encode (error e) = error e

  abbrev value_body : {A : Type 0} → (A → Value) → Body A → Body Value
  value_body encode (response r) = response (value_response encode r)
  value_body encode (api_error e) = api_error e

  -- The client's libraries, for a request with these parameters.
  abbrev pub wire : (f : Function) → Option Value → Wire (Answer f)
  wire f params = record {
    Text = Text;
    to_text = λ body. w.to_text (value_body (w.value_of f) body);
    from_text = w.from_text f;
    params_serialize = elim params [ none ↦ false | some v ↦ true ];
    request_serializes = elim params [
      | none ↦ false
      | some v ↦ w.from_json (function_request f v).request.body
    ];
  }

  -- A function of the client, against a server.
  unfoldable pub call_function : Listening → (f : Function) → Params f → Result CallError (Answer f)
  unfolding call function_request send
  call_function l f p =
      let params = w.to_value f p in
      call (wire f params) (elim params [ none ↦ none | some v ↦ send l (function_request f v) ])
