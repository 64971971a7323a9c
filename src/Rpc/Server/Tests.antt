-- ===== src/Rpc/Server/Tests.antt =====
-- The libraries of the wire as functions on trees, and a function of the client through a server.
use Prim.Native.String.{String}
use ursa.Prelude.{
  ◌≡◌, refl, sym, List, [], ◌∷◌, Option, none, some, true, Result, ok, err, panic, subst,
  if◌then◌else◌,
}
use ursa.Store.{Bytes}
use ursa.Rpc.Api.{channel_closed}
use ursa.Rpc.Client.{
  JsonRpcError, pos, negsuc, JsonRpcResponse, result, error, ResponseObjects, one, Body, response,
  api_error, CallError, status_error,
}
use ursa.Rpc.Routes.{RpcError, internal, invalid_params}
use ursa.Rpc.Multiplex.{Request, Infallible, starts_with, json_type}
use ursa.Rpc.Server.{
  ServerConfig, RequestObject, Endpoint, Web, HttpRequest, HttpResponse, new_server, start,
  value_response, call_function,
}
use ursa.Rpc.Functions.{Function, get_block, get_file, put_file, NetworkGetParams, Params, Answer}
use ursa.Rpc.Server.Reaching.{exact, find_method, responded, IsWeb, call_function-start}

pub data Value : Type 0 where
  cid_value : String → Value
  file_value : String → String → Value
  path_value : String → Value
  bytes_value : Bytes → Value
  null : Value
  text_value : String → Value

abbrev pub to_value : (f : Function) → Params f → Value
to_value get_block p = cid_value p.cid
to_value get_file p = file_value p.path p.cid
to_value put_file p = path_value p.path

abbrev pub of_value : (f : Function) → Value → Option (Params f)
of_value get_block (cid_value c) = some (record { cid = c })
of_value get_file (file_value p c) = some (record { path = p; cid = c })
of_value put_file (path_value p) = some (record { path = p })
of_value _ v = none

abbrev pub value_of : (f : Function) → Answer f → Value
value_of get_block bytes = bytes_value bytes
value_of get_file done = null
value_of put_file s = text_value s

abbrev pub answer_of : (f : Function) → Value → Option (Answer f)
answer_of get_block (bytes_value b) = some b
answer_of get_file null = some tt
answer_of put_file (text_value s) = some s
answer_of _ v = none

abbrev pub error_object : RpcError → JsonRpcError
error_object (internal e) = record { code = negsuc 32602; message = "Internal error" }
error_object invalid_params = record { code = negsuc 32601; message = "Invalid params" }

abbrev pub respond :
    (f : Function) → Result RpcError (Answer f) → Result Infallible (ResponseObjects Value)
respond f (ok a) = ok (one (result (value_of f a)))
respond f (err e) = ok (one (error (error_object e)))
respond f panic = panic

abbrev pub apply :
    (h : (f : Function) → Params f → Result RpcError (Answer f)) (f : Function)
    → Option (Params f)
    → Result Infallible (ResponseObjects Value)
apply h f none = ok (one (error (error_object invalid_params)))
apply h f (some p) = respond f (h f p)

abbrev pub chosen :
    ((f : Function) → Params f → Result RpcError (Answer f))
    → Value
    → Option Function
    → Result Infallible (ResponseObjects Value)
chosen h v none = ok (one (error (record { code = negsuc 32600; message = "Method not found" })))
chosen h v (some f) = apply h f (of_value f v)

abbrev pub read_response : (f : Function) → Body Value → Option (JsonRpcResponse (Answer f))
read_response f (response (error e)) = some (error e)
read_response f (response (result v)) = elim (answer_of f v) [
  | none ↦ none
  | some a ↦ some (result a)
]
read_response f (api_error e) = none

abbrev pub json_body : Request (RequestObject Value) → Option Bytes → Option (RequestObject Value)
json_body req none = none
json_body req (some t) = if starts_with json_type t then some req.body else none

abbrev pub trees : Web
trees = record {
  Value = Value;
  Text = Body Value;
  to_value = λ f p. some (to_value f p);
  value_of = value_of;
  error_object = error_object;
  from_json = λ req. true;
  find = exact;
  extract = λ req. json_body req req.content_type;
  handle = λ h table req. chosen h req.params (find_method req.method table);
  to_text = λ body. body;
  from_text = read_response;
  rejected = (415, api_error (record { code = pos 415; message = "Unsupported Media Type" }));
  not_found = (404, api_error (record { code = pos 404; message = "Not Found" }));
}

of_value-to_value : (f : Function) (p : Params f) → of_value f (to_value f p) ≡ some p
of_value-to_value get_block p = refl
of_value-to_value get_file p = refl
of_value-to_value put_file p = refl

respond-responded :
    (f : Function) (r : Result RpcError (Answer f)) → respond f r ≡ responded trees f r
respond-responded f (ok a) = refl
respond-responded f (err e) = refl
respond-responded f panic = refl

handled :
    (h : (f : Function) → Params f → Result RpcError (Answer f)) (table : List (String × Function))
    (f : Function) (p : Params f) (req : RequestObject Value)
    → find_method req.method table ≡ some f
    → some (to_value f p) ≡ some req.params
    → chosen h req.params (find_method req.method table) ≡ responded trees f (h f p)
handled h table f p req named params =
    let same : to_value f p ≡ req.params = cc in
    rw named (
      subst (λ v. apply h f (of_value f v) ≡ responded trees f (h f p)) same
        (rw (of_value-to_value f p) (respond-responded f (h f p))))

read_back :
    (f : Function) (r : JsonRpcResponse (Answer f))
    → read_response f (response (value_response trees (value_of f) r)) ≡ some r
read_back get_block (result a) = refl
read_back get_file (result a) = refl
read_back put_file (result a) = refl
read_back f (error e) = refl

extracted :
    (req : HttpRequest trees)
    → req.content_type ≡ some json_type
    → json_body req req.content_type ≡ some req.body
unfolding starts_with
extracted req h = subst (λ t. json_body req t ≡ some req.body) (sym h) refl

pub trees-IsWeb : IsWeb trees
trees-IsWeb = record {
  serialises = λ f p. (to_value f p, refl);
  sends = λ req. refl;
  finds = λ routes method path e found. found;
  extracts = extracted;
  handles = handled;
  reads = read_back;
}

-- A node that has one block, and whose service is gone.
abbrev pub node : (f : Function) → Params f → Result RpcError (Answer f)
node get_block p = ok (7 ∷ 8 ∷ [])
node get_file p = err (internal channel_closed)
node put_file p = panic

abbrev pub no_http : Endpoint → HttpRequest trees → Result Infallible (HttpResponse trees)
no_http e req = ok (200, response (result null))

abbrev ask : ServerConfig → (f : Function) → Params f → Result CallError (Answer f)
ask config f p = call_function trees (start trees (new_server trees node no_http) config) f p

abbrev block_one : NetworkGetParams
block_one = record { cid = "one" }

abbrev usual : ServerConfig
usual = record { port = 4069; addr = "127.0.0.1" }

call_function-start_example : ask usual get_block block_one ≡ ok (7 ∷ 8 ∷ [])
call_function-start_example =
    call_function-start trees trees-IsWeb node no_http usual get_block block_one

failed_file : ask usual get_file (record { path = "p"; cid = "one" }) ≡ err (status_error 500)
failed_file =
    call_function-start trees trees-IsWeb node no_http usual get_file
      (record { path = "p"; cid = "one" })

other_port : ask (record { port = 4070; addr = "0.0.0.0" }) get_block block_one ≡ panic
other_port =
    call_function-start trees trees-IsWeb node no_http (record { port = 4070; addr = "0.0.0.0" })
      get_block block_one
