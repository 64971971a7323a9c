-- ===== src/Gateway.antt =====
-- The gateway (crates/ursa-gateway): a TLS proxy in front of a server of its own. Uris, addresses,
-- certificates and the match of a request against a route are parameters.
mod Tests
use Prim.Native.String.{String}
use text.Mathlib.Text.{◌==◌ as str_eq}
use ursa.Prelude.{
  ℕ, Option, none, some, Bool, true, false, ◌==◌, ◌&&◌, if◌then◌else◌, Result, ok, panic, ◌>>=◌,
  ◌>>◌, some_or_panic, ensure_or_panic,
}
use ursa.Rpc.Multiplex.{Method, get}

pub record ServerConfig : Type 0 where
  pub port : ℕ
  pub addr : String

pub record CertConfig : Type 0 where
  pub cert_path : String
  pub key_path : String

pub record GatewayConfig : Type 0 where
  pub server : ServerConfig
  pub reverse_proxy : ServerConfig
  pub cert_config : CertConfig

abbrev pub default_gateway : GatewayConfig
default_gateway = record {
  server = record { addr = "0.0.0.0"; port = 3000 };
  reverse_proxy = record { addr = "0.0.0.0"; port = 4000 };
  cert_config = record {
    cert_path = "./crates/ursa-gateway/self_signed_certs/cert.pem";
    key_path = "./crates/ursa-gateway/self_signed_certs/key.pem";
  };
}

pub record PathAndQuery : Type 0 where
  pub path : String
  pub query : Option String

pub record Uri : Type 0 where
  pub authority : Option (String × ℕ)
  pub path_and_query : Option PathAndQuery

-- The rest of a request, its headers and its body, is kept as it is.
pub record Request (B : Type 0) : Type 0 where
  pub method : Method
  pub uri : Uri
  pub rest : B

pub data Response : Type 0 where
  text_body : String → Response
  empty_body : ℕ → Response

pub data Match : Type 0 where
  hit wrong_method no_route : Match

-- `format` and `parse` are the text of an HTTP Uri and its reading; `matches` is the router's answer for one
-- route.
pub record Libraries : Type 1 where
  pub Text : Type 0
  pub format : String → ℕ → PathAndQuery → Text
  pub parse : Text → Option Uri
  pub parse_ip : String → Option ℕ
  pub reads_pem : String → String → Bool
  pub matches : Method → String → Method → String → Match

-- `uri.path()`, and the path and the query where the Uri has them.
abbrev pub path_of : Option PathAndQuery → String
path_of none = ""
path_of (some pq) = pq.path

abbrev pub path_query : Option PathAndQuery → PathAndQuery
path_query none = record { path = ""; query = none }
path_query (some pq) = pq

abbrev pub routed : {E : Type 0} → Match → Result E Response → Result E Response
routed hit answer = answer
routed wrong_method answer = ok (empty_body 405)
routed no_route answer = ok (empty_body 404)

module _ (l : Libraries) {B : Type 0} where
  -- The application of `server`.
  unfoldable pub server : {E : Type 0} → Request B → Result E Response
  server req =
      routed (l.matches get "/" req.method (path_of req.uri.path_and_query))
        (ok (text_body "Hello, world!"))

  -- The Uri is made anew for the server of the configuration; a failure of the client is unwrapped.
  unfoldable pub handler :
      {E : Type 0}
      → (Request B → Option (Result E Response))
      → GatewayConfig
      → Request B
      → Result E Response
  handler client config req = do
    uri ← some_or_panic (
        l.parse
          (l.format config.server.addr config.server.port (path_query req.uri.path_and_query)))
    answer ← some_or_panic (client (record req { uri = uri }))
    answer

  -- The application of `main`.
  unfoldable pub proxy :
      {E : Type 0}
      → (Request B → Option (Result E Response))
      → GatewayConfig
      → Request B
      → Result E Response
  unfolding handler
  proxy client config req =
      routed (l.matches get "/" req.method (path_of req.uri.path_and_query))
        (handler client config req)

-- The addresses at which the gateway listens: `server`, and `main` after it has read its certificates.
unfoldable pub main : {E : Type 0} → Libraries → GatewayConfig → Result E ((ℕ × ℕ) × (ℕ × ℕ))
main l config = do
  ensure_or_panic (l.reads_pem config.cert_config.cert_path config.cert_config.key_path)
  proxy_ip ← some_or_panic (l.parse_ip config.reverse_proxy.addr)
  server_ip ← some_or_panic (l.parse_ip config.server.addr)
  ok ((server_ip, config.server.port), (proxy_ip, config.reverse_proxy.port))
