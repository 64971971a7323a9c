-- ===== src/Gateway/Tests.antt =====
-- Uris as trees, a router of one route, and the proxy at a request.
use text.Mathlib.Text.{◌==◌ as str_eq}
use Prim.Native.String.{String}
use ursa.Prelude.{
  Option, Bool, false, ◌&&◌, ◌==◌, ℕ, ◌≡◌, refl, none, some, true, if◌then◌else◌, Result, ok,
}
use ursa.Rpc.Multiplex.{Method, get}
use ursa.Gateway.{
  default_gateway, Uri, Request, Response, text_body, Match, hit, wrong_method, no_route, Libraries,
  server, proxy, handler, main, PathAndQuery,
}

abbrev same_verb : Method → Match
same_verb get = hit
same_verb _ = wrong_method

abbrev trees : Libraries
trees = record {
  Text = Uri;
  format = λ addr port pq. record { authority = some (addr, port); path_and_query = some pq };
  parse = λ uri. some uri;
  parse_ip = λ text. some 0;
  reads_pem = λ cert key. true;
  matches = λ verb route method path. if str_eq route path then same_verb method else no_route;
}

abbrev asked : Request ℕ
asked = record {
  method = get;
  uri = record {
    authority = none;
    path_and_query = some (record { path = "/"; query = some "q=1" });
  };
  rest = 7;
}

abbrev Answer : Type 0
Answer = Result (Unit {0}) Response

abbrev same_query : Option String → Bool
same_query none = false
same_query (some q) = str_eq q "q=1"

abbrev same_uri : Option (String × ℕ) → Option PathAndQuery → Bool
same_uri (some (addr, port)) (some pq) = port == 3000 && same_query pq.query
same_uri _ _ = false

-- A client that reaches the server behind the gateway, if it is asked for its address and for the query.
abbrev client : Request ℕ → Option Answer
client req =
    if same_uri req.uri.authority req.uri.path_and_query then some (server trees req) else none

greeted :
    ◌≡◌ {A = Answer} (proxy trees client default_gateway asked) (ok (text_body "Hello, world!"))
unfolding proxy server handler
greeted = refl

listening :
    ◌≡◌ {A = Result (Unit {0}) ((ℕ × ℕ) × (ℕ × ℕ))}
      (main trees default_gateway)
      (ok ((0, 3000), (0, 4000)))
unfolding main
listening = refl
