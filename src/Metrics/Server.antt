-- ===== src/Metrics/Server.antt =====
-- crates/ursa-metrics/src/metrics.rs: the server of the metrics. The port's text, the acceptance of a second
-- route by the router, the bind of the address and the text of the exporter are parameters.
use Prim.Native.String.{String}
use text.Mathlib.Text.{◌==◌ as str_eq}
use ursa.Prelude.{
  ℕ, ◌≡◌, refl, Option, none, some, Bool, true, if◌then◌else◌, Result, ok, ◌>>=◌, ◌>>◌,
  some_or_panic, ensure, ensure_or_panic,
}

pub record MetricsServiceConfig : Type 0 where
  pub port : String
  pub api_path : String

abbrev pub default_metrics : MetricsServiceConfig
default_metrics = record { port = "4070"; api_path = "/metrics" }

pub record Libraries : Type 0 where
  parse_u16 : String → Option ℕ
  accepts_route : String → Bool
  binds : ℕ → Bool
  render : String

-- GET /ping.
abbrev get_ping_handler : ℕ × String
get_ping_handler = (200, "pong")

-- A server that listens: its port, and what it answers to a path that has a route.
pub record Serving : Type 0 where
  port : ℕ
  answer : String → Option (ℕ × String)

abbrev routes : Libraries → MetricsServiceConfig → String → Option (ℕ × String)
routes l conf path =
    if str_eq path "/ping"
    then some get_ping_handler
    else (if str_eq path conf.api_path then some (200, l.render) else none)

unfoldable start : Libraries → MetricsServiceConfig → Result String Serving
start l conf = do
  ensure_or_panic (l.accepts_route conf.api_path)
  port ← some_or_panic (l.parse_u16 conf.port)
  ensure (l.binds port) "address in use"
  ok (record { port = port; answer = routes l conf })

-- The default configuration, with libraries that accept it.
abbrev libraries : Libraries
libraries = record {
  parse_u16 = λ text. if str_eq text "4070" then some 4070 else none;
  accepts_route = λ path. true;
  binds = λ port. true;
  render = "";
}

default_serves :
    start libraries default_metrics
    ≡ ok (record { port = 4070; answer = routes libraries default_metrics })
unfolding start
default_serves = refl
