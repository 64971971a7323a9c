-- ===== src/Rpc/Multiplex/Tests.antt =====
-- Two services that count their calls, and a connection that submits one request to each.
use ursa.Prelude.{ℕ, ◌+◌, ◌≡◌, refl, List, [], ◌∷◌, none, some, false, ok}
use ursa.Rpc.Multiplex.{
  Request, post, get, Poll, pending, ready, Service, poll_both, poll_http, poll_rpc, call_one,
  multiplex, codes, is_rpc_request, starts_with,
}
use ursa.Rpc.Multiplex.Contract.{
  guarded, polled, answered, Event, wake, submit, drive, drive-guarded,
}

-- Ready after its first poll.
abbrev counter : Service (Unit {0}) (Request ℕ) ℕ
counter = record {
  State = ℕ × Poll (Unit {0});
  poll_ready = λ (n, p). ((n, ready), p);
  call = λ (n, p) req. ((n + 1, p), ok (n + req.body));
}

abbrev json_request : Request ℕ
json_request = record {
  method = post;
  path = "/rpc/v0";
  content_type = some (codes "application/json");
  body = 10;
}

abbrev page_request : Request ℕ
page_request = record { method = get; path = "/1"; content_type = none; body = 20 }

abbrev events : List (Event (Request ℕ))
events =
    wake
    ∷ submit page_request
    ∷ wake
    ∷ submit json_request
    ∷ submit json_request
    ∷ wake
    ∷ submit page_request
    ∷ []

abbrev both : Service (Unit {0}) (Request ℕ) ℕ
both = multiplex counter counter (λ n. n) (λ n. n + 100)

drive-guarded_example :
    drive
      (multiplex (guarded counter) (guarded counter) (λ n. n) (λ n. n + 100))
      false
      (((0, pending), false), ((0, ready), false))
      events
    ≡ drive both false ((0, pending), (0, ready)) events
drive-guarded_example =
    drive-guarded counter counter (λ n. n) (λ n. n + 100) (0, pending) (0, ready) events

served :
    drive both false ((0, pending), (0, ready)) events
    ≡ polled pending ∷ polled ready ∷ answered (ok 110) ∷ polled ready ∷ answered (ok 20) ∷ []
unfolding drive poll_both poll_http poll_rpc call_one is_rpc_request starts_with
served = refl
