-- ===== src/Examples/Sources.antt =====
-- A small stack of strategies and a small bundle for
-- src/procurement_parser/infrastructure/sources/zakup_sk.
use govpars.Prelude.{
  ℕ, ◌+◌, ◌-◌, ◌≡◌, refl, true, false, ◌&&◌, none, some, List, [], ◌∷◌, arith, length, take, drop,
  all,
}
use govpars.Domain.Errors.{ok, raised, plain_error, circuit_open_error}
use govpars.Prelude.Dict.{get}
use govpars.Network.CircuitBreaker.{CircuitBreaker, closed, half_open, allow}
use govpars.Network.CircuitBreaker.Gate.{is_ok}
use govpars.Sources.Strategies.{
  keep_profile, Stack, ApiResponse, RequestProfile, Answers, request_locked, browser_start,
}
use govpars.Sources.Strategies.Reports.{Reported, request_locked-Reported, request_locked-allow}
use govpars.Sources.Strategies.Order.{is_allowed, request_locked-KeepsAllowed}
use govpars.Sources.BundleCache.{Fetched, response, Files, download}
use govpars.Sources.BundleCache.Complete.{ServesBundle, Ends, download-Ends}

abbrev a_breaker : CircuitBreaker
a_breaker = record {
  threshold = 2;
  cooldown = 600;
  blocked_statuses = 403 ∷ 418 ∷ 429 ∷ [];
  state = closed;
  consecutive_blocks = 0;
  opened_at = none;
  half_open_probe_active = false;
}

abbrev a_stack : Stack
a_stack = record {
  lane_breaker = a_breaker;
  source_breaker = a_breaker;
  profiles = [];
  calls = browser_start ∷ [];
}

abbrev blocked_response : ApiResponse
blocked_response = record { status = 403; data_text = "{}"; strategy = "curl-cffi" }

abbrev good_response : ApiResponse
good_response = record { status = 200; data_text = "{}"; strategy = "dom-fallback" }

abbrev a_profile : RequestProfile
a_profile = record { url_pattern = "/lots/filter"; browser_only = true }

-- every strategy is blocked but the last
abbrev some_answers : Answers
some_answers = record {
  source_asked = 100;
  lane_asked = 100;
  lane_told = 105;
  source_told = 105;
  browser_profile = none;
  direct = ok blocked_response;
  start = ok tt;
  captured = some a_profile;
  direct_again = ok blocked_response;
  intercept = ok blocked_response;
  captured_later = none;
  browser_fetch = ok blocked_response;
  intercept_again = ok blocked_response;
  dom_fallback = ok good_response;
}

request_locked-Reported_example :
    Reported some_answers a_stack (request_locked some_answers "POST /lots/filter" true a_stack)
request_locked-Reported_example =
    request_locked-Reported some_answers "POST /lots/filter" true a_stack

request_locked-KeepsAllowed_example :
    all (is_allowed true) (request_locked some_answers "POST /lots/filter" true a_stack).1.calls
    ≡ true
request_locked-KeepsAllowed_example =
    request_locked-KeepsAllowed some_answers "POST /lots/filter" true a_stack refl

-- a source whose breaker is half open
abbrev probing_stack : Stack
probing_stack = record a_stack { source_breaker = record a_breaker { state = half_open } }

abbrev probed : CircuitBreaker
probed = record a_breaker { state = half_open; half_open_probe_active = true }

abbrev timeout_answers : Answers
timeout_answers = record some_answers { direct = raised (plain_error "timeout") }

probe_let_through : allow probing_stack.source_breaker 100 ≡ (ok tt, probed)
unfolding allow
probe_let_through = refl

probe_raises : request_locked timeout_answers "GET /lots/{id}" false probing_stack ≡ (
  raised (plain_error "timeout"),
  (request_locked timeout_answers "GET /lots/{id}" false probing_stack).1,
)
unfolding request_locked allow keep_profile get
probe_raises = refl

request_locked-allow_example :
    allow
      (request_locked timeout_answers "GET /lots/{id}" false probing_stack).1.source_breaker
      9000
    ≡ (
      raised (circuit_open_error "Half-open probe is already running"),
      (request_locked timeout_answers "GET /lots/{id}" false probing_stack).1.source_breaker,
    )
request_locked-allow_example =
    request_locked-allow timeout_answers "GET /lots/{id}" false probing_stack
      (request_locked timeout_answers "GET /lots/{id}" false probing_stack).1 probed
      (plain_error "timeout") 9000 (λ e. ground arith) probe_let_through probe_raises

abbrev refusing_stack : Stack
refusing_stack = record a_stack { lane_breaker = probed }

lane_refuses :
    (is_ok (allow refusing_stack.source_breaker 100).0
      && is_ok (allow refusing_stack.lane_breaker 100).0)
    ≡ false
unfolding allow
lane_refuses = refl

abbrev a_bundle : List ℕ
a_bundle = 47 ∷ 42 ∷ 33 ∷ []

-- a server that gives every range in full
abbrev a_server : ℕ → ℕ → ℕ → Fetched
a_server left start end_ = response (record {
  status_code = 206;
  content_range = some (start, end_);
  content = take (end_ - start + 1) (drop start a_bundle);
})

a_server_serves : ServesBundle a_bundle a_server
a_server_serves left start end_ r h s k = (end_ - start + 1, ground arith)

abbrev half_done : Files
half_done = record { partial = some (47 ∷ []); destination = none }

download-Ends_example :
    Ends a_bundle a_server a_server_serves half_done
      (download a_server (length a_bundle) 4 half_done)
download-Ends_example =
    download-Ends a_bundle a_server a_server_serves 4 half_done (omega arith) (λ h. refl)
