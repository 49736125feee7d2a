-- ===== src/Examples/Pool.antt =====
-- Two stacks and a pool of three proxies for
-- src/procurement_parser/infrastructure/sources/zakup_sk/adapter.py.
use govpars.Prelude.{◌≡◌, refl, true, false, none, some, [], ◌∷◌, map, arith, get_elem?, any, find?}
use govpars.Prelude.Walk.{walk}
use govpars.Domain.Errors.{Result, ok}
use govpars.Network.CircuitBreaker
use govpars.Network.CircuitBreaker.{
  CircuitBreaker, open_state, is_available, allow, record_transport_failure,
}
use govpars.Network.ProxyPool.{ProxyPoolCursor}
use govpars.Sources.Strategies.{
  ApiResponse, request_locked, keep_profile, is_blocked_status, respond, told, known_profile,
  request_with, allow_lane, allow_source,
}
use govpars.Sources.ZakupPool.{
  SessionLane, ZakupSkAdapter, acquire_stack, none_found, lane_ttl_expired, release_stack,
  active_proxies, build_stack, failed_pool, install, released, replace_by, replace_by_next,
  replace_by_provider, replace_from_pool, replacement_stack,
}
use govpars.Sources.ZakupPool.Start.{NetworkSettings, new_adapter, lane_proxy}
use govpars.Sources.ZakupPool.Choice.{is_free, is_busy, choice_of, choose, acquire_stack-eq-find?}
use govpars.Sources.ZakupRequest.{
  goes_on, Pass, request, request_pass, max_attempts_of, started, unavailable_lane_delay, ask,
  attempt, conclude, continue_with, finish_attempt, is_circuit_open, is_rotate_status, judge,
  last_resort, use_acquired, min_delay, remaining,
}
use govpars.Prelude.Dict.{get, put}
use govpars.Network.ProxyPool
use govpars.Sources.ZakupRequest.Attempts.{Counted, request-Counted}
use govpars.Sources.ZakupRequest.Ends.{request_ends}

abbrev a_breaker : CircuitBreaker
a_breaker = CircuitBreaker.new 2 600 none

abbrev a_stack : SessionLane
a_stack = record {
  stack_object = 0;
  proxy_url = "http://p0";
  stack = record {
    lane_breaker = a_breaker;
    source_breaker = a_breaker;
    profiles = [];
    calls = [];
  };
  in_use = true;
  generation = 0;
  started_at = 0;
}

abbrev free_stack : SessionLane
free_stack = record a_stack { stack_object = 1; proxy_url = "http://p1"; in_use = false }

abbrev an_adapter : ZakupSkAdapter
an_adapter = record {
  stacks = a_stack ∷ free_stack ∷ [];
  next_lane = 0;
  source_breaker = a_breaker;
  proxy_pool = some (record {
    urls = "http://p0" ∷ "http://p1" ∷ "http://p2" ∷ [];
    cursor = 0;
    cooldown_seconds = 600;
    cooldown_until = [];
  });
  rotates_provider = false;
  block_threshold = 2;
  cooldown_seconds = 600;
  sticky_ttl_seconds = 0;
  max_attempts = 3;
  next_object = 2;
}

abbrev bad_gateway : ApiResponse
bad_gateway = record { status = 502; data_text = ""; strategy = "curl_cffi" }

abbrev a_pass : Pass
a_pass = record {
  others = λ c. c;
  acquired_at = 100;
  answers = record {
    source_asked = 100;
    lane_asked = 100;
    lane_told = 101;
    source_told = 101;
    browser_profile = none;
    direct = ok bad_gateway;
    start = ok tt;
    captured = none;
    direct_again = ok bad_gateway;
    intercept = ok bad_gateway;
    captured_later = none;
    browser_fetch = ok bad_gateway;
    intercept_again = ok bad_gateway;
    dom_fallback = ok bad_gateway;
  };
  released_at = 102;
  rotation = ok tt;
}

acquire_stack-eq-find?_example :
    choice_of (acquire_stack 100 [] an_adapter).0
    ≡ choose
        (find? (is_free 100 []) (walk an_adapter.stacks an_adapter.next_lane))
        (any (is_busy []) an_adapter.stacks)
acquire_stack-eq-find?_example = acquire_stack-eq-find? 100 [] an_adapter (omega arith)

request-Counted_example :
    Counted
      (max_attempts_of an_adapter)
      (request 103 "key" false (a_pass ∷ a_pass ∷ []) an_adapter).1
request-Counted_example = request-Counted 103 "key" false (a_pass ∷ a_pass ∷ []) an_adapter

-- The stack that is free answers 502 and is replaced by one with the third proxy.
stays_pending : (request 103 "key" false (a_pass ∷ []) an_adapter).0 ≡ none
unfolding request max_attempts_of request_pass ask attempt conclude continue_with finish_attempt
    is_circuit_open is_rotate_status judge last_resort use_acquired min_delay remaining
    acquire_stack none_found lane_ttl_expired release_stack active_proxies build_stack failed_pool
    install released replace_by replace_by_next replace_by_provider replace_from_pool
    replacement_stack is_available allow record_transport_failure request_locked keep_profile
    is_blocked_status respond told known_profile request_with allow_lane allow_source get put
    CircuitBreaker.new ProxyPool.next ProxyPool.mark_failed ProxyPool.is_cooling
    CircuitBreaker.record_success
stays_pending = refl

stack_replaced :
    get_elem? (request 103 "key" false (a_pass ∷ []) an_adapter).1.adapter.stacks 1
    ≡ some (record free_stack {
      stack_object = 2;
      proxy_url = "http://p2";
      generation = 1;
      started_at = 102;
    })
unfolding request max_attempts_of request_pass ask attempt conclude continue_with finish_attempt
    is_circuit_open is_rotate_status judge last_resort use_acquired min_delay remaining
    acquire_stack none_found lane_ttl_expired release_stack active_proxies build_stack failed_pool
    install released replace_by replace_by_next replace_by_provider replace_from_pool
    replacement_stack is_available allow record_transport_failure request_locked keep_profile
    is_blocked_status respond told known_profile request_with allow_lane allow_source get put
    CircuitBreaker.new ProxyPool.next ProxyPool.mark_failed ProxyPool.is_cooling
    CircuitBreaker.record_success
stack_replaced = refl

abbrev quiet_adapter : ZakupSkAdapter
quiet_adapter = record an_adapter { stacks = free_stack ∷ [] }

request_ends_example :
    (answer : Result ApiResponse) × ((request 103 "key" false
        (a_pass ∷ a_pass ∷ a_pass ∷ [])
        quiet_adapter).0
      ≡ some answer)
unfolding max_attempts_of
request_ends_example =
    request_ends 103 "key" false (a_pass ∷ a_pass ∷ a_pass ∷ []) quiet_adapter
      (λ c h. h, (λ c h. h, (λ c h. h, tt))) (refl, refl) (omega arith)

-- No stack is in cooldown: the default.
delay_of_none : unavailable_lane_delay 100 an_adapter ≡ 600
unfolding unavailable_lane_delay min_delay remaining CircuitBreaker.cooldown_until
    CircuitBreaker.new
delay_of_none = refl

abbrev some_settings : NetworkSettings
some_settings = record {
  proxy_url = "http://p0";
  proxy_pool_urls = "http://p0" ∷ "http://p1" ∷ "http://p2" ∷ [];
  proxy_pool_index = 2;
  has_rotate_url = false;
  sticky_ttl_seconds = 0;
  max_lanes = 2;
  cooldown_seconds = 600;
  block_threshold = 3;
}

-- Two lanes, with the last proxy and the first.
first_proxies :
    map (λ (l : SessionLane). l.proxy_url) (new_adapter some_settings 1 3 0).stacks
    ≡ "http://p2" ∷ "http://p0" ∷ []
unfolding new_adapter lane_proxy
first_proxies = refl

-- The provider rotates, but there is no proxy to rotate: a lane beyond its time stays so.
abbrev stuck_adapter : ZakupSkAdapter
stuck_adapter = record an_adapter {
  stacks = record free_stack { proxy_url = "" } ∷ [];
  proxy_pool = none;
  rotates_provider = true;
  sticky_ttl_seconds = 60;
}

never_asked :
    (request_pass a_pass "key" false true (started stuck_adapter)) ≡ goes_on (started stuck_adapter)
unfolding request_pass use_acquired acquire_stack is_available lane_ttl_expired release_stack
    install released CircuitBreaker.new
never_asked = refl
