-- ===== src/Examples/Lanes.antt =====
-- Two lanes and a pool of three proxies for
-- src/procurement_parser/infrastructure/sources/eep_mitwork/client.py.
use govpars.Prelude.{◌≡◌, refl, true, false, none, some, [], ◌∷◌, arith, any, find?}
use govpars.Prelude.Walk.{walk}
use govpars.Domain.Errors.{ok}
use govpars.Network.CircuitBreaker
use govpars.Network.CircuitBreaker.{CircuitBreaker, open_state}
use govpars.Network.ProxyPool.{ProxyPoolCursor}
use govpars.Sources.Lanes.{EepHttpLane, EepHttpClient, acquire_lane, replace_lane}
use govpars.Sources.Lanes.Choice.{is_free, is_locked, choice_of, choose, acquire_lane-eq-find?}
use govpars.Sources.Lanes.Proxies.{distinct_proxies, replace_lane-distinct}

abbrev a_lane : EepHttpLane
a_lane = record {
  lane_object = 0;
  proxy_url = "http://p0";
  breaker = CircuitBreaker.new 2 600 none;
  locked = true;
  generation = 0;
}

abbrev cooling_lane : EepHttpLane
cooling_lane = record a_lane {
  lane_object = 1;
  proxy_url = "http://p1";
  breaker = record (CircuitBreaker.new 2 600 none) { state = open_state; opened_at = some 100 };
  locked = false;
}

abbrev a_pool : ProxyPoolCursor
a_pool = record {
  urls = "http://p0" ∷ "http://p1" ∷ "http://p2" ∷ [];
  cursor = 0;
  cooldown_seconds = 600;
  cooldown_until = [];
}

abbrev a_client : EepHttpClient
a_client = record {
  lanes = a_lane ∷ cooling_lane ∷ [];
  next_lane = 1;
  proxy_pool = some a_pool;
  rotates_provider = false;
  block_threshold = 2;
  cooldown_seconds = 600;
  next_object = 2;
}

acquire_lane-eq-find?_example :
    choice_of (acquire_lane 200 a_client).0
    ≡ choose
        (find? (is_free 200) (walk a_client.lanes a_client.next_lane))
        (any is_locked a_client.lanes)
acquire_lane-eq-find?_example = acquire_lane-eq-find? 200 a_client (omega arith)

replace_lane-distinct_example :
    distinct_proxies (replace_lane a_client 200 1 cooling_lane true (ok tt)).1.lanes ≡ true
replace_lane-distinct_example =
    replace_lane-distinct a_client a_pool 200 1 cooling_lane true (ok tt) refl refl
