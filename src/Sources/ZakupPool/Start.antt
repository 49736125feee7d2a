-- ===== src/Sources/ZakupPool/Start.antt =====
-- `ZakupSkAdapter.__init__` of infrastructure/sources/zakup_sk/adapter.py: the stacks that an adapter
-- starts with. The settings' numbers are taken to be natural; a proxy address that is absent is the
-- empty one.
use govpars.Prelude.{
  ℕ, zero, suc, ◌+◌, ◌*◌, ◌%◌, ◌<◌, String, ◌≡◌, refl, ap, Bool, false, not, Option, none, some,
  List, [], ◌∷◌, arith, str_eq, leb, ◌==◌, if◌then◌else◌, length, get_elem?,
}
use govpars.Network.CircuitBreaker
use govpars.Network.CircuitBreaker.{CircuitBreaker}
use govpars.Network.ProxyPool
use govpars.Network.ProxyPool.{ProxyPoolCursor}
use govpars.Sources.ZakupPool.{SessionLane, ZakupSkAdapter}

-- The settings of the network that the constructor reads.
pub record NetworkSettings : Type 0 where
  pub proxy_url : String
  pub proxy_pool_urls : List String
  pub proxy_pool_index : ℕ
  pub has_rotate_url : Bool
  pub sticky_ttl_seconds : ℕ
  pub max_lanes : ℕ
  pub cooldown_seconds : ℕ
  pub block_threshold : ℕ

-- `browser_lanes` is the number of the runtime's lanes, or one without a runtime.
unfoldable pub lane_count : NetworkSettings → ℕ → ℕ
lane_count n browser_lanes =
    let pool_size = length n.proxy_pool_urls in
    let count =
      if not (pool_size == 0)
      then (if leb n.max_lanes pool_size then n.max_lanes else pool_size)
      else if str_eq n.proxy_url ""
      then browser_lanes
      else n.max_lanes in
    if leb count 1 then 1 else count

-- The proxy of a lane.
unfoldable pub lane_proxy : NetworkSettings → ℕ → String
lane_proxy n index = elim n.proxy_pool_urls [
  | [] ↦ n.proxy_url
  | url ∷ urls ↦
      elim (get_elem? (url ∷ urls) ((n.proxy_pool_index + index) % length (url ∷ urls))) [
        | some chosen ↦ chosen
        | none ↦ ""
      ]
]

unfoldable pub first_stack : NetworkSettings → ℕ → CircuitBreaker → ℕ → SessionLane
unfolding lane_proxy
first_stack n now source_breaker index = record {
  stack_object = index;
  proxy_url = lane_proxy n index;
  stack = record {
    lane_breaker = CircuitBreaker.new n.block_threshold n.cooldown_seconds none;
    source_breaker = source_breaker;
    profiles = [];
    calls = [];
  };
  in_use = false;
  generation = 0;
  started_at = now;
}

-- `for lane_index in range(lane_count)`, from an index on
unfoldable pub start_stacks : NetworkSettings → ℕ → CircuitBreaker → ℕ → ℕ → List SessionLane
unfolding first_stack
start_stacks n now source_breaker zero index = []
start_stacks n now source_breaker (suc count) index =
    first_stack n now source_breaker index ∷ start_stacks n now source_breaker count (index + 1)

-- The breaker that all stacks share: `max(network.block_threshold * 2, 5)`
unfoldable pub start_source_breaker : NetworkSettings → CircuitBreaker
start_source_breaker n =
    CircuitBreaker.new (if leb (n.block_threshold * 2) 5 then 5 else n.block_threshold * 2)
      n.cooldown_seconds none

-- The pool goes on after the proxies that the lanes take.
unfoldable pub start_pool : NetworkSettings → ℕ → Option ProxyPoolCursor
start_pool n count = elim n.proxy_pool_urls [
  | [] ↦ none
  | url ∷ urls ↦ some (ProxyPool.new (url ∷ urls) (n.proxy_pool_index + count) n.cooldown_seconds)
]

unfoldable pub new_adapter : NetworkSettings → ℕ → ℕ → ℕ → ZakupSkAdapter
unfolding lane_count start_stacks start_source_breaker start_pool
new_adapter n browser_lanes max_attempts now =
    let count = lane_count n browser_lanes in
    let source_breaker = start_source_breaker n in
    record {
      stacks = start_stacks n now source_breaker count 0;
      next_lane = 0;
      source_breaker = source_breaker;
      proxy_pool = start_pool n count;
      rotates_provider = n.has_rotate_url;
      block_threshold = n.block_threshold;
      cooldown_seconds = n.cooldown_seconds;
      sticky_ttl_seconds = n.sticky_ttl_seconds;
      max_attempts = max_attempts;
      next_object = count;
    }

length-start_stacks :
    (n : NetworkSettings) (now : ℕ) (b : CircuitBreaker) (count index : ℕ)
    → length (start_stacks n now b count index) ≡ count
unfolding start_stacks
length-start_stacks n now b zero index = refl
length-start_stacks n now b (suc count) index =
    ap suc (length-start_stacks n now b count (index + 1))

at_least_one : (n : NetworkSettings) (browser_lanes : ℕ) → 0 < lane_count n browser_lanes
unfolding lane_count
at_least_one n browser_lanes = ground arith

-- A new adapter has at least one stack, and its next lane is in range.
new_adapter-next_lane :
    (n : NetworkSettings) (browser_lanes max_attempts now : ℕ)
    → (new_adapter n browser_lanes max_attempts now).next_lane
      < length (new_adapter n browser_lanes max_attempts now).stacks
unfolding new_adapter
new_adapter-next_lane n browser_lanes max_attempts now =
    let count = lane_count n browser_lanes in
    omega (
      arith,
      length-start_stacks n now (start_source_breaker n) count 0,
      at_least_one n browser_lanes,
    )
