-- ===== src/Sources/Lanes.antt =====
-- The lanes of `EepHttpClient` in infrastructure/sources/eep_mitwork/client.py: `_acquire_lane` and
-- `_replace_lane`. Each holds its lock throughout, so that one pass over the lanes, and one
-- replacement, is one step. A lane object has a number in place of its identity; closing the old HTTP
-- client and saving the lane's state are left out.
pub mod Choice
pub mod Proxies
use govpars.Prelude.{
  ℕ, zero, suc, ◌+◌, ◌%◌, String, Bool, true, false, not, ◌||◌, Option, none, some, List, [], ◌∷◌,
  map, str_eq, ◌==◌, if◌then◌else◌, length, get_elem?, set,
}
use govpars.Domain.Errors.{Exc, Result, ok, raised, plain_error, circuit_open_error}
use govpars.Network.CircuitBreaker
use govpars.Network.CircuitBreaker.{CircuitBreaker, is_available}
use govpars.Network.ProxyPool
use govpars.Network.ProxyPool.{ProxyPoolCursor, mark_failed, next}

pub record EepHttpLane : Type 0 where
  pub lane_object : ℕ
  pub proxy_url : String
  pub breaker : CircuitBreaker
  pub locked : Bool
  pub generation : ℕ

pub record EepHttpClient : Type 0 where
  pub lanes : List EepHttpLane
  pub next_lane : ℕ
  pub proxy_pool : Option ProxyPoolCursor
  pub rotates_provider : Bool
  pub block_threshold : ℕ
  pub cooldown_seconds : ℕ
  pub next_object : ℕ

-- `{403, 407, 418, 429, 502, 503, 504}`
abbrev pub blocked_or_transient_statuses : List ℕ
blocked_or_transient_statuses = 403 ∷ 407 ∷ 418 ∷ 429 ∷ 502 ∷ 503 ∷ 504 ∷ []

-- A new object: the client's `next_object`.
unfoldable pub build_lane : EepHttpClient → String → ℕ → EepHttpLane
build_lane c proxy_url generation = record {
  lane_object = c.next_object;
  proxy_url = proxy_url;
  breaker =
      CircuitBreaker.new c.block_threshold c.cooldown_seconds (some blocked_or_transient_statuses);
  locked = false;
  generation = generation;
}

-- One pass of `_acquire_lane`: a lane with its index, a wait for a lane in use, or an exception.
pub data Acquired : Type 0 where
  acquired : ℕ → EepHttpLane → Acquired
  waits : Acquired
  raises : Exc → Acquired

-- `for _ in self._lanes`
acquire_loop : ℕ → ℕ → EepHttpClient → Bool → Acquired × EepHttpClient
acquire_loop zero now c locked_lane_exists =
    if locked_lane_exists
    then (waits, c)
    else (raises (circuit_open_error "All EEP proxy lanes are in cooldown"), c)
acquire_loop (suc rounds) now c locked_lane_exists =
    let c' = record c { next_lane = (c.next_lane + 1) % length c.lanes } in
    elim (get_elem? c.lanes c.next_lane) [
      | none ↦ (raises (plain_error "IndexError"), c')
      | some lane ↦
          let rest = acquire_loop rounds now c' (locked_lane_exists || lane.locked) in
          if lane.locked then rest else if not (is_available lane.breaker now) then rest else (
            acquired c.next_lane lane,
            record c' { lanes = set c.lanes c.next_lane (record lane { locked = true }) },
          )
    ]

unfoldable pub acquire_lane : ℕ → EepHttpClient → Acquired × EepHttpClient
unfolding acquire_loop
acquire_lane now c = acquire_loop (length c.lanes) now c false

-- The proxies of the lanes at other indices.
unfoldable pub active_proxies : List EepHttpLane → ℕ → List String
active_proxies [] index = []
active_proxies (l ∷ ls) zero = map (λ (x : EepHttpLane). x.proxy_url) ls
active_proxies (l ∷ ls) (suc index) = l.proxy_url ∷ active_proxies ls index

-- The replacement put in its place.
unfoldable pub install : EepHttpClient → ℕ → EepHttpLane → String → Result Bool × EepHttpClient
unfolding build_lane
install c index lane url = if str_eq url "" then (ok false, c) else (
  ok true,
  record c {
    lanes = set c.lanes index (build_lane c url (lane.generation + 1));
    next_object = c.next_object + 1;
  },
)

unfoldable pub failed_pool : ProxyPoolCursor → ℕ → String → Bool → ProxyPoolCursor
failed_pool pool now url failed = if failed then mark_failed pool now url else pool

-- What the pool gave: an exception, no proxy, or the next one.
unfoldable pub use_next :
    EepHttpClient → ℕ → EepHttpLane → Result (Option String) → Result Bool × EepHttpClient
unfolding install
use_next c index lane (raised e) = (raised e, c)
use_next c index lane (ok none) = (ok false, c)
use_next c index lane (ok (some url)) = install c index lane url

-- With a pool: the next proxy that no other lane uses.
unfoldable pub replace_from_pool :
    EepHttpClient → ProxyPoolCursor → ℕ → ℕ → EepHttpLane → Bool → Result Bool × EepHttpClient
unfolding use_next failed_pool active_proxies
replace_from_pool c pool now index lane failed =
    let (r, pool') =
      next (failed_pool pool now lane.proxy_url failed) now
        (lane.proxy_url ∷ active_proxies c.lanes index) in
    use_next (record c { proxy_pool = some pool' }) index lane r

-- `rotation` is what the provider's rotation gives.
unfoldable pub replace_lane :
    EepHttpClient → ℕ → ℕ → EepHttpLane → Bool → Result (Unit {0}) → Result Bool × EepHttpClient
unfolding replace_from_pool
replace_lane c now index lane failed rotation = elim (get_elem? c.lanes index) [
  | none ↦ (raised (plain_error "IndexError"), c)
  | some current ↦
      if not (current.lane_object == lane.lane_object) then (ok true, c) else elim c.proxy_pool [
        | some pool ↦ replace_from_pool c pool now index lane failed
        | none ↦
            if c.rotates_provider
            then elim rotation [
              | raised e ↦ (raised e, c)
              | ok _ ↦ install c index lane lane.proxy_url
            ]
            else (ok false, c)
      ]
]
