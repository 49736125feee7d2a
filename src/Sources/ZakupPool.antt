-- ===== src/Sources/ZakupPool.antt =====
-- The lanes of `ZakupSkAdapter` in infrastructure/sources/zakup_sk/adapter.py: `_acquire_stack`,
-- `_release_stack`, `_replacement_stack` and `_lane_ttl_expired`. Each holds its locks throughout, so
-- that one pass over the lanes, and one release, is one step. A stack has a number in place of its
-- `id`; what the adapter keeps per lane stands beside the stack. A proxy address that is absent is the
-- empty one: the source tests both for truth. What `_release_stack` returns is not used. Closing the old stack, metrics and logs are left out.
pub mod Choice
pub mod Start
pub mod Unattempted
pub mod Quiet
use govpars.Prelude.{
  ℕ, zero, suc, ◌+◌, ◌-◌, ◌%◌, String, Bool, true, false, not, ◌&&◌, ◌||◌, Option, none, some, List,
  [], ◌∷◌, map, str_eq, leb, ◌==◌, if◌then◌else◌, length, get_elem?, set, any, filter,
}
use govpars.Domain.Errors.{Exc, Result, ok, raised, plain_error}
use govpars.Network.CircuitBreaker
use govpars.Network.CircuitBreaker.{CircuitBreaker, is_available}
use govpars.Network.ProxyPool
use govpars.Network.ProxyPool.{ProxyPoolCursor, mark_failed, next}
use govpars.Sources.Strategies.{Stack}

pub record SessionLane : Type 0 where
  pub stack_object : ℕ
  pub proxy_url : String
  pub stack : Stack
  pub in_use : Bool
  pub generation : ℕ
  pub started_at : ℕ

pub record ZakupSkAdapter : Type 0 where
  pub stacks : List SessionLane
  pub next_lane : ℕ
  pub source_breaker : CircuitBreaker
  pub proxy_pool : Option ProxyPoolCursor
  pub rotates_provider : Bool
  pub block_threshold : ℕ
  pub cooldown_seconds : ℕ
  pub sticky_ttl_seconds : ℕ
  pub max_attempts : ℕ
  pub next_object : ℕ

-- `id(stack) in attempted`
abbrev pub is_attempted : List ℕ → ℕ → Bool
is_attempted attempted object = any (λ o. o == object) attempted

-- One pass of `_acquire_stack`.
pub data Acquired : Type 0 where
  acquired : ℕ → SessionLane → Acquired
  waits : Acquired
  no_lane : Acquired
  raises : Exc → Acquired

-- After a pass that found no lane, from the two flags.
unfoldable pub none_found : Bool → Bool → Acquired
none_found unattempted busy =
    if not unattempted then no_lane else if not busy then no_lane else waits

-- `for _ in self.stacks`
acquire_loop : ℕ → ℕ → List ℕ → ZakupSkAdapter → Bool → Bool → Acquired × ZakupSkAdapter
unfolding none_found
acquire_loop zero now attempted c unattempted busy = (none_found unattempted busy, c)
acquire_loop (suc rounds) now attempted c unattempted busy =
    let c' = record c { next_lane = (c.next_lane + 1) % length c.stacks } in
    elim (get_elem? c.stacks c.next_lane) [
      | none ↦ (raises (plain_error "IndexError"), c')
      | some lane ↦
          let skipped = acquire_loop rounds now attempted c' unattempted busy in
          let rest = acquire_loop rounds now attempted c' true (busy || lane.in_use) in
          if is_attempted attempted lane.stack_object
          then skipped
          else if lane.in_use
          then rest
          else if not (is_available lane.stack.lane_breaker now)
          then rest
          else (
            acquired c.next_lane lane,
            record c' { stacks = set c.stacks c.next_lane (record lane { in_use = true }) },
          )
    ]

unfoldable pub acquire_stack : ℕ → List ℕ → ZakupSkAdapter → Acquired × ZakupSkAdapter
unfolding acquire_loop
acquire_stack now attempted c = acquire_loop (length c.stacks) now attempted c false false

abbrev pub has_pool : ZakupSkAdapter → Bool
has_pool c = elim c.proxy_pool [ none ↦ false | some _ ↦ true ]

-- `bool(self.proxy_pool or self.network.rotate_url)`
abbrev pub can_rotate : ZakupSkAdapter → Bool
can_rotate c = has_pool c || c.rotates_provider

-- `time.monotonic() - self._lane_started_at[lane_index] >= ttl`; the clock does not go back.
unfoldable pub lane_ttl_expired : ZakupSkAdapter → ℕ → SessionLane → Bool
lane_ttl_expired c now lane =
    if leb c.sticky_ttl_seconds 0 || not (can_rotate c)
    then false
    else leb c.sticky_ttl_seconds (now - lane.started_at)

unfoldable pub build_stack : ZakupSkAdapter → String → ℕ → SessionLane → SessionLane
build_stack c url now lane = record {
  stack_object = c.next_object;
  proxy_url = url;
  stack = record {
    lane_breaker = CircuitBreaker.new c.block_threshold c.cooldown_seconds none;
    source_breaker = c.source_breaker;
    profiles = [];
    calls = [];
  };
  in_use = false;
  generation = lane.generation + 1;
  started_at = now;
}

-- The proxies of the other stacks.
unfoldable pub active_proxies : List SessionLane → SessionLane → List String
active_proxies stacks lane =
    map (λ (l : SessionLane). l.proxy_url)
      (filter (λ l. not (str_eq l.proxy_url "") && not (l.stack_object == lane.stack_object))
        stacks)

-- From the test of `next_proxy` on.
unfoldable pub replace_by :
    ZakupSkAdapter → ℕ → SessionLane → Option String → Option SessionLane × ZakupSkAdapter
unfolding build_stack
replace_by c now lane none = (none, c)
replace_by c now lane (some url) =
    if str_eq url ""
    then (none, c)
    else (some (build_stack c url now lane), record c { next_object = c.next_object + 1 })

-- What the pool gave; an exception of it is logged by `_release_stack`.
unfoldable pub replace_by_next :
    ZakupSkAdapter → ℕ → SessionLane → Result (Option String) → Option SessionLane × ZakupSkAdapter
unfolding replace_by
replace_by_next c now lane (raised e) = (none, c)
replace_by_next c now lane (ok url) = replace_by c now lane url

unfoldable pub failed_pool : ProxyPoolCursor → ℕ → String → Bool → ProxyPoolCursor
failed_pool pool now url failed = if failed then mark_failed pool now url else pool

-- Without a pool: the same proxy, after its provider has rotated it.
unfoldable pub replace_by_provider :
    ZakupSkAdapter → ℕ → SessionLane → Result (Unit {0}) → Option SessionLane × ZakupSkAdapter
unfolding replace_by
replace_by_provider c now lane (raised e) = (none, c)
replace_by_provider c now lane (ok _) =
    if c.rotates_provider then replace_by c now lane (some lane.proxy_url) else (none, c)

-- With one: the next proxy that no other stack uses.
unfoldable pub replace_from_pool :
    ZakupSkAdapter → ProxyPoolCursor → ℕ → SessionLane → Bool → Option SessionLane × ZakupSkAdapter
unfolding replace_by_next failed_pool active_proxies
replace_from_pool c pool now lane failed =
    let (r, pool') =
      next (failed_pool pool now lane.proxy_url failed) now
        (lane.proxy_url ∷ active_proxies c.stacks lane) in
    replace_by_next (record c { proxy_pool = some pool' }) now lane r

-- The replacement, where `rotation` is what the provider's rotation gives.
unfoldable pub replacement_stack :
    ZakupSkAdapter
    → ℕ
    → SessionLane
    → Bool
    → Result (Unit {0})
    → Option SessionLane × ZakupSkAdapter
unfolding replace_from_pool replace_by_provider
replacement_stack c now lane failed rotation = elim c.proxy_pool [
  | some pool ↦ replace_from_pool c pool now lane failed
  | none ↦ replace_by_provider c now lane rotation
]

-- The lane at the index after the release of `lane`.
unfoldable pub released : Option SessionLane → ℕ → Bool → SessionLane → SessionLane → SessionLane
released none now failed lane current = record current {
  in_use = false;
  started_at = if failed then current.started_at else now;
}
released (some replacement) now failed lane current =
    if current.stack_object == lane.stack_object
    then replacement
    else record current { in_use = false; started_at = if failed then current.started_at else now }

unfoldable pub install :
    ℕ → ℕ → Bool → SessionLane → Option SessionLane × ZakupSkAdapter → ZakupSkAdapter
unfolding released
install index now failed lane (replacement, c) = elim (get_elem? c.stacks index) [
  | none ↦ c
  | some current ↦ record c {
    stacks = set c.stacks index (released replacement now failed lane current);
  }
]

unfoldable pub release_stack :
    ZakupSkAdapter → ℕ → ℕ → SessionLane → Bool → Bool → Result (Unit {0}) → ZakupSkAdapter
unfolding replacement_stack install
release_stack c now index lane exhausted failed rotation =
    if exhausted && (not (str_eq lane.proxy_url "") && can_rotate c)
    then install index now failed lane (replacement_stack c now lane failed rotation)
    else install index now true lane (none, c)
