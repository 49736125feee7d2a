-- ===== src/Sources/ZakupRequest.antt =====
-- `_request` and `_unavailable_lane_delay` of infrastructure/sources/zakup_sk/adapter.py: one request
-- over the stacks of the adapter, until one of them answers. Each pass of the loop is one element of a
-- list; before a pass, and so whenever the request waits for a stack, the other requests act on the
-- adapter. Instants are whole seconds. The breakers' saved state is left out.
pub mod Attempts
pub mod Flags
pub mod Ends
use govpars.Prelude.{
  ℕ, ◌+◌, ◌-◌, String, Bool, true, false, not, ◌&&◌, ◌||◌, Option, none, some, List, [], ◌∷◌,
  str_eq, ltb, leb, ◌==◌, if◌then◌else◌, length, set, any,
}
use govpars.Domain.Errors.{Exc, retriable, lease_lost, cancelled, other, Result, ok, raised}
use govpars.Network.CircuitBreaker.{
  CircuitBreaker, is_open, record_transport_failure, cooldown_until,
}
use govpars.Sources.Strategies
use govpars.Sources.Strategies.{Stack, ApiResponse, is_blocked_status, request_locked}
use govpars.Sources.ZakupPool.{
  SessionLane, ZakupSkAdapter, Acquired, acquired, waits, no_lane, raises, acquire_stack,
  can_rotate, lane_ttl_expired, release_stack,
}

-- What happens in one pass: what the other requests do before it, the answers that the strategies
-- give, the instants of the acquisition and of the release, and what the provider's rotation gives.
pub record Pass : Type 0 where
  pub others : ZakupSkAdapter → ZakupSkAdapter
  pub acquired_at : ℕ
  pub answers : Strategies.Answers
  pub released_at : ℕ
  pub rotation : Result (Unit {0})

-- The locals of `_request`, with the adapter.
pub record Progress : Type 0 where
  pub adapter : ZakupSkAdapter
  pub attempted : List ℕ
  pub attempts : ℕ
  pub last_response : Option ApiResponse
  pub last_error : Option Exc

pub data Next : Type 0 where
  goes_on : Progress → Next
  stops : Progress → Next
  returns : ApiResponse → Progress → Next
  throws : Exc → Progress → Next

abbrev pub rotate_statuses : List ℕ
rotate_statuses = 403 ∷ 407 ∷ 418 ∷ 429 ∷ 502 ∷ 503 ∷ 504 ∷ []

unfoldable pub is_rotate_status : ℕ → Bool
is_rotate_status status = any (λ s. s == status) rotate_statuses

-- `except CircuitOpenError`, which alone has this strategy
unfoldable pub is_circuit_open : Exc → Bool
is_circuit_open (retriable f) = str_eq f.strategy "circuit-breaker"
is_circuit_open (lease_lost _) = false
is_circuit_open cancelled = false
is_circuit_open (other _) = false

-- The call of the stack, with the breaker that all stacks share.
unfoldable pub ask :
    Pass
    → String
    → Bool
    → SessionLane
    → ZakupSkAdapter
    → Result ApiResponse × SessionLane × ZakupSkAdapter
ask p key is_discovery lane c =
    let (r, s) =
      request_locked p.answers key is_discovery
        (record lane.stack { source_breaker = c.source_breaker }) in
    (r, record lane { stack = s }, record c { source_breaker = s.source_breaker })

-- The lane's breaker after the request, and whether the lane is exhausted.
unfoldable pub judge : ℕ → Bool → Result ApiResponse → CircuitBreaker → CircuitBreaker × Bool
unfolding is_rotate_status is_circuit_open
judge now rotates (ok r) b = (
  if is_rotate_status r.status && not (is_blocked_status r.status)
      then (record_transport_failure b now).1
      else b,
  is_rotate_status r.status && rotates,
)
judge now rotates (raised cancelled) b = (b, false)
judge now rotates (raised e) b =
    if is_circuit_open e
    then (b, true)
    else let (opened, b') = record_transport_failure b now in (b', opened || rotates)

-- `finally`: the stack that was asked is put back and released.
unfoldable pub finish_attempt :
    Pass → Bool → ℕ → Result ApiResponse → SessionLane → ZakupSkAdapter → ZakupSkAdapter
unfolding judge
finish_attempt p rotates index r lane c =
    let (b, exhausted) = judge p.released_at rotates r lane.stack.lane_breaker in
    let asked = record lane { stack = record lane.stack { lane_breaker = b }; in_use = true } in
    release_stack (record c { stacks = set c.stacks index asked }) p.released_at index asked
      (exhausted || is_open b.state) true p.rotation

-- After the release: an answer is returned or kept, and an exception is kept.
unfoldable pub conclude : Result ApiResponse → Progress → Next
unfolding is_rotate_status
conclude (ok r) q =
    if not (is_rotate_status r.status)
    then returns r q
    else goes_on (record q { last_response = some r })
conclude (raised cancelled) q = throws cancelled q
conclude (raised e) q = goes_on (record q { last_error = some e })

unfoldable pub attempt : Pass → String → Bool → Bool → ℕ → SessionLane → Progress → Next
unfolding ask finish_attempt conclude
attempt p key is_discovery rotates index lane q =
    let (r, asked, c) = ask p key is_discovery lane q.adapter in
    conclude r (record q {
      adapter = finish_attempt p rotates index r asked c;
      attempted = lane.stack_object ∷ q.attempted;
      attempts = q.attempts + 1;
    })

-- What the pass over the lanes has given: a stack beyond its time is released, not asked.
unfoldable pub use_acquired : Pass → String → Bool → Bool → Acquired → Progress → Next
unfolding attempt
use_acquired p key is_discovery rotates (acquired index lane) q =
    if lane_ttl_expired q.adapter p.acquired_at lane
    then goes_on (record q {
      adapter = release_stack q.adapter p.released_at index lane true false p.rotation;
    })
    else attempt p key is_discovery rotates index lane q
use_acquired p key is_discovery rotates waits q = goes_on q
use_acquired p key is_discovery rotates no_lane q = stops q
use_acquired p key is_discovery rotates (raises e) q = throws e q

-- The body of the loop.
unfoldable pub request_pass : Pass → String → Bool → Bool → Progress → Next
unfolding use_acquired
request_pass p key is_discovery rotates q =
    let (found, c) = acquire_stack p.acquired_at q.attempted (p.others q.adapter) in
    use_acquired p key is_discovery rotates found (record q { adapter = c })

-- `max(1, math.ceil((until - now).total_seconds()))`, if the cooldown is not over
unfoldable pub remaining : ℕ → CircuitBreaker → Option ℕ
remaining now b = elim (cooldown_until b) [
  | none ↦ none
  | some until ↦ if ltb now until then some (until - now) else none
]

unfoldable pub min_delay : ℕ → List SessionLane → Option ℕ
unfolding remaining
min_delay now [] = none
min_delay now (l ∷ ls) = elim (remaining now l.stack.lane_breaker) [
  | none ↦ min_delay now ls
  | some d ↦ elim (min_delay now ls) [
    | none ↦ some d
    | some rest ↦ if leb d rest then some d else some rest
  ]
]

abbrev pub max_of : ℕ → ℕ → ℕ
max_of a b = if leb a b then b else a

abbrev pub delay_or : ℕ → Option ℕ → ℕ
delay_or default none = default
delay_or default (some d) = d

unfoldable pub unavailable_lane_delay : ℕ → ZakupSkAdapter → ℕ
unfolding min_delay
unavailable_lane_delay now c = max_of 1 (
    max_of (delay_or c.cooldown_seconds (min_delay now c.stacks))
      (delay_or 0 (remaining now c.source_breaker)))

-- After the loop.
unfoldable pub last_resort : ℕ → Progress → Result ApiResponse
last_resort now q = elim q.last_response [
  | some r ↦ ok r
  | none ↦ elim q.last_error [
    | some e ↦ raised e
    | none ↦ raised (
        retriable (record {
          message = "No Zakup session lane is currently available";
          delay_seconds = unavailable_lane_delay now q.adapter;
          strategy = "session-lane-pool";
          http_status = none;
        }))
  ]
]

-- The end of a pass; `rest` is what the loop does after it.
unfoldable pub continue_with :
    ℕ
    → Next
    → (Progress → Option (Result ApiResponse) × Progress)
    → Option (Result ApiResponse) × Progress
unfolding last_resort
continue_with now (goes_on q) rest = rest q
continue_with now (stops q) rest = (some (last_resort now q), q)
continue_with now (returns r q) rest = (some (ok r), q)
continue_with now (throws e q) rest = (some (raised e), q)

-- `while attempts < max_attempts`; `none` is a request that the passes leave under way.
request_loop :
    ℕ → ℕ → String → Bool → Bool → List Pass → Progress → Option (Result ApiResponse) × Progress
unfolding last_resort continue_with
request_loop now max_attempts key is_discovery rotates [] q =
    if ltb q.attempts max_attempts then (none, q) else (some (last_resort now q), q)
request_loop now max_attempts key is_discovery rotates (p ∷ ps) q =
    if not (ltb q.attempts max_attempts)
    then (some (last_resort now q), q)
    else continue_with now (request_pass p key is_discovery rotates q)
        (λ q'. request_loop now max_attempts key is_discovery rotates ps q')

unfoldable pub max_attempts_of : ZakupSkAdapter → ℕ
max_attempts_of c =
    if can_rotate c then max_of (length c.stacks) c.max_attempts else length c.stacks

abbrev pub started : ZakupSkAdapter → Progress
started c = record {
  adapter = c;
  attempted = [];
  attempts = 0;
  last_response = none;
  last_error = none;
}

-- `now` is the instant at which the delay is read.
unfoldable pub request :
    ℕ → String → Bool → List Pass → ZakupSkAdapter → Option (Result ApiResponse) × Progress
unfolding request_loop
request now key is_discovery passes c =
    request_loop now (max_attempts_of c) key is_discovery (can_rotate c) passes (started c)
