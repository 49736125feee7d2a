-- ===== src/Sources/Strategies.antt =====
-- `ZakupStrategyStack` of infrastructure/sources/zakup_sk/strategies.py: one request through the
-- breakers of the source and of the lane, and the strategies in their order. The stack holds its lock
-- for the whole request. What the browser and the strategies give is a record; `request_profile_key`
-- and the test of the address for a discovery page are arguments.
pub mod Tells
pub mod Reports
pub mod Order
use govpars.Prelude.{
  ℕ, String, Bool, false, ◌&&◌, ◌||◌, Option, none, some, List, ◌∷◌, ◌==◌, if◌then◌else◌,
}
use govpars.Prelude.Dict.{get, put}
use govpars.Domain.Errors.{Exc, Result, ok, raised}
use govpars.Network.CircuitBreaker
use govpars.Network.CircuitBreaker.{CircuitBreaker, allow, record_success, record_status}

-- The fields of a profile that the stack reads or that identify it.
pub record RequestProfile : Type 0 where
  pub url_pattern : String
  pub browser_only : Bool

pub record ApiResponse : Type 0 where
  pub status : ℕ
  pub data_text : String
  pub strategy : String

pub data StrategyCall : Type 0 where
  direct_request intercept_request browser_fetch_request : Option RequestProfile → StrategyCall
  browser_start dom_request : StrategyCall

-- The stack; `calls` are the requests that it has made, the last first.
pub record Stack : Type 0 where
  pub lane_breaker : CircuitBreaker
  pub source_breaker : CircuitBreaker
  pub profiles : List (String × RequestProfile)
  pub calls : List StrategyCall

-- What happens in one request: the instants at which the breakers are asked and told, the profiles
-- that the browser has at the three places, and what each call gives.
pub record Answers : Type 0 where
  pub source_asked : ℕ
  pub lane_asked : ℕ
  pub lane_told : ℕ
  pub source_told : ℕ
  pub browser_profile : Option RequestProfile
  pub direct : Result ApiResponse
  pub start : Result (Unit {0})
  pub captured : Option RequestProfile
  pub direct_again : Result ApiResponse
  pub intercept : Result ApiResponse
  pub captured_later : Option RequestProfile
  pub browser_fetch : Result ApiResponse
  pub intercept_again : Result ApiResponse
  pub dom_fallback : Result ApiResponse

abbrev pub Step : Type 0 → Type 0
Step A = Stack → Result A × Stack

abbrev pub continue_with : {A B : Type 0} → Result A × Stack → (A → Step B) → Result B × Stack
continue_with (ok a, s) f = f a s
continue_with (raised e, s) f = (raised e, s)

infixl 10 ◌>>=◌ ◌>>◌
abbrev pub ◌>>=◌ : {A B : Type 0} → Step A → (A → Step B) → Step B
(m >>= f) s = continue_with (m s) f

abbrev pub ◌>>◌ : {A B : Type 0} → Step A → Step B → Step B
m >> k = m >>= λ _. k

abbrev pub call : {A : Type 0} → StrategyCall → Result A → Step A
call c r s = (r, record s { calls = c ∷ s.calls })

-- `status in {403, 418, 429}`
unfoldable pub is_blocked_status : ℕ → Bool
is_blocked_status status = status == 403 || (status == 418 || status == 429)

abbrev pub is_blocked : ApiResponse → Bool
is_blocked r = is_blocked_status r.status

-- `await self.source_breaker.allow()`, then the lane's
unfoldable pub allow_source : Answers → Step (Unit {0})
allow_source a s =
    let (r, b) = allow s.source_breaker a.source_asked in (r, record s { source_breaker = b })

unfoldable pub allow_lane : Answers → Step (Unit {0})
allow_lane a s =
    let (r, b) = allow s.lane_breaker a.lane_asked in (r, record s { lane_breaker = b })

-- What both breakers are told of a response that is returned.
unfoldable pub told : ℕ → ApiResponse → CircuitBreaker → CircuitBreaker
told now r b = if is_blocked r then (record_status b now r.status).1 else record_success b

unfoldable pub respond : Answers → ApiResponse → Step ApiResponse
unfolding told
respond a r s = (
  ok r,
  record s {
    lane_breaker = told a.lane_told r s.lane_breaker;
    source_breaker = told a.source_told r s.source_breaker;
  },
)

-- `self.profiles[profile_key] = profile`, if there is one
unfoldable pub keep_profile : String → Option RequestProfile → Step (Unit {0})
keep_profile key none s = (ok tt, s)
keep_profile key (some p) s = (ok tt, record s { profiles = put s.profiles key p })

-- The last stage: the DOM, for discovery pages only.
unfoldable pub dom_stage : Answers → Bool → ApiResponse → Step ApiResponse
dom_stage a is_discovery r =
    if is_blocked r && is_discovery
    then call dom_request a.dom_fallback >>= respond a
    else respond a r

unfoldable pub browser_request : Answers → Bool → Option RequestProfile → Step ApiResponse
browser_request a is_discovery profile = do
  r ← call (browser_fetch_request profile) a.browser_fetch
  if is_blocked r
      then call (intercept_request profile) a.intercept_again >>= dom_stage a is_discovery
      else dom_stage a is_discovery r

abbrev pub is_browser_only : Option RequestProfile → Bool
is_browser_only none = false
is_browser_only (some p) = p.browser_only

-- After a start of the browser that captured the profile `p`.
unfoldable pub with_captured : Answers → String → Bool → RequestProfile → Step ApiResponse
unfolding browser_request
with_captured a key is_discovery p =
    keep_profile key (some p)
    >> (if p.browser_only
        then browser_request a is_discovery (some p)
        else call (direct_request (some p)) a.direct_again >>= λ refreshed.
            if is_blocked refreshed
            then browser_request a is_discovery (some p)
            else respond a refreshed)

-- After one that captured none.
unfoldable pub without_captured : Answers → String → Bool → Step ApiResponse
unfolding browser_request
without_captured a key is_discovery = do
  intercepted ← call (intercept_request none) a.intercept
  _ ← keep_profile key a.captured_later
  if is_blocked intercepted
      then browser_request a is_discovery a.captured_later
      else respond a intercepted

unfoldable pub captured_stage : Answers → String → Bool → Option RequestProfile → Step ApiResponse
unfolding with_captured without_captured
captured_stage a key is_discovery none = without_captured a key is_discovery
captured_stage a key is_discovery (some p) = with_captured a key is_discovery p

-- The browser is started after a blocked direct request.
unfoldable pub escalate : Answers → String → Bool → Step ApiResponse
unfolding captured_stage
escalate a key is_discovery =
    call browser_start a.start >> captured_stage a key is_discovery a.captured

-- `self.profiles.get(profile_key) or self.browser.get_profile(method, url)`
unfoldable pub known_profile : Answers → String → Stack → Option RequestProfile
known_profile a key s = elim (get s.profiles key) [ some p ↦ some p | none ↦ a.browser_profile ]

-- From the known profile on.
unfoldable pub request_with : Answers → String → Bool → Option RequestProfile → Step ApiResponse
unfolding escalate
request_with a key is_discovery profile =
    keep_profile key profile
    >> (if is_browser_only profile
        then call (intercept_request profile) a.intercept >>= respond a
        else call (direct_request profile) a.direct >>= λ r.
            if is_blocked r then escalate a key is_discovery else respond a r)

unfoldable pub request_locked : Answers → String → Bool → Step ApiResponse
unfolding allow_source allow_lane request_with known_profile
request_locked a key is_discovery =
    allow_source a
    >> (allow_lane a >> λ s. request_with a key is_discovery (known_profile a key s) s)
