-- ===== src/Network/CircuitBreaker.antt =====
-- infrastructure/network/circuit_breaker.py. An instant is the number of seconds since the least
-- `datetime`, so that a subtraction below it raises as in Python; `datetime.now` is an argument.
-- Each method holds the breaker's lock from its first to its last access and is one step here.
pub mod Gate
pub mod Trips
pub mod Restore
use govpars.Prelude.{
  ℕ, ◌+◌, ◌-◌, String, Bool, true, false, not, ◌||◌, Option, none, some, List, [], ◌∷◌, str_eq, ltb,
  leb, ◌==◌, if◌then◌else◌, any,
}
use govpars.Domain.Errors.{Result, ok, raised, circuit_open_error, plain_error}

pub data BreakerState : Type 0 where
  closed open_state half_open : BreakerState

-- `state == BreakerState.CLOSED`, and the two others
abbrev pub is_closed : BreakerState → Bool
is_closed closed = true
is_closed _ = false

abbrev pub is_open : BreakerState → Bool
is_open open_state = true
is_open _ = false

abbrev pub is_half_open : BreakerState → Bool
is_half_open half_open = true
is_half_open _ = false

-- `state.value`, and `BreakerState(value)`, which raises for any other text
unfoldable pub state_value : BreakerState → String
state_value closed = "closed"
state_value open_state = "open"
state_value half_open = "half_open"

unfoldable pub parse_state : String → Option BreakerState
parse_state s =
    if str_eq s "closed"
    then some closed
    else if str_eq s "open"
    then some open_state
    else if str_eq s "half_open"
    then some half_open
    else none

pub record CircuitBreaker : Type 0 where
  pub threshold : ℕ
  pub cooldown : ℕ
  pub blocked_statuses : List ℕ
  pub state : BreakerState
  pub consecutive_blocks : ℕ
  pub opened_at : Option ℕ
  pub half_open_probe_active : Bool

-- `blocked_statuses or {403, 418, 429}`: the empty set counts as missing
abbrev pub statuses_or_default : Option (List ℕ) → List ℕ
statuses_or_default (some (x ∷ xs)) = x ∷ xs
statuses_or_default _ = 403 ∷ 418 ∷ 429 ∷ []

unfoldable pub new : ℕ → ℕ → Option (List ℕ) → CircuitBreaker
new threshold cooldown_seconds blocked = record {
  threshold = threshold;
  cooldown = cooldown_seconds;
  blocked_statuses = statuses_or_default blocked;
  state = closed;
  consecutive_blocks = 0;
  opened_at = none;
  half_open_probe_active = false;
}

-- The right side of the assignment to `opened_at`; `none` is an `OverflowError`.
restored_opened_at : BreakerState → Option ℕ → ℕ → Option (Option ℕ)
restored_opened_at open_state (some until) cooldown =
    if leb cooldown until then some (some (until - cooldown)) else none
restored_opened_at _ _ cooldown = some none

unfoldable pub restore : CircuitBreaker → String → ℕ → Option ℕ → Result (Unit {0}) × CircuitBreaker
unfolding restored_opened_at
restore b name blocks cooldown_until = elim (parse_state name) [
  | none ↦ (raised (plain_error "ValueError"), b)
  | some st ↦
      let b' = record b { state = st; consecutive_blocks = blocks } in
      elim (restored_opened_at st cooldown_until b.cooldown) [
        | none ↦ (raised (plain_error "OverflowError"), b')
        | some at ↦ (ok tt, record b' { opened_at = at; half_open_probe_active = false })
      ]
]

unfoldable pub cooldown_until : CircuitBreaker → Option ℕ
cooldown_until b =
    if is_open b.state
    then elim b.opened_at [ none ↦ none | some at ↦ some (at + b.cooldown) ]
    else none

-- `not self.opened_at or now - self.opened_at < self.cooldown`
abbrev pub is_cooling : CircuitBreaker → ℕ → Bool
is_cooling b now = elim b.opened_at [ none ↦ true | some at ↦ ltb now (at + b.cooldown) ]

-- The second half of `allow`: at most one probe at a time.
start_probe : CircuitBreaker → Result (Unit {0}) × CircuitBreaker
start_probe b =
    if b.half_open_probe_active
    then (raised (circuit_open_error "Half-open probe is already running"), b)
    else (ok tt, record b { half_open_probe_active = true })

unfoldable pub allow : CircuitBreaker → ℕ → Result (Unit {0}) × CircuitBreaker
unfolding start_probe
allow b now =
    if is_closed b.state
    then (ok tt, b)
    else if is_open b.state
    then if is_cooling b now
      then (raised (circuit_open_error "Circuit breaker is in cooldown"), b)
      else start_probe (record b { state = half_open })
    else start_probe b

unfoldable pub is_available : CircuitBreaker → ℕ → Bool
is_available b now = if not (is_open b.state) then true else not (is_cooling b now)

unfoldable pub record_success : CircuitBreaker → CircuitBreaker
record_success b = record b {
  state = closed;
  consecutive_blocks = 0;
  opened_at = none;
  half_open_probe_active = false;
}

-- `status in self.blocked_statuses`
unfoldable pub is_blocked : CircuitBreaker → ℕ → Bool
is_blocked b status = any (λ s. s == status) b.blocked_statuses

unfoldable pub record_transport_failure : CircuitBreaker → ℕ → Bool × CircuitBreaker
record_transport_failure b now =
    let b' = record b {
      consecutive_blocks = b.consecutive_blocks + 1;
      half_open_probe_active = false;
    } in
    if is_half_open b'.state || leb b'.threshold b'.consecutive_blocks
    then (true, record b' { state = open_state; opened_at = some now })
    else (false, b')

-- The locked part of `record_status` repeats the text of `record_transport_failure`.
unfoldable pub record_status : CircuitBreaker → ℕ → ℕ → Bool × CircuitBreaker
unfolding is_blocked record_success record_transport_failure
record_status b now status =
    if is_blocked b status then record_transport_failure b now else (false, record_success b)
