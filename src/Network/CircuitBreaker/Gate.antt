-- ===== src/Network/CircuitBreaker/Gate.antt =====
-- Whom `allow` of infrastructure/network/circuit_breaker.py lets through.
use govpars.Prelude.{ℕ, ◌+◌, ◌≡◌, ◌≢◌, Bool, true, false, some, arith, leb, if◌then◌else◌}
use govpars.Domain.Errors.{Result, ok, raised, circuit_open_error}
use govpars.Network.CircuitBreaker.{
  CircuitBreaker, closed, open_state, half_open, allow, is_available, record_success,
  record_transport_failure,
}

abbrev pub is_ok {ℓ} : {A : Type ℓ} → Result A → Bool
is_ok (ok _) = true
is_ok (raised _) = false

-- While the breaker is not closed, one request is let through at a time: after `allow` has let
-- one through, `allow` refuses every further one, at any later or earlier instant, and changes
-- nothing, until a result is reported.
pub allow-allow :
    (b : CircuitBreaker) (now later : ℕ) {b' : CircuitBreaker}
    → b.state ≢ closed
    → allow b now ≡ (ok tt, b')
    → allow b' later ≡ (raised (circuit_open_error "Half-open probe is already running"), b')
unfolding allow
allow-allow b now later ne h = ground arith

-- When a failure has opened the breaker at `now`, `allow` at any instant succeeds exactly when
-- the cooldown has passed, and then starts a probe in the half-open state; before that it changes
-- nothing. `is_available` gives the same answer.
pub cooldown_exact :
    (b : CircuitBreaker) (now later : ℕ) {b' : CircuitBreaker}
    → record_transport_failure b now ≡ (true, b')
    → (is_ok (allow b' later).0 ≡ leb (now + b.cooldown) later)
      × (is_available b' later ≡ leb (now + b.cooldown) later)
      × ((allow b' later).1 ≡ (
          if leb (now + b.cooldown) later
          then record b' { state = half_open; half_open_probe_active = true }
          else b'))
unfolding allow is_available record_transport_failure
cooldown_exact b now later h = ground arith

-- After a probe has been let through a breaker that is not closed, its failure opens the breaker
-- again from the instant of the failure, whatever the threshold, and its success closes the
-- breaker with no block counted.
pub probe_decides :
    (b : CircuitBreaker) (now later : ℕ) {b' : CircuitBreaker}
    → b.state ≢ closed
    → allow b now ≡ (ok tt, b')
    → ((record_transport_failure b' later).0 ≡ true)
      × ((record_transport_failure b' later).1.state ≡ open_state)
      × ((record_transport_failure b' later).1.opened_at ≡ some later)
      × ((record_success b').state ≡ closed)
      × ((record_success b').consecutive_blocks ≡ 0)
unfolding allow record_transport_failure record_success
probe_decides b now later ne h = ground arith
