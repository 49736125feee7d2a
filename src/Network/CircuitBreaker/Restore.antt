-- ===== src/Network/CircuitBreaker/Restore.antt =====
-- What is left of a breaker of infrastructure/network/circuit_breaker.py that was stored as its
-- state's text, its count and `cooldown_until`, and read back by `restore`.
use govpars.Prelude.{ℕ, ◌≡◌, refl, false, some, arith}
use govpars.Domain.Errors.{ok}
use govpars.Network.CircuitBreaker.{
  CircuitBreaker, BreakerState, closed, open_state, half_open, state_value, parse_state, restore,
  cooldown_until, is_available,
}
use govpars.Network.CircuitBreaker.Trips.{IsValid}

-- the text of a state is read back as that state
pub parse_state-state_value : (s : BreakerState) → parse_state (state_value s) ≡ some s
unfolding parse_state state_value
parse_state-state_value closed = refl
parse_state-state_value open_state = refl
parse_state-state_value half_open = refl

-- A valid breaker's stored state, read back into any breaker with the same cooldown, is accepted;
-- the state and the count come back, the probe mark is cleared, and the breaker is available at
-- the same instants and reports the same end of its cooldown.
pub restore_lem :
    (b fresh : CircuitBreaker) (now : ℕ)
    → IsValid b
    → fresh.cooldown ≡ b.cooldown
    → let (r, b') = restore fresh (state_value b.state) b.consecutive_blocks (cooldown_until b) in
      (r ≡ ok tt)
      × (b'.state ≡ b.state)
      × (b'.consecutive_blocks ≡ b.consecutive_blocks)
      × (b'.half_open_probe_active ≡ false)
      × (is_available b' now ≡ is_available b now)
      × (cooldown_until b' ≡ cooldown_until b)
unfolding restore cooldown_until is_available
restore_lem b fresh now v e = ground (arith, parse_state-state_value b.state)
