-- ===== src/Network/CircuitBreaker/Trips.antt =====
-- What a sequence of reports to the breaker of infrastructure/network/circuit_breaker.py leads to.
use govpars.Prelude.{
  ℕ, ◌+◌, ◌≤◌, ◌<◌, String, ◌≡◌, refl, ◌≢◌, inl, inr, Bool, true, Option, none, some, List, [], ◌∷◌,
  arith, leb, Option-cases, length,
}
use govpars.Network.CircuitBreaker.{
  CircuitBreaker, BreakerState, closed, open_state, half_open, is_open, allow, record_success,
  record_transport_failure, record_status, is_blocked, parse_state, state_value, restore,
  restored_opened_at, cooldown_until,
}

-- One finished request, and the instant of its report.
pub data Report : Type 0 where
  status : ℕ → Report
  transport_failure : Report

unfoldable pub observe : CircuitBreaker → ℕ × Report → CircuitBreaker
unfolding record_status
observe b (now, status code) = (record_status b now code).1
observe b (now, transport_failure) = (record_transport_failure b now).1

unfoldable pub observe_all : CircuitBreaker → List (ℕ × Report) → CircuitBreaker
observe_all b [] = b
observe_all b (r ∷ rs) = observe_all (observe b r) rs

unfoldable pub is_failure : CircuitBreaker → Report → Bool
unfolding is_blocked
is_failure b (status code) = is_blocked b code
is_failure b transport_failure = true

abbrev pub AllFailures : CircuitBreaker → List (ℕ × Report) → Type 0
AllFailures b [] = Unit {0}
AllFailures b ((now, r) ∷ rs) = (is_failure b r ≡ true) × AllFailures b rs

-- The breaker is closed or open, and its state says whether the count has reached the threshold.
record Counts (b : CircuitBreaker) (threshold cooldown : ℕ) (blocked : List ℕ) (n : ℕ)
    : Type 0 where
  same_threshold : b.threshold ≡ threshold
  same_cooldown : b.cooldown ≡ cooldown
  same_statuses : b.blocked_statuses ≡ blocked
  count : b.consecutive_blocks ≡ n
  tripped : is_open b.state ≡ leb threshold n
  no_probe : b.state ≢ half_open

failure-Counts :
    (b : CircuitBreaker) (now t c n : ℕ) (l : List ℕ) (r : Report)
    → Counts b t c l n
    → is_failure b r ≡ true
    → Counts (observe b (now, r)) t c l (n + 1)
unfolding observe is_failure
failure-Counts b now t c n l (status code) v h = ground arith
failure-Counts b now t c n l transport_failure v h = ground arith

-- a report that is a failure for one breaker is one for another with the same statuses
AllFailures-same :
    (b b' : CircuitBreaker) (rs : List (ℕ × Report))
    → b'.blocked_statuses ≡ b.blocked_statuses
    → AllFailures b rs
    → AllFailures b' rs
unfolding is_failure
AllFailures-same b b' [] e h = tt
AllFailures-same b b' ((now, status code) ∷ rs) e h = (rw e h.0, AllFailures-same b b' rs e h.1)
AllFailures-same b b' ((now, transport_failure) ∷ rs) e h = (refl, AllFailures-same b b' rs e h.1)

all-Counts :
    (b : CircuitBreaker) (rs : List (ℕ × Report)) (t c n : ℕ) (l : List ℕ)
    → Counts b t c l n
    → AllFailures b rs
    → Counts (observe_all b rs) t c l (n + length rs)
unfolding observe_all
all-Counts b [] t c n l v h = ground arith
all-Counts b ((now, r) ∷ rs) t c n l v h =
    let v' = failure-Counts b now t c n l r v h.0 in
    let same : (observe b (now, r)).blocked_statuses ≡ b.blocked_statuses =
      cc (v.same_statuses, v'.same_statuses) in
    let rest =
      all-Counts (observe b (now, r)) rs t c (n + 1) l v'
        (AllFailures-same b (observe b (now, r)) rs same h.1) in
    let e : n + 1 + length rs ≡ n + length ((now, r) ∷ rs) = omega arith in rw e at rest

-- A closed breaker with no counted block, given any sequence of reports that are all transport
-- failures or blocked statuses, counts every one of them, and is open after them exactly when
-- they are at least `threshold` many (`threshold` being positive).
pub trip_iff :
    (b : CircuitBreaker) (rs : List (ℕ × Report))
    → b.state ≡ closed
    → b.consecutive_blocks ≡ 0
    → 0 < b.threshold
    → AllFailures b rs
    → (is_open (observe_all b rs).state ≡ leb b.threshold (length rs))
      × ((observe_all b rs).consecutive_blocks ≡ length rs)
trip_iff b rs c z p h =
    let v = all-Counts b rs b.threshold b.cooldown 0 b.blocked_statuses start h in
    let e : 0 + length rs ≡ length rs = omega arith in (rw e at v.tripped, rw e at v.count)
  where
    start : Counts b b.threshold b.cooldown b.blocked_statuses 0
    start = ground arith

-- An operation on the breaker, at an instant.
pub data Operation : Type 0 where
  asks reports_success : Operation
  reports : Report → Operation
  restores : String → ℕ → Option ℕ → Operation

unfoldable pub operate : CircuitBreaker → ℕ → Operation → CircuitBreaker
unfolding allow record_success observe restore
operate b now asks = (allow b now).1
operate b now reports_success = record_success b
operate b now (reports r) = observe b (now, r)
operate b now (restores name blocks until) = (restore b name blocks until).1

-- The breaker remembers when it opened, and probes only half-open.
pub record IsValid (b : CircuitBreaker) : Type 0 where
  pub open_since : b.state ≡ open_state → b.opened_at ≢ none
  pub closed_clean : b.state ≡ closed → b.opened_at ≡ none
  pub probe_half_open : b.half_open_probe_active ≡ true → b.state ≡ half_open

-- An open state that is restored comes with the end of its cooldown, from which the instant of its
-- opening can be counted back.
abbrev pub IsRestorable : CircuitBreaker → Operation → Type 0
IsRestorable b (restores name blocks until) =
    parse_state name ≡ some open_state → (u : ℕ) × (until ≡ some u) × (b.cooldown ≤ u)
IsRestorable b _ = Unit {0}

is_open_named :
    (st : BreakerState) → parse_state (state_value st) ≡ some open_state → st ≡ open_state
unfolding parse_state state_value
is_open_named closed h = ground (arith, h)
is_open_named open_state h = refl
is_open_named half_open h = ground (arith, h)

-- What is saved of a valid breaker can be restored by one with the same cooldown.
saved-IsRestorable :
    (b b' : CircuitBreaker)
    → IsValid b
    → b'.cooldown ≡ b.cooldown
    → IsRestorable b' (restores (state_value b.state) b.consecutive_blocks (cooldown_until b))
unfolding cooldown_until
saved-IsRestorable b b' v same named = elim (Option-cases b.opened_at) [
  | inl n ↦ absurd (ground (arith, is_open_named b.state named))
  | inr (at, e) ↦
      let opened = is_open_named b.state named in
      (at + b.cooldown, ground (arith, opened), omega (arith, same))
]

restored-IsValid :
    (b : CircuitBreaker) (name : String) (blocks : ℕ) (until : Option ℕ) (st : BreakerState)
    → parse_state name ≡ some st
    → IsRestorable b (restores name blocks until)
    → IsValid (restore b name blocks until).1
unfolding restore restored_opened_at
restored-IsValid b name blocks until closed e r = ground (arith, e)
restored-IsValid b name blocks until half_open e r = ground (arith, e)
restored-IsValid b name blocks until open_state e r =
    let (u, there, long) = r e in ground (arith, e, there, long)

restore-IsValid :
    (b : CircuitBreaker) (name : String) (blocks : ℕ) (until : Option ℕ)
    → IsRestorable b (restores name blocks until)
    → IsValid b
    → IsValid (restore b name blocks until).1
unfolding restore
restore-IsValid b name blocks until r v = elim (Option-cases (parse_state name)) [
  | inl n ↦ ground (arith, n, v)
  | inr (st, e) ↦ restored-IsValid b name blocks until st e r
]

-- Every operation at every instant keeps a breaker valid: an open one has the instant of its
-- opening, a closed one has none, and a probe is marked only in the half-open state. The operations
-- are `allow`, the reports and `restore`; an open state that is restored must come with the end of
-- its cooldown, which is no earlier than the cooldown is long.
pub operate-IsValid :
    (b : CircuitBreaker) (now : ℕ) (op : Operation)
    → IsRestorable b op
    → IsValid b
    → IsValid (operate b now op)
unfolding operate
operate-IsValid b now asks r v = ground arith
operate-IsValid b now reports_success r v = ground arith
operate-IsValid b now (reports (status code)) r v = ground arith
operate-IsValid b now (reports transport_failure) r v = ground arith
operate-IsValid b now (restores name blocks until) r v = restore-IsValid b name blocks until r v
