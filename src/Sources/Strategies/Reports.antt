-- ===== src/Sources/Strategies/Reports.antt =====
-- What a request through the stack of infrastructure/sources/zakup_sk/strategies.py leaves in the two
-- breakers.
use govpars.Prelude.{
  ℕ, String, ◌≡◌, refl, sym, ap, ◌∙◌, subst, ◌≢◌, inl, inr, Bool, false, ◌&&◌, arith,
}
use govpars.Domain.Errors.{Exc, Result, ok, raised, Result-cases, circuit_open_error}
use govpars.Network.CircuitBreaker.{CircuitBreaker, allow, closed}
use govpars.Network.CircuitBreaker.Gate.{is_ok, allow-allow}
use govpars.Sources.Strategies.{
  ApiResponse, Stack, Answers, told, known_profile, request_with, request_locked,
}
use govpars.Sources.Strategies.Tells.{Tells, request_with-Tells}

-- What a request does with the breakers that were asked: `b` is the source's after `allow`.
request_locked_lem :
    (a : Answers) (key : String) (d : Bool) (s : Stack) (b c : CircuitBreaker)
    → allow s.source_breaker a.source_asked ≡ (ok tt, b)
    → allow s.lane_breaker a.lane_asked ≡ (ok tt, c)
    → let u = record s { source_breaker = b; lane_breaker = c } in
      request_locked a key d s ≡ request_with a key d (known_profile a key u) u
unfolding request_locked
request_locked_lem a key d s b c h k = ground arith

refused_by_source :
    (a : Answers) (key : String) (d : Bool) (s : Stack) (e : Exc) (b : CircuitBreaker)
    → allow s.source_breaker a.source_asked ≡ (raised e, b)
    → request_locked a key d s ≡ (raised e, record s { source_breaker = b })
unfolding request_locked
refused_by_source a key d s e b h = ground arith

refused_by_lane :
    (a : Answers) (key : String) (d : Bool) (s : Stack) (e : Exc) (b c : CircuitBreaker)
    → allow s.source_breaker a.source_asked ≡ (ok tt, b)
    → allow s.lane_breaker a.lane_asked ≡ (raised e, c)
    → request_locked a key d s ≡ (raised e, record s { source_breaker = b; lane_breaker = c })
unfolding request_locked
refused_by_lane a key d s e b c h k = ground arith

-- How a request through the breakers ends: for each breaker, the state after `allow`.
abbrev pub Reported : Answers → Stack → Result ApiResponse × Stack → Type 0
Reported a s (ok r, s') =
    (b : CircuitBreaker) × (c : CircuitBreaker) × (allow s.source_breaker a.source_asked
      ≡ (ok tt, b))
    × (allow s.lane_breaker a.lane_asked ≡ (ok tt, c))
    × (s'.source_breaker ≡ told a.source_told r b)
    × (s'.lane_breaker ≡ told a.lane_told r c)
Reported a s (raised e, s') = s'.source_breaker ≡ (allow s.source_breaker a.source_asked).1

Tells-Reported :
    (a : Answers) (s : Stack) (b c : CircuitBreaker) (e : Result ApiResponse × Stack)
    → allow s.source_breaker a.source_asked ≡ (ok tt, b)
    → allow s.lane_breaker a.lane_asked ≡ (ok tt, c)
    → Tells a (record s { source_breaker = b; lane_breaker = c }) e
    → Reported a s e
Tells-Reported a s b c (ok r, s') h k (l, m) = (b, c, h, k, m, l)
Tells-Reported a s b c (raised e, s') h k (l, m) = m ∙ sym (ap (λ p. p.1) h)

-- A request that gives a response was let through by both breakers, and each of them is told of
-- exactly that response, at the end: of a block if its status is 403, 418 or 429, and of a success
-- otherwise, whatever the strategies tried before gave. A request that raises leaves the source's
-- breaker as `allow` left it.
pub request_locked-Reported :
    (a : Answers) (key : String) (d : Bool) (s : Stack) → Reported a s (request_locked a key d s)
request_locked-Reported a key d s = elim (Result-cases (allow s.source_breaker a.source_asked).0) [
  | inr (e, h) ↦
      let p : allow s.source_breaker a.source_asked ≡ (raised e, _) =
        ap (λ r. (r, (allow s.source_breaker a.source_asked).1)) h in
      rw (refused_by_source a key d s e _ p) refl
  | inl (_, h) ↦
      let p : allow s.source_breaker a.source_asked ≡ (ok tt, _) =
        ap (λ r. (r, (allow s.source_breaker a.source_asked).1)) h in
      elim (Result-cases (allow s.lane_breaker a.lane_asked).0) [
        | inr (e, k) ↦
            let q : allow s.lane_breaker a.lane_asked ≡ (raised e, _) =
              ap (λ r. (r, (allow s.lane_breaker a.lane_asked).1)) k in
            rw (refused_by_lane a key d s e _ _ p q) refl
        | inl (_, k) ↦
            let q : allow s.lane_breaker a.lane_asked ≡ (ok tt, _) =
              ap (λ r. (r, (allow s.lane_breaker a.lane_asked).1)) k in
            rw (request_locked_lem a key d s _ _ p q)
              (Tells-Reported a s _ _ _ p q (request_with-Tells a key d _ _))
      ]
]

-- No request is made when one of the breakers refuses it.
pub request_locked-refused :
    (a : Answers) (key : String) (d : Bool) (s : Stack)
    → (is_ok (allow s.source_breaker a.source_asked).0
        && is_ok (allow s.lane_breaker a.lane_asked).0)
      ≡ false
    → (is_ok (request_locked a key d s).0 ≡ false) × ((request_locked a key d s).1.calls ≡ s.calls)
unfolding request_locked
request_locked-refused a key d s h = ground arith

-- When the breaker of the source is not closed, a request that it lets through and that then raises,
-- in a strategy or because the lane's breaker refuses, leaves the probe running: the source's
-- breaker refuses every later request, at any instant.
pub request_locked-allow :
    (a : Answers) (key : String) (d : Bool) (s s' : Stack) (b : CircuitBreaker) (e : Exc)
    (later : ℕ)
    → s.source_breaker.state ≢ closed
    → allow s.source_breaker a.source_asked ≡ (ok tt, b)
    → request_locked a key d s ≡ (raised e, s')
    → allow s'.source_breaker later
      ≡ (raised (circuit_open_error "Half-open probe is already running"), s'.source_breaker)
request_locked-allow a key d s s' b e later ne h k =
    let r : Reported a s (raised e, s') =
      subst (Reported a s) k (request_locked-Reported a key d s) in
    let same : s'.source_breaker ≡ b = r ∙ ap (λ p. p.1) h in
    rw same (allow-allow s.source_breaker a.source_asked later ne h)
