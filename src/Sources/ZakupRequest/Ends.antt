-- ===== src/Sources/ZakupRequest/Ends.antt =====
-- When `_request` of infrastructure/sources/zakup_sk/adapter.py ends.
use govpars.Prelude.{
  ℕ, ◌+◌, ◌≤◌, String, ◌≡◌, refl, sym, ap, ◌∙◌, inl, inr, Bool, true, false, ◌||◌, Option, some,
  List, [], ◌∷◌, arith, ltb, ltb→lt, Bool-cases, length, set, any,
}
use govpars.Domain.Errors.{Result, ok, raised}
use govpars.Network.CircuitBreaker.{is_open}
use govpars.Sources.Strategies.{ApiResponse}
use govpars.Sources.ZakupPool.{
  SessionLane, ZakupSkAdapter, Acquired, acquired, waits, no_lane, raises, can_rotate,
}
use govpars.Sources.ZakupPool.Quiet.{
  any_in_use, is_wait, acquire_stack_quiet, lane_ttl_expired_none, release_stack-SameLimit,
}
use govpars.Sources.ZakupRequest.{
  ask, finish_attempt, continue_with, Pass, Progress, Next, goes_on, stops, returns, throws,
  attempt, use_acquired, request_pass, request_loop, request, max_attempts_of, started, last_resort,
  judge,
}
use govpars.Sources.ZakupRequest.Attempts.{progress_of, continues, attempt-counts}
use govpars.Sources.ZakupRequest.Flags.{flags, request_pass-flags, conclude-adapter}

-- No stack is in use, and a stack may be used without a limit of time.
abbrev pub IsQuiet : ZakupSkAdapter → Type 0
IsQuiet c = (any_in_use c.stacks ≡ false) × (c.sticky_ttl_seconds ≡ 0)

-- Before each pass the other requests have left the adapter so.
abbrev pub AreQuiet : List Pass → Type 0
AreQuiet [] = Unit {0}
AreQuiet (p ∷ ps) = ((c : ZakupSkAdapter) → IsQuiet c → IsQuiet (p.others c)) × AreQuiet ps

any-flags : (ls : List SessionLane) → any (λ b. b) (flags ls) ≡ any_in_use ls
any-flags [] = refl
any-flags (l ∷ ls) = ground (arith, any-flags ls)

finish_attempt_limit :
    (p : Pass) (rotates : Bool) (index : ℕ) (r : Result ApiResponse) (lane : SessionLane)
    (c : ZakupSkAdapter)
    → (finish_attempt p rotates index r lane c).sticky_ttl_seconds ≡ c.sticky_ttl_seconds
unfolding finish_attempt
finish_attempt_limit p rotates index r lane c =
    let b = judge p.released_at rotates r lane.stack.lane_breaker in
    let asked = record lane { stack = record lane.stack { lane_breaker = b.0 }; in_use = true } in
    release_stack-SameLimit (record c { stacks = set c.stacks index asked }) p.released_at index
      asked (b.1 || is_open b.0.state) true p.rotation

attempt_limit :
    (p : Pass) (key : String) (is_discovery rotates : Bool) (index : ℕ) (lane : SessionLane)
    (q : Progress)
    → (progress_of (attempt p key is_discovery rotates index lane q)).adapter.sticky_ttl_seconds
      ≡ q.adapter.sticky_ttl_seconds
unfolding attempt ask
attempt_limit p key is_discovery rotates index lane q =
    let answer = ask p key is_discovery lane q.adapter in
    ap (λ (c : ZakupSkAdapter). c.sticky_ttl_seconds)
      (conclude-adapter answer.0 (record q {
        adapter = finish_attempt p rotates index answer.0 answer.1 answer.2;
        attempted = lane.stack_object ∷ q.attempted;
        attempts = q.attempts + 1;
      }))
    ∙ finish_attempt_limit p rotates index answer.0 answer.1 answer.2

-- A pass that does not wait and finds no stack beyond its time asks one, or is the last.
abbrev Advances : Progress → Next → Type 0
Advances q n =
    (continues n ≡ true → (progress_of n).attempts ≡ q.attempts + 1)
    × ((progress_of n).adapter.sticky_ttl_seconds ≡ 0)

use_acquired-Advances :
    (p : Pass) (key : String) (is_discovery rotates : Bool) (found : Acquired) (q : Progress)
    → is_wait found ≡ false
    → q.adapter.sticky_ttl_seconds ≡ 0
    → Advances q (use_acquired p key is_discovery rotates found q)
unfolding use_acquired
use_acquired-Advances p key is_discovery rotates (acquired index lane) q w t =
    rw (lane_ttl_expired_none q.adapter p.acquired_at lane t) (
      λ _. ap (λ x. x.1) (attempt-counts p key is_discovery rotates index lane q),
      attempt_limit p key is_discovery rotates index lane q ∙ t,
    )
use_acquired-Advances p key is_discovery rotates waits q w t = absurd (ground arith)
use_acquired-Advances p key is_discovery rotates no_lane q w t = (λ h. absurd (ground arith), t)
use_acquired-Advances p key is_discovery rotates (raises e) q w t = (λ h. absurd (ground arith), t)

request_pass-Advances :
    (p : Pass) (key : String) (is_discovery rotates : Bool) (q : Progress)
    → IsQuiet (p.others q.adapter)
    → Advances q (request_pass p key is_discovery rotates q)
unfolding request_pass
request_pass-Advances p key is_discovery rotates q (free, t) =
    let (w, same) = acquire_stack_quiet p.acquired_at q.attempted (p.others q.adapter) free in
    use_acquired-Advances p key is_discovery rotates _ _ w (same ∙ t)

request_pass-IsQuiet :
    (p : Pass) (key : String) (is_discovery rotates : Bool) (q : Progress)
    → IsQuiet (p.others q.adapter)
    → IsQuiet (progress_of (request_pass p key is_discovery rotates q)).adapter
request_pass-IsQuiet p key is_discovery rotates q v =
    let after = (progress_of (request_pass p key is_discovery rotates q)).adapter.stacks in
    (
      sym (any-flags after)
          ∙ ap (any (λ b. b)) (request_pass-flags p key is_discovery rotates q)
          ∙ any-flags (p.others q.adapter).stacks
          ∙ v.0,
      (request_pass-Advances p key is_discovery rotates q v).1,
    )

-- A request that has ended.
abbrev HasEnded : Option (Result ApiResponse) × Progress → Type 0
HasEnded r = (answer : Result ApiResponse) × (r.0 ≡ some answer)

continue_with-HasEnded :
    (now : ℕ) (n : Next) (rest : Progress → Option (Result ApiResponse) × Progress)
    → (continues n ≡ true → HasEnded (rest (progress_of n)))
    → HasEnded (continue_with now n rest)
unfolding continue_with
continue_with-HasEnded now (goes_on q) rest h = h refl
continue_with-HasEnded now (stops q) rest h = (last_resort now q, refl)
continue_with-HasEnded now (returns r q) rest h = (ok r, refl)
continue_with-HasEnded now (throws e q) rest h = (raised e, refl)

request_loop-HasEnded :
    (now bound : ℕ) (key : String) (is_discovery rotates : Bool) (ps : List Pass) (q : Progress)
    → AreQuiet ps
    → IsQuiet q.adapter
    → bound ≤ q.attempts + length ps
    → HasEnded (request_loop now bound key is_discovery rotates ps q)
unfolding request_loop
request_loop-HasEnded now bound key is_discovery rotates [] q a v b =
    elim (Bool-cases (ltb q.attempts bound)) [
      | inl l ↦ absurd (omega (arith, ltb→lt _ _ l))
      | inr l ↦ rw l (last_resort now q, refl)
    ]
request_loop-HasEnded now bound key is_discovery rotates (p ∷ ps) q a v b =
    elim (Bool-cases (ltb q.attempts bound)) [
      | inr l ↦ rw l (last_resort now q, refl)
      | inl l ↦
          let n = request_pass p key is_discovery rotates q in
          let quiet = a.0 q.adapter v in
          rw l (
            continue_with-HasEnded now n
              (λ q'. request_loop now bound key is_discovery rotates ps q')
              (λ k.
                request_loop-HasEnded now bound key is_discovery rotates ps (progress_of n) a.1
                  (request_pass-IsQuiet p key is_discovery rotates q quiet)
                  (omega
                    (arith, b, (request_pass-Advances p key is_discovery rotates q quiet).0 k))))
    ]

-- From an adapter with no stack in use and no limit of time for a stack, and where the other requests
-- leave it so before each pass, `_request` ends after at most `max_attempts` passes, with an answer
-- or an exception, whatever the stacks, the breakers and the proxies do.
pub request_ends :
    (now : ℕ) (key : String) (is_discovery : Bool) (passes : List Pass) (c : ZakupSkAdapter)
    → AreQuiet passes
    → IsQuiet c
    → max_attempts_of c ≤ length passes
    → (answer : Result ApiResponse) × ((request now key is_discovery passes c).0 ≡ some answer)
unfolding request
request_ends now key is_discovery passes c a v b =
    request_loop-HasEnded now (max_attempts_of c) key is_discovery (can_rotate c) passes (started c)
      a v (omega (arith, b))
