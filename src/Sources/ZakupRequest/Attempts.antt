-- ===== src/Sources/ZakupRequest/Attempts.antt =====
-- The attempts that `_request` of infrastructure/sources/zakup_sk/adapter.py makes.
use govpars.Prelude.{
  ℕ, ◌+◌, ◌≤◌, ◌<◌, String, ◌≡◌, refl, sym, subst, ◌⊎◌, inl, inr, Bool, true, false, not, ◌&&◌,
  Option, List, [], ◌∷◌, arith, ltb, ltb→lt, Bool-cases, length,
}
use govpars.Domain.Errors.{retriable, lease_lost, cancelled, other, Result, ok, raised}
use govpars.Sources.Strategies.{ApiResponse}
use govpars.Sources.ZakupPool.{
  SessionLane, ZakupSkAdapter, Acquired, acquired, waits, no_lane, raises, is_attempted, can_rotate,
  lane_ttl_expired,
}
use govpars.Sources.ZakupPool.Unattempted.{Fresh, acquire_stack-Fresh}
use govpars.Sources.ZakupRequest.{
  ask, finish_attempt, continue_with, Pass, Progress, Next, goes_on, stops, returns, throws,
  conclude, attempt, use_acquired, request_pass, request_loop, request, max_attempts_of, started,
  is_rotate_status,
}

-- The counters of a request.
abbrev counts : Progress → List ℕ × ℕ
counts q = (q.attempted, q.attempts)

abbrev pub progress_of : Next → Progress
progress_of (goes_on q) = q
progress_of (stops q) = q
progress_of (returns r q) = q
progress_of (throws e q) = q

abbrev pub continues : Next → Bool
continues (goes_on q) = true
continues (stops q) = false
continues (returns r q) = false
continues (throws e q) = false

-- What one pass does to them.
abbrev Moves : Progress → Next → Type 0
Moves q n =
    ((o : ℕ) × (is_attempted q.attempted o ≡ false)
      × (counts (progress_of n) ≡ (o ∷ q.attempted, q.attempts + 1)))
    ⊎ (counts (progress_of n) ≡ counts q)

conclude-counts :
    (r : Result ApiResponse) (q : Progress) → counts (progress_of (conclude r q)) ≡ counts q
unfolding conclude
conclude-counts (ok r) q = elim (Bool-cases (is_rotate_status r.status)) [
  | inl h ↦ rw h refl
  | inr h ↦ rw h refl
]
conclude-counts (raised (retriable f)) q = refl
conclude-counts (raised (lease_lost m)) q = refl
conclude-counts (raised cancelled) q = refl
conclude-counts (raised (other f)) q = refl

pub attempt-counts :
    (p : Pass) (key : String) (is_discovery rotates : Bool) (index : ℕ) (lane : SessionLane)
    (q : Progress)
    → counts (progress_of (attempt p key is_discovery rotates index lane q))
      ≡ (lane.stack_object ∷ q.attempted, q.attempts + 1)
unfolding attempt
attempt-counts p key is_discovery rotates index lane q =
    let answer = ask p key is_discovery lane q.adapter in
    conclude-counts answer.0 (record q {
      adapter = finish_attempt p rotates index answer.0 answer.1 answer.2;
      attempted = lane.stack_object ∷ q.attempted;
      attempts = q.attempts + 1;
    })

use_acquired-Moves :
    (p : Pass) (key : String) (is_discovery rotates : Bool) (found : Acquired) (q : Progress)
    → Fresh q.attempted found
    → Moves q (use_acquired p key is_discovery rotates found q)
unfolding use_acquired
use_acquired-Moves p key is_discovery rotates (acquired index lane) q new =
    elim (Bool-cases (lane_ttl_expired q.adapter p.acquired_at lane)) [
      | inl h ↦ inr (rw h refl)
      | inr h ↦
          inl
            (lane.stack_object, new, rw h (attempt-counts p key is_discovery rotates index lane q))
    ]
use_acquired-Moves p key is_discovery rotates waits q new = inr refl
use_acquired-Moves p key is_discovery rotates no_lane q new = inr refl
use_acquired-Moves p key is_discovery rotates (raises e) q new = inr refl

request_pass-Moves :
    (p : Pass) (key : String) (is_discovery rotates : Bool) (q : Progress)
    → Moves q (request_pass p key is_discovery rotates q)
unfolding request_pass
request_pass-Moves p key is_discovery rotates q =
    use_acquired-Moves p key is_discovery rotates _ _
      (acquire_stack-Fresh p.acquired_at q.attempted (p.others q.adapter))

-- What holds of the counters all along.
abbrev distinct : List ℕ → Bool
distinct [] = true
distinct (o ∷ os) = not (is_attempted os o) && distinct os

abbrev pub Counted : ℕ → Progress → Type 0
Counted bound q =
    (q.attempts ≡ length q.attempted) × (distinct q.attempted ≡ true) × (q.attempts ≤ bound)

abbrev CountsHold : ℕ → List ℕ × ℕ → Type 0
CountsHold bound (os, n) = (n ≡ length os) × (distinct os ≡ true) × (n ≤ bound)

pass-Counted :
    (bound : ℕ) (q : Progress) (n : Next)
    → Moves q n
    → q.attempts < bound
    → Counted bound q
    → Counted bound (progress_of n)
pass-Counted bound q n (inl (o, new, e)) l (c, d, b) =
    subst (CountsHold bound) (sym e) (omega (arith, c), ground (arith, d, new), omega arith)
pass-Counted bound q n (inr e) l (c, d, b) = subst (CountsHold bound) (sym e) (c, d, b)

continue_with-Counted :
    (now bound : ℕ) (n : Next) (rest : Progress → Option (Result ApiResponse) × Progress)
    → Counted bound (progress_of n)
    → ((q : Progress) → Counted bound q → Counted bound (rest q).1)
    → Counted bound (continue_with now n rest).1
unfolding continue_with
continue_with-Counted now bound (goes_on q) rest h k = k q h
continue_with-Counted now bound (stops q) rest h k = h
continue_with-Counted now bound (returns r q) rest h k = h
continue_with-Counted now bound (throws e q) rest h k = h

module _ (now bound : ℕ) (key : String) (is_discovery rotates : Bool) where
  abbrev run : List Pass → Progress → Option (Result ApiResponse) × Progress
  run ps q = request_loop now bound key is_discovery rotates ps q

  abbrev one : Pass → Progress → Next
  one p q = request_pass p key is_discovery rotates q

  request_loop-Counted :
      (ps : List Pass) (q : Progress) → Counted bound q → Counted bound (run ps q).1
  unfolding request_loop
  request_loop-Counted [] q h = elim (Bool-cases (ltb q.attempts bound)) [
    | inl l ↦ rw l h
    | inr l ↦ rw l h
  ]
  request_loop-Counted (p ∷ ps) q h = elim (Bool-cases (ltb q.attempts bound)) [
    | inr l ↦ rw l h
    | inl l ↦ rw l (
        continue_with-Counted now bound (one p q) (λ q'. run ps q')
          (pass-Counted bound q (one p q) (request_pass-Moves p key is_discovery rotates q)
            (ltb→lt _ _ l) h)
          (request_loop-Counted ps))
  ]

-- Whatever the other requests do in between, `_request` asks no stack twice, its counter is the number
-- of the stacks that it has asked, and that is at most `max_attempts`.
pub request-Counted :
    (now : ℕ) (key : String) (is_discovery : Bool) (passes : List Pass) (c : ZakupSkAdapter)
    → Counted (max_attempts_of c) (request now key is_discovery passes c).1
unfolding request
request-Counted now key is_discovery passes c =
    request_loop-Counted now (max_attempts_of c) key is_discovery (can_rotate c) passes (started c)
      (refl, refl, omega arith)
