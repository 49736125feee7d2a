-- ===== src/Sources/ZakupRequest/Flags.antt =====
-- Which stacks are in use under `_release_stack` and `_request` of
-- infrastructure/sources/zakup_sk/adapter.py.
use govpars.Prelude.{
  ℕ, zero, suc, ◌+◌, String, ◌≡◌, refl, sym, ap, ◌∙◌, subst, inl, inr, Bool, true, false, not, ◌&&◌,
  ◌||◌, Option, none, some, List, [], ◌∷◌, arith, str_eq, ◌==◌, if◌then◌else◌, Bool-cases,
  Option-cases, get_elem?, set,
}
use govpars.Network.CircuitBreaker.{is_open}
use govpars.Domain.Errors.{retriable, lease_lost, cancelled, other, Result, ok, raised}
use govpars.Network.ProxyPool.{ProxyPoolCursor, next}
use govpars.Sources.Strategies.{ApiResponse}
use govpars.Sources.ZakupPool.{
  SessionLane, ZakupSkAdapter, Acquired, acquired, waits, no_lane, raises, acquire_stack,
  can_rotate, build_stack, active_proxies, replace_by, replace_by_next, replace_by_provider,
  replace_from_pool, failed_pool, replacement_stack, released, install, release_stack,
  lane_ttl_expired,
}
use govpars.Sources.ZakupPool.Unattempted.{Acquires, acquire_stack-Acquires}
use govpars.Sources.ZakupRequest.Attempts.{progress_of}
use govpars.Sources.ZakupRequest.{
  Pass, Progress, ask, judge, finish_attempt, conclude, attempt, use_acquired, request_pass,
  is_rotate_status,
}

abbrev pub flags : List SessionLane → List Bool
flags [] = []
flags (l ∷ ls) = l.in_use ∷ flags ls

module _ {ℓ} {A : Type ℓ} where
  set-set : (xs : List A) (i : ℕ) (a b : A) → set (set xs i a) i b ≡ set xs i b
  set-set [] i a b = refl
  set-set (x ∷ xs) zero a b = refl
  set-set (x ∷ xs) (suc i) a b = ap (λ ys. x ∷ ys) (set-set xs i a b)

flags-set_same :
    (ls : List SessionLane) (i : ℕ) (l v : SessionLane)
    → get_elem? ls i ≡ some l
    → v.in_use ≡ l.in_use
    → flags (set ls i v) ≡ flags ls
flags-set_same [] i l v h k = refl
flags-set_same (x ∷ ls) zero l v h k = ground arith
flags-set_same (x ∷ ls) (suc i) l v h k = ap (λ bs. x.in_use ∷ bs) (flags-set_same ls i l v h k)

get_elem?-set :
    (ls : List SessionLane) (i : ℕ) (l v : SessionLane)
    → get_elem? ls i ≡ some l
    → get_elem? (set ls i v) i ≡ some v
get_elem?-set [] i l v h = absurd (ground arith)
get_elem?-set (x ∷ ls) zero l v h = refl
get_elem?-set (x ∷ ls) (suc i) l v h = get_elem?-set ls i l v h

-- A replacement is not in use, and the stacks are not touched before it is installed.
abbrev Untouched : ZakupSkAdapter → Option SessionLane × ZakupSkAdapter → Type 0
Untouched c (none, c') = c'.stacks ≡ c.stacks
Untouched c (some l, c') = (c'.stacks ≡ c.stacks) × (l.in_use ≡ false)

replace_by-Untouched :
    (c : ZakupSkAdapter) (now : ℕ) (lane : SessionLane) (o : Option String)
    → Untouched c (replace_by c now lane o)
unfolding replace_by build_stack
replace_by-Untouched c now lane none = refl
replace_by-Untouched c now lane (some url) = elim (Bool-cases (str_eq url "")) [
  | inl h ↦ rw h refl
  | inr h ↦ rw h (refl, refl)
]

replace_by_next-Untouched :
    (c : ZakupSkAdapter) (now : ℕ) (lane : SessionLane) (r : Result (Option String))
    → Untouched c (replace_by_next c now lane r)
unfolding replace_by_next
replace_by_next-Untouched c now lane (raised e) = refl
replace_by_next-Untouched c now lane (ok url) = replace_by-Untouched c now lane url

replace_by_provider-Untouched :
    (c : ZakupSkAdapter) (now : ℕ) (lane : SessionLane) (rotation : Result (Unit {0}))
    → Untouched c (replace_by_provider c now lane rotation)
unfolding replace_by_provider
replace_by_provider-Untouched c now lane (raised e) = refl
replace_by_provider-Untouched c now lane (ok u) = elim (Bool-cases c.rotates_provider) [
  | inr n ↦
      subst
        (λ b. Untouched c (if b then replace_by c now lane (some lane.proxy_url) else (none, c)))
        (sym n) refl
  | inl y ↦
      subst
        (λ b. Untouched c (if b then replace_by c now lane (some lane.proxy_url) else (none, c)))
        (sym y) (replace_by-Untouched c now lane (some lane.proxy_url))
]

replace_from_pool-Untouched :
    (c : ZakupSkAdapter) (pool : ProxyPoolCursor) (now : ℕ) (lane : SessionLane) (failed : Bool)
    → Untouched c (replace_from_pool c pool now lane failed)
unfolding replace_from_pool
replace_from_pool-Untouched c pool now lane failed =
    let n =
      next (failed_pool pool now lane.proxy_url failed) now
        (lane.proxy_url ∷ active_proxies c.stacks lane) in
    replace_by_next-Untouched (record c { proxy_pool = some n.1 }) now lane n.0

replacement_stack-Untouched :
    (c : ZakupSkAdapter) (now : ℕ) (lane : SessionLane) (failed : Bool)
    (rotation : Result (Unit {0}))
    → Untouched c (replacement_stack c now lane failed rotation)
unfolding replacement_stack
replacement_stack-Untouched c now lane failed rotation = elim (Option-cases c.proxy_pool) [
  | inr (pool, e) ↦
      rw e (replace_from_pool-Untouched (record c { proxy_pool = some pool }) pool now lane failed)
  | inl e ↦ rw e (replace_by_provider-Untouched (record c { proxy_pool = none }) now lane rotation)
]

released-in_use :
    (r : Option SessionLane) (now : ℕ) (failed : Bool) (lane current : SessionLane)
    → ((l : SessionLane) → r ≡ some l → l.in_use ≡ false)
    → (released r now failed lane current).in_use ≡ false
unfolding released
released-in_use none now failed lane current h = refl
released-in_use (some l) now failed lane current h =
    elim (Bool-cases (current.stack_object == lane.stack_object)) [
      | inl e ↦ rw e (h l refl)
      | inr e ↦ rw e refl
    ]

-- What a release does to the stacks.
abbrev Frees : List SessionLane → ℕ → List SessionLane → Type 0
Frees ls i ls' = (v : SessionLane) × (v.in_use ≡ false) × (ls' ≡ set ls i v)

install-Frees :
    (c : ZakupSkAdapter) (index now : ℕ) (failed : Bool) (lane current : SessionLane)
    (r : Option SessionLane × ZakupSkAdapter)
    → get_elem? c.stacks index ≡ some current
    → Untouched c r
    → Frees c.stacks index (install index now failed lane r).stacks
unfolding install
install-Frees c index now failed lane current (none, c') h u =
    let h' : get_elem? c'.stacks index ≡ some current = rw u h in
    rw (install, h')
      (
        released none now failed lane current,
        refl,
        ap (λ ls. set ls index (released none now failed lane current)) u,
      )
install-Frees c index now failed lane current (some l, c') h (u, f) =
    let h' : get_elem? c'.stacks index ≡ some current = rw u h in
    rw (install, h')
      (
        released (some l) now failed lane current,
        released-in_use (some l) now failed lane current (λ x e. ground arith),
        ap (λ ls. set ls index (released (some l) now failed lane current)) u,
      )

release_stack-Frees :
    (c : ZakupSkAdapter) (now index : ℕ) (lane current : SessionLane) (exhausted failed : Bool)
    (rotation : Result (Unit {0}))
    → get_elem? c.stacks index ≡ some current
    → Frees c.stacks index (release_stack c now index lane exhausted failed rotation).stacks
unfolding release_stack
release_stack-Frees c now index lane current exhausted failed rotation h =
    elim (Bool-cases (exhausted && (not (str_eq lane.proxy_url "") && can_rotate c))) [
      | inl y ↦ rw y (
          install-Frees c index now failed lane current _ h
            (replacement_stack-Untouched c now lane failed rotation))
      | inr n ↦ rw n (install-Frees c index now true lane current (none, c) h refl)
    ]

-- A lane that was put in use and is freed is as it was.
freed_flags :
    (ls mid ls' : List SessionLane) (index : ℕ) (lane used : SessionLane)
    → get_elem? ls index ≡ some lane
    → lane.in_use ≡ false
    → mid ≡ set ls index used
    → Frees mid index ls'
    → flags ls' ≡ flags ls
freed_flags ls mid ls' index lane used h free m (v, f, e) =
    ap flags (e ∙ ap (λ xs. set xs index v) m ∙ set-set ls index used v)
    ∙ flags-set_same ls index lane v h (f ∙ sym free)

finish_attempt-Frees :
    (p : Pass) (rotates : Bool) (index : ℕ) (r : Result ApiResponse) (lane current : SessionLane)
    (c : ZakupSkAdapter)
    → get_elem? c.stacks index ≡ some current
    → Frees c.stacks index (finish_attempt p rotates index r lane c).stacks
unfolding finish_attempt
finish_attempt-Frees p rotates index r lane current c h =
    let b = judge p.released_at rotates r lane.stack.lane_breaker in
    let asked = record lane { stack = record lane.stack { lane_breaker = b.0 }; in_use = true } in
    let (v, f, e) =
      release_stack-Frees (record c { stacks = set c.stacks index asked }) p.released_at index asked
        asked (b.1 || is_open b.0.state) true p.rotation
        (get_elem?-set c.stacks index current asked h) in
    (v, f, e ∙ set-set c.stacks index asked v)

pub conclude-adapter :
    (r : Result ApiResponse) (q : Progress) → (progress_of (conclude r q)).adapter ≡ q.adapter
unfolding conclude
conclude-adapter (ok r) q = elim (Bool-cases (is_rotate_status r.status)) [
  | inl h ↦ rw h refl
  | inr h ↦ rw h refl
]
conclude-adapter (raised (retriable f)) q = refl
conclude-adapter (raised (lease_lost m)) q = refl
conclude-adapter (raised cancelled) q = refl
conclude-adapter (raised (other f)) q = refl

attempt-Frees :
    (p : Pass) (key : String) (is_discovery rotates : Bool) (index : ℕ) (lane current : SessionLane)
    (q : Progress)
    → get_elem? q.adapter.stacks index ≡ some current
    → Frees q.adapter.stacks index
        (progress_of (attempt p key is_discovery rotates index lane q)).adapter.stacks
unfolding attempt ask
attempt-Frees p key is_discovery rotates index lane current q h =
    let answer = ask p key is_discovery lane q.adapter in
    let done = finish_attempt p rotates index answer.0 answer.1 answer.2 in
    let (v, f, e) = finish_attempt-Frees p rotates index answer.0 answer.1 current answer.2 h in
    (
      v,
      f,
      ap (λ (c : ZakupSkAdapter). c.stacks)
            (conclude-adapter answer.0 (record q {
              adapter = done;
              attempted = lane.stack_object ∷ q.attempted;
              attempts = q.attempts + 1;
            }))
          ∙ e,
    )

-- Before the pass over the lanes, and after it.
use_acquired-flags :
    (p : Pass) (key : String) (is_discovery rotates : Bool) (c : ZakupSkAdapter) (found : Acquired)
    (q : Progress)
    → Acquires c (found, q.adapter)
    → flags (progress_of (use_acquired p key is_discovery rotates found q)).adapter.stacks
      ≡ flags c.stacks
unfolding use_acquired
use_acquired-flags p key is_discovery rotates c (acquired index lane) q (h, free, e) =
    let used = record lane { in_use = true } in
    let there : get_elem? q.adapter.stacks index ≡ some used =
      rw e (get_elem?-set c.stacks index lane used h) in
    elim (Bool-cases (lane_ttl_expired q.adapter p.acquired_at lane)) [
      | inl y ↦
          let f =
            release_stack-Frees q.adapter p.released_at index lane used true false p.rotation
              there in
          rw y (freed_flags c.stacks q.adapter.stacks _ index lane used h free e f)
      | inr n ↦
          let f = attempt-Frees p key is_discovery rotates index lane used q there in
          rw n (freed_flags c.stacks q.adapter.stacks _ index lane used h free e f)
    ]
use_acquired-flags p key is_discovery rotates c waits q e = ap flags e
use_acquired-flags p key is_discovery rotates c no_lane q e = ap flags e
use_acquired-flags p key is_discovery rotates c (raises x) q e = ap flags e

pub request_pass-flags :
    (p : Pass) (key : String) (is_discovery rotates : Bool) (q : Progress)
    → flags (progress_of (request_pass p key is_discovery rotates q)).adapter.stacks
      ≡ flags (p.others q.adapter).stacks
unfolding request_pass
request_pass-flags p key is_discovery rotates q =
    let found = acquire_stack p.acquired_at q.attempted (p.others q.adapter) in
    use_acquired-flags p key is_discovery rotates (p.others q.adapter) found.0
      (record q { adapter = found.1 })
      (acquire_stack-Acquires p.acquired_at q.attempted (p.others q.adapter))
