-- ===== src/Sources/ZakupPool/Quiet.antt =====
-- `_acquire_stack` and `_release_stack` of infrastructure/sources/zakup_sk/adapter.py where no stack
-- is in use, and the limit of time of a stack, which they do not change.
use govpars.Prelude.{
  ℕ, zero, suc, ◌+◌, ◌%◌, String, ◌≡◌, refl, sym, ◌∙◌, subst, inl, inr, Bool, true, false, not,
  ◌&&◌, Option, none, some, List, [], ◌∷◌, arith, str_eq, Bool-cases, Option-cases, length,
  get_elem?, set, any,
}
use govpars.Domain.Errors.{Result, ok, raised, plain_error}
use govpars.Network.CircuitBreaker.{is_available}
use govpars.Network.ProxyPool.{next}
use govpars.Sources.ZakupPool.{
  SessionLane, ZakupSkAdapter, Acquired, acquired, waits, no_lane, raises, is_attempted, can_rotate,
  acquire_loop, acquire_stack, none_found, replace_by, replace_by_next, lane_ttl_expired,
  replace_by_provider, replace_from_pool, replacement_stack, install, release_stack, failed_pool,
  active_proxies,
}

abbrev pub any_in_use : List SessionLane → Bool
any_in_use ls = any (λ (l : SessionLane). l.in_use) ls

get_elem?-free :
    (ls : List SessionLane) (i : ℕ) (l : SessionLane)
    → any_in_use ls ≡ false
    → get_elem? ls i ≡ some l
    → l.in_use ≡ false
get_elem?-free [] i l q h = absurd (ground arith)
get_elem?-free (x ∷ ls) zero l q h = ground arith
get_elem?-free (x ∷ ls) (suc i) l q h = get_elem?-free ls i l (ground arith) h

abbrev pub is_wait : Acquired → Bool
is_wait waits = true
is_wait (acquired index lane) = false
is_wait no_lane = false
is_wait (raises e) = false

none_found_quiet : (u : Bool) → is_wait (none_found u false) ≡ false
unfolding none_found
none_found_quiet true = refl
none_found_quiet false = refl

abbrev IsNoWait : ZakupSkAdapter → Acquired × ZakupSkAdapter → Type 0
IsNoWait c (found, c') = (is_wait found ≡ false) × (c'.sticky_ttl_seconds ≡ c.sticky_ttl_seconds)

acquire_loop-IsNoWait :
    (r now : ℕ) (attempted : List ℕ) (c : ZakupSkAdapter) (u : Bool)
    → any_in_use c.stacks ≡ false
    → IsNoWait c (acquire_loop r now attempted c u false)
unfolding acquire_loop
acquire_loop-IsNoWait zero now attempted c u q = (none_found_quiet u, refl)
acquire_loop-IsNoWait (suc r) now attempted c u q =
    let c' = record c { next_lane = (c.next_lane + 1) % length c.stacks } in
    elim (Option-cases (get_elem? c.stacks c.next_lane)) [
      | inl n ↦
          let eq : acquire_loop (suc r) now attempted c u false
              ≡ (raises (plain_error "IndexError"), c') =
            ground arith in
          subst (IsNoWait c) (sym eq) (refl, refl)
      | inr (lane, e) ↦
          let free = get_elem?-free c.stacks c.next_lane lane q e in
          elim (Bool-cases (is_attempted attempted lane.stack_object)) [
            | inl old ↦
                let eq : acquire_loop (suc r) now attempted c u false
                    ≡ acquire_loop r now attempted c' u false =
                  ground arith in
                subst (IsNoWait c) (sym eq) (acquire_loop-IsNoWait r now attempted c' u q)
            | inr new ↦ elim (Bool-cases (is_available lane.stack.lane_breaker now)) [
              | inr closed_lane ↦
                  let eq : acquire_loop (suc r) now attempted c u false
                      ≡ acquire_loop r now attempted c' true false =
                    ground arith in
                  subst (IsNoWait c) (sym eq) (acquire_loop-IsNoWait r now attempted c' true q)
              | inl open_lane ↦
                  let eq : acquire_loop (suc r) now attempted c u false ≡ (
                    acquired c.next_lane lane,
                    record c' { stacks = set c.stacks c.next_lane (record lane { in_use = true }) },
                  ) =
                    ground arith in
                  subst (IsNoWait c) (sym eq) (refl, refl)
            ]
          ]
    ]

-- Where no stack is in use, a pass over the stacks does not wait for one.
pub acquire_stack_quiet :
    (now : ℕ) (attempted : List ℕ) (c : ZakupSkAdapter)
    → any_in_use c.stacks ≡ false
    → (is_wait (acquire_stack now attempted c).0 ≡ false)
      × ((acquire_stack now attempted c).1.sticky_ttl_seconds ≡ c.sticky_ttl_seconds)
unfolding acquire_stack
acquire_stack_quiet now attempted c q =
    acquire_loop-IsNoWait (length c.stacks) now attempted c false q

-- Without a limit of time no stack is beyond it.
pub lane_ttl_expired_none :
    (c : ZakupSkAdapter) (now : ℕ) (lane : SessionLane)
    → c.sticky_ttl_seconds ≡ 0
    → lane_ttl_expired c now lane ≡ false
unfolding lane_ttl_expired
lane_ttl_expired_none c now lane h = ground (arith, h)

abbrev SameLimit : ZakupSkAdapter → ZakupSkAdapter → Type 0
SameLimit c c' = c'.sticky_ttl_seconds ≡ c.sticky_ttl_seconds

replace_by-SameLimit :
    (c : ZakupSkAdapter) (now : ℕ) (lane : SessionLane) (o : Option String)
    → SameLimit c (replace_by c now lane o).1
unfolding replace_by
replace_by-SameLimit c now lane none = refl
replace_by-SameLimit c now lane (some url) = elim (Bool-cases (str_eq url "")) [
  | inl h ↦ rw h refl
  | inr h ↦ rw h refl
]

replace_by_next-SameLimit :
    (c : ZakupSkAdapter) (now : ℕ) (lane : SessionLane) (r : Result (Option String))
    → SameLimit c (replace_by_next c now lane r).1
unfolding replace_by_next
replace_by_next-SameLimit c now lane (raised e) = refl
replace_by_next-SameLimit c now lane (ok url) = replace_by-SameLimit c now lane url

replace_by_provider-SameLimit :
    (c : ZakupSkAdapter) (now : ℕ) (lane : SessionLane) (rotation : Result (Unit {0}))
    → SameLimit c (replace_by_provider c now lane rotation).1
unfolding replace_by_provider
replace_by_provider-SameLimit c now lane (raised e) = refl
replace_by_provider-SameLimit c now lane (ok u) =
    let kept = replace_by-SameLimit c now lane (some lane.proxy_url) in ground (arith, kept)

replacement_stack-SameLimit :
    (c : ZakupSkAdapter) (now : ℕ) (lane : SessionLane) (failed : Bool)
    (rotation : Result (Unit {0}))
    → SameLimit c (replacement_stack c now lane failed rotation).1
unfolding replacement_stack replace_from_pool
replacement_stack-SameLimit c now lane failed rotation = elim (Option-cases c.proxy_pool) [
  | inl e ↦ rw (e, replacement_stack) (replace_by_provider-SameLimit c now lane rotation)
  | inr (pool, e) ↦
      let n =
        next (failed_pool pool now lane.proxy_url failed) now
          (lane.proxy_url ∷ active_proxies c.stacks lane) in
      rw (e, replacement_stack)
        (replace_by_next-SameLimit (record c { proxy_pool = some n.1 }) now lane n.0)
]

install-SameLimit :
    (index now : ℕ) (failed : Bool) (lane : SessionLane) (r : Option SessionLane × ZakupSkAdapter)
    → SameLimit r.1 (install index now failed lane r)
unfolding install
install-SameLimit index now failed lane (o, c) = ground arith

pub release_stack-SameLimit :
    (c : ZakupSkAdapter) (now index : ℕ) (lane : SessionLane) (exhausted failed : Bool)
    (rotation : Result (Unit {0}))
    → (release_stack c now index lane exhausted failed rotation).sticky_ttl_seconds
      ≡ c.sticky_ttl_seconds
unfolding release_stack
release_stack-SameLimit c now index lane exhausted failed rotation =
    elim (Bool-cases (exhausted && (not (str_eq lane.proxy_url "") && can_rotate c))) [
      | inl y ↦ rw y (
          install-SameLimit index now failed lane (replacement_stack c now lane failed rotation)
          ∙ replacement_stack-SameLimit c now lane failed rotation)
      | inr n ↦ rw n (install-SameLimit index now true lane (none, c))
    ]
