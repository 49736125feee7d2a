-- ===== src/Sources/ZakupPool/Unattempted.antt =====
-- A stack that `_acquire_stack` of infrastructure/sources/zakup_sk/adapter.py takes.
use govpars.Prelude.{
  ℕ, zero, suc, ◌+◌, ◌%◌, ◌≡◌, refl, sym, subst, inl, inr, Bool, true, false, not, ◌&&◌, ◌||◌, some,
  List, arith, Bool-cases, Option-cases, length, get_elem?, set,
}
use govpars.Domain.Errors.{plain_error}
use govpars.Network.CircuitBreaker.{is_available}
use govpars.Sources.ZakupPool.{
  ZakupSkAdapter, Acquired, acquired, waits, no_lane, raises, acquire_loop, acquire_stack,
  is_attempted, none_found,
}

-- A stack that is taken has not been attempted.
abbrev pub Fresh : List ℕ → Acquired → Type 0
Fresh attempted (acquired index lane) = is_attempted attempted lane.stack_object ≡ false
Fresh attempted waits = Unit {0}
Fresh attempted no_lane = Unit {0}
Fresh attempted (raises e) = Unit {0}

none_found-Fresh : (attempted : List ℕ) (u b : Bool) → Fresh attempted (none_found u b)
unfolding none_found
none_found-Fresh attempted true true = tt
none_found-Fresh attempted true false = tt
none_found-Fresh attempted false b = tt

acquire_loop-Fresh :
    (r now : ℕ) (attempted : List ℕ) (c : ZakupSkAdapter) (u b : Bool)
    → Fresh attempted (acquire_loop r now attempted c u b).0
unfolding acquire_loop
acquire_loop-Fresh zero now attempted c u b = none_found-Fresh attempted u b
acquire_loop-Fresh (suc r) now attempted c u b =
    let c' = record c { next_lane = (c.next_lane + 1) % length c.stacks } in
    elim (Option-cases (get_elem? c.stacks c.next_lane)) [
      | inl n ↦
          let eq : (acquire_loop (suc r) now attempted c u b).0
              ≡ raises (plain_error "IndexError") =
            ground arith in
          subst (Fresh attempted) (sym eq) tt
      | inr (lane, e) ↦ elim (Bool-cases (is_attempted attempted lane.stack_object)) [
        | inl old ↦
            let eq : (acquire_loop (suc r) now attempted c u b).0
                ≡ (acquire_loop r now attempted c' u b).0 =
              ground arith in
            subst (Fresh attempted) (sym eq) (acquire_loop-Fresh r now attempted c' u b)
        | inr new ↦
            elim (Bool-cases (not lane.in_use && is_available lane.stack.lane_breaker now)) [
              | inr busy ↦
                  let eq : (acquire_loop (suc r) now attempted c u b).0
                      ≡ (acquire_loop r now attempted c' true (b || lane.in_use)).0 =
                    ground arith in
                  subst (Fresh attempted) (sym eq)
                    (acquire_loop-Fresh r now attempted c' true (b || lane.in_use))
              | inl free ↦
                  let eq : (acquire_loop (suc r) now attempted c u b).0
                      ≡ acquired c.next_lane lane =
                    ground arith in
                  subst (Fresh attempted) (sym eq) new
            ]
      ]
    ]

pub acquire_stack-Fresh :
    (now : ℕ) (attempted : List ℕ) (c : ZakupSkAdapter)
    → Fresh attempted (acquire_stack now attempted c).0
unfolding acquire_stack
acquire_stack-Fresh now attempted c =
    acquire_loop-Fresh (length c.stacks) now attempted c false false

-- What a pass that takes a stack has done.
abbrev pub Acquires : ZakupSkAdapter → Acquired × ZakupSkAdapter → Type 0
Acquires c (acquired index lane, c') =
    (get_elem? c.stacks index ≡ some lane)
    × (lane.in_use ≡ false)
    × (c'.stacks ≡ set c.stacks index (record lane { in_use = true }))
Acquires c (waits, c') = c'.stacks ≡ c.stacks
Acquires c (no_lane, c') = c'.stacks ≡ c.stacks
Acquires c (raises e, c') = c'.stacks ≡ c.stacks

none_found-Acquires : (c : ZakupSkAdapter) (u b : Bool) → Acquires c (none_found u b, c)
unfolding none_found
none_found-Acquires c true true = refl
none_found-Acquires c true false = refl
none_found-Acquires c false b = refl

acquire_loop-Acquires :
    (r now : ℕ) (attempted : List ℕ) (c : ZakupSkAdapter) (u b : Bool)
    → Acquires c (acquire_loop r now attempted c u b)
unfolding acquire_loop
acquire_loop-Acquires zero now attempted c u b = none_found-Acquires c u b
acquire_loop-Acquires (suc r) now attempted c u b =
    let c' = record c { next_lane = (c.next_lane + 1) % length c.stacks } in
    elim (Option-cases (get_elem? c.stacks c.next_lane)) [
      | inl n ↦
          let eq : acquire_loop (suc r) now attempted c u b
              ≡ (raises (plain_error "IndexError"), c') =
            ground arith in
          subst (Acquires c) (sym eq) refl
      | inr (lane, e) ↦ elim (Bool-cases (is_attempted attempted lane.stack_object)) [
        | inl old ↦
            let eq : acquire_loop (suc r) now attempted c u b
                ≡ acquire_loop r now attempted c' u b =
              ground arith in
            subst (Acquires c) (sym eq) (acquire_loop-Acquires r now attempted c' u b)
        | inr new ↦
            elim (Bool-cases (not lane.in_use && is_available lane.stack.lane_breaker now)) [
              | inr busy ↦
                  let eq : acquire_loop (suc r) now attempted c u b
                      ≡ acquire_loop r now attempted c' true (b || lane.in_use) =
                    ground arith in
                  subst (Acquires c) (sym eq)
                    (acquire_loop-Acquires r now attempted c' true (b || lane.in_use))
              | inl free ↦
                  let eq : acquire_loop (suc r) now attempted c u b ≡ (
                    acquired c.next_lane lane,
                    record c' { stacks = set c.stacks c.next_lane (record lane { in_use = true }) },
                  ) =
                    ground arith in
                  subst (Acquires c) (sym eq) (e, ground arith, refl)
            ]
      ]
    ]

-- A pass that takes a stack has found it free at its index, has put it in use there, and has changed
-- no other; a pass that takes none leaves all stacks as they are.
pub acquire_stack-Acquires :
    (now : ℕ) (attempted : List ℕ) (c : ZakupSkAdapter) → Acquires c (acquire_stack now attempted c)
unfolding acquire_stack
acquire_stack-Acquires now attempted c =
    acquire_loop-Acquires (length c.stacks) now attempted c false false
