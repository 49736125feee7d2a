-- ===== src/Sources/ZakupPool/Choice.antt =====
-- Which stack `_acquire_stack` of infrastructure/sources/zakup_sk/adapter.py takes.
use govpars.Prelude.{
  ℕ, zero, suc, ◌+◌, ◌%◌, ◌≤◌, ◌<◌, ◌≡◌, refl, sym, ap, ◌∙◌, Bool, true, false, not, ◌&&◌, ◌||◌,
  Option, none, some, List, [], ◌∷◌, arith, if◌then◌else◌, length, get_elem?, any, all, find?,
  get_elem?_lt, drop-get_elem?,
}
use govpars.Prelude.Walk.{walk, walk_from, walk_from_next, walk_from_all, all-walk, mod-lt_of_lt}
use govpars.Domain.Errors.{Exc}
use govpars.Network.CircuitBreaker.{is_available}
use govpars.Sources.ZakupPool.{
  SessionLane, ZakupSkAdapter, Acquired, acquired, waits, no_lane, raises, acquire_loop,
  acquire_stack, is_attempted, none_found,
}

abbrev pub is_unattempted : List ℕ → SessionLane → Bool
is_unattempted attempted lane = not (is_attempted attempted lane.stack_object)

-- A stack that a pass takes.
abbrev pub is_free : ℕ → List ℕ → SessionLane → Bool
is_free now attempted lane =
    is_unattempted attempted lane && (not lane.in_use && is_available lane.stack.lane_breaker now)

-- One that a pass waits for.
abbrev pub is_busy : List ℕ → SessionLane → Bool
is_busy attempted lane = is_unattempted attempted lane && lane.in_use

-- The stack taken, or why none is.
pub data Choice : Type 0 where
  takes : SessionLane → Choice
  holds_on : Choice
  gives_up : Choice
  refuses : Exc → Choice

abbrev pub choice_of : Acquired → Choice
choice_of (acquired index lane) = takes lane
choice_of waits = holds_on
choice_of no_lane = gives_up
choice_of (raises e) = refuses e

-- The first free stack; without one, a wait if an unattempted one is in use.
abbrev pub choose : Option SessionLane → Bool → Choice
choose (some lane) busy = takes lane
choose none true = holds_on
choose none false = gives_up

-- `busy_unattempted_exists` implies `unattempted_exists`.
none_found_busy : (u b : Bool) → (b && not u) ≡ false → choice_of (none_found u b) ≡ choose none b
unfolding none_found
none_found_busy true true h = refl
none_found_busy true false h = refl
none_found_busy false true h = absurd (ground arith)
none_found_busy false false h = refl

acquire_loop_step :
    (r now : ℕ) (attempted : List ℕ) (c : ZakupSkAdapter) (u b : Bool) (lane : SessionLane)
    → get_elem? c.stacks c.next_lane ≡ some lane
    → choice_of (acquire_loop (suc r) now attempted c u b).0 ≡ (
        if is_free now attempted lane
        then takes lane
        else choice_of
            (acquire_loop r now attempted
              (record c { next_lane = (c.next_lane + 1) % length c.stacks })
              (u || is_unattempted attempted lane)
              (b || is_busy attempted lane)).0)
unfolding acquire_loop
acquire_loop_step r now attempted c u b lane e = ground arith

choose_if :
    (b l m free : Bool) (lane : SessionLane) (o : Option SessionLane) (x : Choice)
    → x ≡ choose o ((b || l) || m)
    → (if free then takes lane else x) ≡ choose (if free then some lane else o) (b || (l || m))
choose_if true l m true lane o x h = refl
choose_if true l m false lane o x h = h
choose_if false l m true lane o x h = refl
choose_if false l m false lane o x h = h

still_implied :
    (u b un busy : Bool) → (b && not u) ≡ false → ((b || (un && busy)) && not (u || un)) ≡ false
still_implied u b un busy h = ground arith

acquire_loop-eq-find? :
    (r now : ℕ) (attempted : List ℕ) (c : ZakupSkAdapter) (u b : Bool)
    → (b && not u) ≡ false
    → c.next_lane < length c.stacks
    → r ≤ length c.stacks
    → choice_of (acquire_loop r now attempted c u b).0
      ≡ choose
          (find? (is_free now attempted) (walk_from c.stacks c.next_lane r))
          (b || any (is_busy attempted) (walk_from c.stacks c.next_lane r))
unfolding acquire_loop
acquire_loop-eq-find? zero now attempted c u b i h k = none_found_busy u b i ∙ ground arith
acquire_loop-eq-find? (suc r) now attempted c u b i h k =
    let (lane, e) = get_elem?_lt c.stacks c.next_lane h in
    let c' = record c { next_lane = (c.next_lane + 1) % length c.stacks } in
    let ih =
      acquire_loop-eq-find? r now attempted c' (u || is_unattempted attempted lane)
        (b || is_busy attempted lane)
        (still_implied u b (is_unattempted attempted lane) lane.in_use i)
        (mod-lt_of_lt (c.next_lane + 1) (length c.stacks) c.next_lane h) (omega arith) in
    let w = walk_from_next c.stacks c.next_lane r h (omega arith) in
    acquire_loop_step r now attempted c u b lane e
    ∙ rw (drop-get_elem? c.stacks c.next_lane lane e, w)
        (choose_if b (is_busy attempted lane) _ (is_free now attempted lane) lane _ _ ih)

any-not-all :
    (f : SessionLane → Bool) (xs : List SessionLane) → any f xs ≡ not (all (λ l. not (f l)) xs)
any-not-all f [] = refl
any-not-all f (x ∷ xs) = ground (arith, any-not-all f xs)

-- When the next lane is in range, one pass of `_acquire_stack` takes the first stack that the request
-- has not attempted, that is not in use and whose breaker is available, on a walk once round the
-- stacks from the next one on. If there is none, it waits when some stack that the request has not
-- attempted is in use, and gives up when none is.
pub acquire_stack-eq-find? :
    (now : ℕ) (attempted : List ℕ) (c : ZakupSkAdapter)
    → c.next_lane < length c.stacks
    → choice_of (acquire_stack now attempted c).0
      ≡ choose
          (find? (is_free now attempted) (walk c.stacks c.next_lane))
          (any (is_busy attempted) c.stacks)
unfolding acquire_stack
acquire_stack-eq-find? now attempted c h =
    let all_round = walk_from_all c.stacks c.next_lane h in
    let same : any (is_busy attempted) (walk c.stacks c.next_lane)
        ≡ any (is_busy attempted) c.stacks =
      any-not-all (is_busy attempted) (walk c.stacks c.next_lane)
      ∙ ap not (all-walk (λ l. not (is_busy attempted l)) c.stacks c.next_lane)
      ∙ sym (any-not-all (is_busy attempted) c.stacks) in
    acquire_loop-eq-find? (length c.stacks) now attempted c false false refl h (omega arith)
    ∙ rw (all_round, same)
