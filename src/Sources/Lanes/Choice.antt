-- ===== src/Sources/Lanes/Choice.antt =====
-- Which lane `_acquire_lane` of infrastructure/sources/eep_mitwork/client.py takes.
use govpars.Prelude.{
  ℕ, zero, suc, ◌+◌, ◌%◌, ◌≤◌, ◌<◌, ◌≡◌, refl, sym, ap, ◌∙◌, subst, inl, inr, Bool, true, false,
  not, ◌&&◌, ◌||◌, Option, none, some, List, [], ◌∷◌, arith, if◌then◌else◌, Bool-cases,
  Option-cases, length, get_elem?, set, any, all, find?, get_elem?_lt, drop-get_elem?,
}
use govpars.Prelude.Walk.{walk, walk_from, walk_from_next, walk_from_all, all-walk, mod-lt_of_lt}
use govpars.Domain.Errors.{Exc, circuit_open_error, plain_error}
use govpars.Network.CircuitBreaker.{is_available}
use govpars.Sources.Lanes.{
  EepHttpLane, EepHttpClient, Acquired, acquired, waits, raises, acquire_loop, acquire_lane,
}

abbrev pub is_free : ℕ → EepHttpLane → Bool
is_free now lane = not lane.locked && is_available lane.breaker now

abbrev pub is_locked : EepHttpLane → Bool
is_locked lane = lane.locked

-- The lane taken, or why none is.
pub data Choice : Type 0 where
  takes : EepHttpLane → Choice
  holds_on : Choice
  refuses : Exc → Choice

abbrev pub choice_of : Acquired → Choice
choice_of (acquired index lane) = takes lane
choice_of waits = holds_on
choice_of (raises e) = refuses e

-- The first free lane; without one, a wait if some lane is locked.
abbrev pub choose : Option EepHttpLane → Bool → Choice
choose (some lane) locked = takes lane
choose none true = holds_on
choose none false = refuses (circuit_open_error "All EEP proxy lanes are in cooldown")

acquire_loop_step :
    (r now : ℕ) (c : EepHttpClient) (b : Bool) (lane : EepHttpLane)
    → get_elem? c.lanes c.next_lane ≡ some lane
    → choice_of (acquire_loop (suc r) now c b).0 ≡ (
        if is_free now lane
        then takes lane
        else choice_of
            (acquire_loop r now
              (record c { next_lane = (c.next_lane + 1) % length c.lanes })
              (b || lane.locked)).0)
unfolding acquire_loop
acquire_loop_step r now c b lane e = ground arith

choose_if :
    (b l m free : Bool) (lane : EepHttpLane) (o : Option EepHttpLane) (x : Choice)
    → x ≡ choose o ((b || l) || m)
    → (if free then takes lane else x) ≡ choose (if free then some lane else o) (b || (l || m))
choose_if true l m true lane o x h = refl
choose_if true l m false lane o x h = h
choose_if false l m true lane o x h = refl
choose_if false l m false lane o x h = h

acquire_loop-eq-find? :
    (r now : ℕ) (c : EepHttpClient) (b : Bool)
    → c.next_lane < length c.lanes
    → r ≤ length c.lanes
    → choice_of (acquire_loop r now c b).0
      ≡ choose
          (find? (is_free now) (walk_from c.lanes c.next_lane r))
          (b || any is_locked (walk_from c.lanes c.next_lane r))
unfolding acquire_loop
acquire_loop-eq-find? zero now c b h k = ground arith
acquire_loop-eq-find? (suc r) now c b h k =
    let (lane, e) = get_elem?_lt c.lanes c.next_lane h in
    let c' = record c { next_lane = (c.next_lane + 1) % length c.lanes } in
    let ih =
      acquire_loop-eq-find? r now c' (b || lane.locked)
        (mod-lt_of_lt (c.next_lane + 1) (length c.lanes) c.next_lane h) (omega arith) in
    let w = walk_from_next c.lanes c.next_lane r h (omega arith) in
    acquire_loop_step r now c b lane e
    ∙ rw (drop-get_elem? c.lanes c.next_lane lane e, w)
        (choose_if b lane.locked _ (is_free now lane) lane _ _ ih)

any-not-all : (xs : List EepHttpLane) → any is_locked xs ≡ not (all (λ l. not (is_locked l)) xs)
any-not-all [] = refl
any-not-all (x ∷ xs) = ground (arith, any-not-all xs)

-- When the next lane is in range, one pass of `_acquire_lane` takes the first lane that is not locked
-- and whose breaker is available on a walk once round the lanes from the next one on. If there is
-- none, it waits when some lane is locked, and raises that all are in cooldown when none is.
pub acquire_lane-eq-find? :
    (now : ℕ) (c : EepHttpClient)
    → c.next_lane < length c.lanes
    → choice_of (acquire_lane now c).0
      ≡ choose (find? (is_free now) (walk c.lanes c.next_lane)) (any is_locked c.lanes)
unfolding acquire_lane
acquire_lane-eq-find? now c h =
    let all_round = walk_from_all c.lanes c.next_lane h in
    let same : any is_locked (walk c.lanes c.next_lane) ≡ any is_locked c.lanes =
      any-not-all (walk c.lanes c.next_lane)
      ∙ ap not (all-walk (λ l. not (is_locked l)) c.lanes c.next_lane)
      ∙ sym (any-not-all c.lanes) in
    acquire_loop-eq-find? (length c.lanes) now c false h (omega arith) ∙ rw (all_round, same)

-- What a pass that takes a lane has done.
abbrev pub Locks : EepHttpClient → Acquired × EepHttpClient → Type 0
Locks c (acquired index lane, c') =
    (get_elem? c.lanes index ≡ some lane)
    × (lane.locked ≡ false)
    × (c'.lanes ≡ set c.lanes index (record lane { locked = true }))
Locks c (waits, c') = c'.lanes ≡ c.lanes
Locks c (raises e, c') = c'.lanes ≡ c.lanes

acquire_loop-Locks : (r now : ℕ) (c : EepHttpClient) (b : Bool) → Locks c (acquire_loop r now c b)
unfolding acquire_loop
acquire_loop-Locks zero now c b = ground arith
acquire_loop-Locks (suc r) now c b =
    let c' = record c { next_lane = (c.next_lane + 1) % length c.lanes } in
    elim (Option-cases (get_elem? c.lanes c.next_lane)) [
      | inl n ↦
          let eq : acquire_loop (suc r) now c b ≡ (raises (plain_error "IndexError"), c') =
            ground arith in
          subst (Locks c) (sym eq) refl
      | inr (lane, e) ↦ elim (Bool-cases (is_free now lane)) [
        | inr busy ↦
            let eq : acquire_loop (suc r) now c b ≡ acquire_loop r now c' (b || lane.locked) =
              ground arith in
            subst (Locks c) (sym eq) (acquire_loop-Locks r now c' (b || lane.locked))
        | inl free ↦
            let eq : acquire_loop (suc r) now c b ≡ (
              acquired c.next_lane lane,
              record c' { lanes = set c.lanes c.next_lane (record lane { locked = true }) },
            ) =
              ground arith in
            subst (Locks c) (sym eq) (e, ground arith, refl)
      ]
    ]

-- A pass that takes a lane has found it unlocked at its index, has locked it there, and has changed
-- no other lane; a pass that takes none leaves all lanes as they are.
pub acquire_lane-Locks : (now : ℕ) (c : EepHttpClient) → Locks c (acquire_lane now c)
unfolding acquire_lane
acquire_lane-Locks now c = acquire_loop-Locks (length c.lanes) now c false
