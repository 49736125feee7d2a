-- ===== src/Pipeline/Drain.antt =====
-- When a worker of application/pipeline.py that drains the queue may stop: `_drain_complete` with the
-- shared `_empty_since`. The workers take the lock for each access, so their accesses are a sequence
-- of events; the clock is in seconds.
use govpars.Prelude.{
  ℕ, zero, suc, ◌+◌, ◌-◌, ◌*◌, ◌/◌, ◌≤◌, ◌<◌, max, ◌≡◌, refl, ◌⊎◌, inl, inr, Bool, true, false,
  ◌&&◌, Option, none, some, List, [], ◌∷◌, arith, leb, ◌==◌, if◌then◌else◌, Option-cases,
}
use native.Mathlib.Decide.{dec_lt}
use govpars.Domain.Models.{FrontierActivity}

-- `max(1, math.ceil(worker_count * backfill_capacity_percent / 100))`
unfoldable pub backfill_workers : ℕ → ℕ → ℕ
backfill_workers worker_count backfill_capacity_percent =
    max 1 ((worker_count * backfill_capacity_percent + 99) / 100)

-- `not (activity.depth or activity.leased)`
abbrev pub is_idle : FrontierActivity → Bool
is_idle activity = activity.depth == 0 && activity.leased == 0

-- The answer, and `_empty_since` after the call.
unfoldable pub drain_complete : ℕ → FrontierActivity → ℕ → Option ℕ → Bool × Option ℕ
drain_complete idle_grace_seconds activity now empty_since =
    if is_idle activity
    then elim empty_since [
      | none ↦ (idle_grace_seconds == 0, some now)
      | some since ↦ (leb (since + idle_grace_seconds) now, some since)
    ]
    else (false, none)

-- What touches `_empty_since`: a worker's check, and a worker that has claimed tasks.
pub data DrainEvent : Type 0 where
  checks : FrontierActivity → ℕ → DrainEvent
  claims_tasks : DrainEvent

unfoldable pub drain_event : ℕ → Option ℕ → DrainEvent → Option ℕ
drain_event grace empty_since (checks activity now) =
    (drain_complete grace activity now empty_since).1
drain_event grace empty_since claims_tasks = none

-- `_empty_since` after the events, the last of which stands first.
unfoldable pub empty_since_after : ℕ → List DrainEvent → Option ℕ
unfolding drain_event
empty_since_after grace [] = none
empty_since_after grace (e ∷ events) = drain_event grace (empty_since_after grace events) e

abbrev pub is_idle_check : DrainEvent → Bool
is_idle_check (checks activity now) = is_idle activity
is_idle_check claims_tasks = false

-- Read from the last event backwards: idle checks only, back to one at the time `since`.
abbrev pub IdleSince : ℕ → List DrainEvent → Type 0
IdleSince since [] = ⊥
IdleSince since (claims_tasks ∷ events) = ⊥
IdleSince since (checks activity now ∷ events) =
    (is_idle activity ≡ true) × ((now ≡ since) ⊎ IdleSince since events)

empty_since_after-IdleSince :
    (grace : ℕ) (events : List DrainEvent) (since : ℕ)
    → empty_since_after grace events ≡ some since
    → IdleSince since events
unfolding empty_since_after drain_complete
empty_since_after-IdleSince grace [] since h = absurd (ground arith)
empty_since_after-IdleSince grace (claims_tasks ∷ events) since h = absurd (ground arith)
empty_since_after-IdleSince grace (checks activity now ∷ events) since h =
    elim (Option-cases (empty_since_after grace events)) [
      | inl n ↦ (ground arith, inl (ground arith))
      | inr (s, e) ↦
          (ground arith, inr (empty_since_after-IdleSince grace events since (ground arith)))
    ]

-- A check answers that the drain is complete only when the queue is idle, and has been found idle by
-- every check, with no claim between them, back to a time that lies the whole grace before.
pub drain_complete-IdleSince :
    (grace : ℕ) (events : List DrainEvent) (activity : FrontierActivity) (now : ℕ)
    → (drain_complete grace activity now (empty_since_after grace events)).0 ≡ true
    → (since : ℕ) × IdleSince since (checks activity now ∷ events) × (since + grace ≤ now)
unfolding drain_complete
drain_complete-IdleSince grace events activity now h =
    elim (Option-cases (empty_since_after grace events)) [
      | inl n ↦ (now, (ground arith, inl refl), ground arith)
      | inr (s, e) ↦
          (s, (ground arith, inr (empty_since_after-IdleSince grace events s e)), ground arith)
    ]

*-mono : (n p q : ℕ) → p ≤ q → n * p ≤ n * q
*-mono zero p q h = omega arith
*-mono (suc n) p q h = omega (arith, *-mono n p q h)

-- Of at least one worker, and with a share of at most the whole capacity, at least one and at most
-- all take the backfill first. They make up the share, and one fewer does not, unless they are one.
pub backfill_workers_bounds :
    (worker_count backfill_capacity_percent : ℕ)
    → 1 ≤ worker_count
    → backfill_capacity_percent ≤ 100
    → let b = backfill_workers worker_count backfill_capacity_percent in
      (1 ≤ b)
      × (b ≤ worker_count)
      × (worker_count * backfill_capacity_percent ≤ 100 * b)
      × ((b ≡ 1) ⊎ (100 * (b - 1) < worker_count * backfill_capacity_percent))
unfolding backfill_workers
backfill_workers_bounds worker_count percent one h =
    let p : worker_count * percent ≤ worker_count * 100 = *-mono worker_count percent 100 h in
    (
      omega arith,
      omega arith,
      omega arith,
      elim (dec_lt (worker_count * percent) 101) [
        | yes low ↦ inl (omega arith)
        | no high ↦ inr (omega arith)
      ],
    )
