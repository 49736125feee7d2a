-- ===== src/Persistence/Jobs/Spacing.antt =====
-- How far apart the claims of one job are, whatever other calls of maintenance.py the coordinators
-- and the jobs make in between.
use govpars.Prelude.{
  ℕ, ◌+◌, ◌≤◌, ◌<◌, String, ◌≡◌, Bool, true, false, ◌||◌, Option, none, some, List, [], ◌∷◌, arith,
  eq_iff, ltb, leb, Option-cases, any,
}
use govpars.Persistence.Jobs.{
  SchedulerJobStateRow, JobClaim, JobCall, claim_call, complete_call, is_due, started_job,
  claim_row, claim_scheduler_job, completed_job, job_step, run_calls, job_row,
}
use govpars.Persistence.Jobs.Lookup.{claim-is_due, claim-job_row, complete-job_row, same_job}

-- The instants of a run do not go back, and none is after `end`.
abbrev pub InOrder : ℕ → List (ℕ × JobCall) → ℕ → Type 0
InOrder start [] end = start ≤ end
InOrder start ((now, c) ∷ calls) end = (start ≤ now) × InOrder now calls end

-- The job's last start was not before `t`.
unfoldable pub started_since : ℕ → Option SchedulerJobStateRow → Bool
started_since t none = false
started_since t (some row) = elim row.last_started_at [ none ↦ false | some u ↦ leb t u ]

-- Its lease lasts until `t` or longer, or the clock is past `t`.
unfoldable pub held_until : ℕ → ℕ → Option SchedulerJobStateRow → Bool
held_until t now none = false
held_until t now (some row) = ltb t now || elim row.leased_until [ none ↦ false | some u ↦ leb t u ]

-- No call of the run completes the job.
unfoldable pub completes : String → String → ℕ × JobCall → Bool
completes source job_name (now, claim_call c) = false
completes source job_name (now, complete_call s j error) = same_job s j source job_name

module _ (source job_name : String) where
  step-started_since :
      (rows : List SchedulerJobStateRow) (t now : ℕ) (call : JobCall)
      → t ≤ now
      → started_since t (job_row rows source job_name) ≡ true
      → started_since t (job_row (job_step rows now call) source job_name) ≡ true
  unfolding job_step started_since claim_row started_job completed_job
  step-started_since rows t now (claim_call c) le h = ground (
    arith,
    claim-job_row rows now c source job_name,
    eq_iff c.source source,
    eq_iff c.job_name job_name,
  )
  step-started_since rows t now (complete_call s j error) le h =
      ground (arith, complete-job_row rows now s j error source job_name)

  run-started_since :
      (rows : List SchedulerJobStateRow) (t now end : ℕ) (calls : List (ℕ × JobCall))
      → t ≤ now
      → InOrder now calls end
      → started_since t (job_row rows source job_name) ≡ true
      → started_since t (job_row (run_calls rows calls) source job_name) ≡ true
  unfolding run_calls
  run-started_since rows t now end [] le o h = h
  run-started_since rows t now end ((at, c) ∷ calls) le o h =
      run-started_since (job_step rows at c) t at end calls (omega (arith, o.0)) o.1
        (step-started_since rows t at c (omega (arith, o.0)) h)

  step-held_until :
      (rows : List SchedulerJobStateRow) (t before now : ℕ) (call : JobCall)
      → before ≤ now
      → completes source job_name (now, call) ≡ false
      → held_until t before (job_row rows source job_name) ≡ true
      → held_until t now (job_row (job_step rows now call) source job_name) ≡ true
  unfolding job_step held_until completes claim_row started_job is_due
  step-held_until rows t before now (claim_call c) le n h = ground (
    arith,
    claim-job_row rows now c source job_name,
    eq_iff c.source source,
    eq_iff c.job_name job_name,
  )
  step-held_until rows t before now (complete_call s j error) le n h =
      ground (arith, complete-job_row rows now s j error source job_name)

  run-held_until :
      (rows : List SchedulerJobStateRow) (t now end : ℕ) (calls : List (ℕ × JobCall))
      → InOrder now calls end
      → any (completes source job_name) calls ≡ false
      → held_until t now (job_row rows source job_name) ≡ true
      → held_until t end (job_row (run_calls rows calls) source job_name) ≡ true
  unfolding run_calls held_until
  run-held_until rows t now end [] o n h =
      ground (arith, Option-cases (job_row rows source job_name))
  run-held_until rows t now end ((at, c) ∷ calls) o n h =
      run-held_until (job_step rows at c) t at end calls o.1 (ground arith)
        (step-held_until rows t now at c o.0 (ground arith) h)

-- After a claim that succeeds at `t`, whatever calls follow in order, a later claim of the job that
-- succeeds comes at least its interval after `t`.
pub claim_scheduler_job-spacing :
    (rows : List SchedulerJobStateRow) (t : ℕ) (c : JobClaim) (calls : List (ℕ × JobCall))
    (now interval lease : ℕ) (immediately : Bool)
    → (claim_scheduler_job rows t c).0 ≡ true
    → InOrder t calls now
    → (claim_scheduler_job (run_calls (claim_scheduler_job rows t c).1 calls) now (record c {
      interval_seconds = interval;
      lease_seconds = lease;
      start_immediately = immediately;
    })).0
      ≡ true
    → t + interval ≤ now
unfolding started_since is_due claim_row started_job
claim_scheduler_job-spacing rows t c calls now interval lease immediately h o again =
    let rows' = (claim_scheduler_job rows t c).1 in
    let c' = record c {
      interval_seconds = interval;
      lease_seconds = lease;
      start_immediately = immediately;
    } in
    let first : started_since t (job_row rows' c.source c.job_name) ≡ true = ground (
      arith,
      claim-job_row rows t c c.source c.job_name,
      claim-is_due rows t c,
      eq_iff c.source c.source,
      eq_iff c.job_name c.job_name,
    ) in
    ground (
      arith,
      run-started_since c.source c.job_name rows' t t now calls (omega arith) o first,
      claim-is_due (run_calls rows' calls) now c',
    )

-- After a claim that succeeds at `t`, while no call completes the job, a later claim of it that
-- succeeds comes after the end of the lease.
pub claim_scheduler_job-lease :
    (rows : List SchedulerJobStateRow) (t : ℕ) (c : JobClaim) (calls : List (ℕ × JobCall))
    (now interval lease : ℕ) (immediately : Bool)
    → (claim_scheduler_job rows t c).0 ≡ true
    → InOrder t calls now
    → any (completes c.source c.job_name) calls ≡ false
    → (claim_scheduler_job (run_calls (claim_scheduler_job rows t c).1 calls) now (record c {
      interval_seconds = interval;
      lease_seconds = lease;
      start_immediately = immediately;
    })).0
      ≡ true
    → t + c.lease_seconds < now
unfolding held_until is_due claim_row started_job
claim_scheduler_job-lease rows t c calls now interval lease immediately h o n again =
    let rows' = (claim_scheduler_job rows t c).1 in
    let end = t + c.lease_seconds in
    let c' = record c {
      interval_seconds = interval;
      lease_seconds = lease;
      start_immediately = immediately;
    } in
    let first : held_until end t (job_row rows' c.source c.job_name) ≡ true = ground (
      arith,
      claim-job_row rows t c c.source c.job_name,
      claim-is_due rows t c,
      eq_iff c.source c.source,
      eq_iff c.job_name c.job_name,
    ) in
    ground (
      arith,
      run-held_until c.source c.job_name rows' end t now calls o n first,
      claim-is_due (run_calls rows' calls) now c',
    )
