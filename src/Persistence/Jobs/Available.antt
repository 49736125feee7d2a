-- ===== src/Persistence/Jobs/Available.antt =====
-- That no job of maintenance.py stays blocked: after the longest lease and its interval it can be
-- claimed, whatever calls were made and whether or not they were completed.
use govpars.Prelude.{
  ℕ, ◌+◌, ◌≤◌, ◌<◌, String, ◌≡◌, Bool, true, false, ◌&&◌, Option, none, some, List, [], ◌∷◌, arith,
  eq_iff, leb, Option-cases, all,
}
use govpars.Persistence.Jobs.{
  SchedulerJobStateRow, JobClaim, JobCall, claim_call, complete_call, is_due, started_job,
  claim_row, claim_scheduler_job, completed_job, job_step, run_calls, job_row,
}
use govpars.Persistence.Jobs.Lookup.{claim-is_due, claim-job_row, complete-job_row}
use govpars.Persistence.Jobs.Spacing.{InOrder}

abbrev is_up_to : ℕ → Option ℕ → Bool
is_up_to t none = true
is_up_to t (some u) = leb u t

-- The job has a row, which was not started after `t` and is not leased past `t + longest`.
unfoldable pub is_quiet_by : ℕ → ℕ → Option SchedulerJobStateRow → Bool
is_quiet_by longest t none = false
is_quiet_by longest t (some row) =
    is_up_to t row.last_started_at && is_up_to (t + longest) row.leased_until

-- A claim whose lease is at most `longest`.
unfoldable pub has_short_lease : ℕ → ℕ × JobCall → Bool
has_short_lease longest (now, claim_call c) = leb c.lease_seconds longest
has_short_lease longest (now, complete_call s j error) = true

module _ (source job_name : String) (longest : ℕ) where
  step-is_quiet_by :
      (rows : List SchedulerJobStateRow) (before now : ℕ) (call : JobCall)
      → before ≤ now
      → has_short_lease longest (now, call) ≡ true
      → is_quiet_by longest before (job_row rows source job_name) ≡ true
      → is_quiet_by longest now (job_row (job_step rows now call) source job_name) ≡ true
  unfolding job_step is_quiet_by has_short_lease claim_row started_job completed_job
  step-is_quiet_by rows before now (claim_call c) le s h = ground (
    arith,
    claim-job_row rows now c source job_name,
    eq_iff c.source source,
    eq_iff c.job_name job_name,
  )
  step-is_quiet_by rows before now (complete_call s j error) le short h =
      ground (arith, complete-job_row rows now s j error source job_name)

  run-is_quiet_by :
      (rows : List SchedulerJobStateRow) (now end : ℕ) (calls : List (ℕ × JobCall))
      → InOrder now calls end
      → all (has_short_lease longest) calls ≡ true
      → is_quiet_by longest now (job_row rows source job_name) ≡ true
      → is_quiet_by longest end (job_row (run_calls rows calls) source job_name) ≡ true
  unfolding run_calls is_quiet_by
  run-is_quiet_by rows now end [] o s h =
      ground (arith, Option-cases (job_row rows source job_name))
  run-is_quiet_by rows now end ((at, c) ∷ calls) o s h =
      run-is_quiet_by (job_step rows at c) at end calls o.1 (ground arith)
        (step-is_quiet_by rows now at c o.0 (ground arith) h)

-- Where the job has a row, started by `start` and leased for at most `longest` from then, after any
-- calls in order from `start` to `end` with leases of at most `longest`, a claim of the job at an
-- instant past `end + longest` and an interval past `end` succeeds, completed or not.
pub claim_scheduler_job-succeeds :
    (rows : List SchedulerJobStateRow) (c : JobClaim) (calls : List (ℕ × JobCall))
    (start end now longest : ℕ)
    → is_quiet_by longest start (job_row rows c.source c.job_name) ≡ true
    → InOrder start calls end
    → all (has_short_lease longest) calls ≡ true
    → end + longest < now
    → end + c.interval_seconds ≤ now
    → (claim_scheduler_job (run_calls rows calls) now c).0 ≡ true
unfolding is_quiet_by is_due
claim_scheduler_job-succeeds rows c calls start end now longest h o s past elapsed = ground (
  arith,
  run-is_quiet_by c.source c.job_name longest rows start end calls o s h,
  claim-is_due (run_calls rows calls) now c,
)
