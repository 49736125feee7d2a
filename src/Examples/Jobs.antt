-- ===== src/Examples/Jobs.antt =====
-- A small table of jobs for
-- src/procurement_parser/infrastructure/persistence/postgres/maintenance.py and
-- src/procurement_parser/entrypoints/scheduler.py.
use govpars.Prelude.{
  ℕ, ◌+◌, ◌≤◌, ◌<◌, String, ◌≡◌, refl, true, false, none, some, List, [], ◌∷◌, ◌++◌, map, arith,
  filter,
}
use govpars.Domain.Errors.{Exc, Result, raised, plain_error}
use govpars.Domain.Models.{zakup_sk}
use govpars.Persistence.Jobs.{
  SchedulerJobStateRow, JobClaim, JobCall, claim_call, complete_call, claim_scheduler_job,
  run_calls, job_row,
}
use govpars.Persistence.Jobs.Spacing.{
  completes, claim_scheduler_job-spacing, claim_scheduler_job-lease,
}
use govpars.Persistence.Jobs.Available.{is_quiet_by, has_short_lease, claim_scheduler_job-succeeds}
use govpars.Scheduler.{JobAction, RefreshSettings, SchedulerJob, jobs, start_jobs, execute_job}
use govpars.Scheduler.Rounds.{starts, start_jobs-starts}
use govpars.Scheduler.Outcome.{IsEnded, all_succeed, execute_job-IsEnded}

abbrev refresh_claim : JobClaim
refresh_claim = record {
  source = "zakup-sk";
  job_name = "old_entities";
  interval_seconds = 60;
  lease_seconds = 30;
  start_immediately = true;
}

abbrev refresh_row : SchedulerJobStateRow
refresh_row = record {
  source = "zakup-sk";
  job_name = "old_entities";
  last_started_at = some 10;
  last_success_at = none;
  leased_until = some 40;
  last_error = none;
  updated_at = 10;
}

abbrev other_calls : List (ℕ × JobCall)
other_calls =
    (12, claim_call refresh_claim)
    ∷ (15, claim_call (record refresh_claim { job_name = "weekly_reconcile" }))
    ∷ (20, complete_call "zakup-sk" "weekly_reconcile" none)
    ∷ []

claim_scheduler_job-spacing_example : 10 + 60 ≤ 90
unfolding run_calls
claim_scheduler_job-spacing_example =
    claim_scheduler_job-spacing [] 10 refresh_claim
      (other_calls ++ (25, complete_call "zakup-sk" "old_entities" (some "timeout")) ∷ []) 90 60 30
      false refl (omega arith, (omega arith, (omega arith, (omega arith, omega arith)))) refl

claim_scheduler_job-lease_example : 10 + 30 < 75
unfolding claim_scheduler_job completes run_calls
claim_scheduler_job-lease_example =
    claim_scheduler_job-lease [] 10 refresh_claim other_calls 75 60 30 true refl
      (omega arith, (omega arith, (omega arith, omega arith))) refl refl

claim_scheduler_job-succeeds_example :
    (claim_scheduler_job (run_calls (refresh_row ∷ []) other_calls) 90 refresh_claim).0 ≡ true
unfolding is_quiet_by job_row has_short_lease
claim_scheduler_job-succeeds_example =
    claim_scheduler_job-succeeds (refresh_row ∷ []) refresh_claim other_calls 10 25 90 30 refl
      (omega arith, (omega arith, (omega arith, omega arith))) refl (omega arith) (omega arith)

abbrev some_settings : RefreshSettings
some_settings = record {
  list_refresh_seconds = 300;
  active_refresh_seconds = 900;
  closed_refresh_seconds = 86400;
  old_refresh_seconds = 60;
  full_reconcile_seconds = 604800;
  recently_closed_window_seconds = 1209600;
}

start_jobs-starts_example :
    (start_jobs
      (refresh_row ∷ [])
      (λ _. 90)
      zakup_sk
      ("active_entities" ∷ [])
      (jobs some_settings)).1
    ≡ filter
        (starts (refresh_row ∷ []) (λ _. 90) zakup_sk ("active_entities" ∷ []))
        (jobs some_settings)
start_jobs-starts_example =
    start_jobs-starts (refresh_row ∷ []) (λ _. 90) zakup_sk ("active_entities" ∷ []) some_settings

-- The first list is due at once, the old entities after a minute.
started_names :
    map
      (λ j. j.name)
      (start_jobs
        (refresh_row ∷ [])
        (λ _. 90)
        zakup_sk
        ("active_entities" ∷ [])
        (jobs some_settings)).1
    ≡ ("incremental_lists" ∷ "old_entities" ∷ [])
unfolding start_jobs jobs claim_scheduler_job
started_names = refl

abbrev old_job : SchedulerJob
old_job = record { name = "old_entities"; interval_seconds = 60; lease_seconds = 14400 }

abbrev down : JobAction → Result (Unit {0})
down a = raised (plain_error "ConnectionError()")

abbrev error_repr : Exc → String
error_repr e = "Exception()"

execute_job-IsEnded_example :
    (row' : SchedulerJobStateRow) × (job_row
        (execute_job error_repr down zakup_sk some_settings old_job 95 (refresh_row ∷ [])).0
        "zakup-sk"
        "old_entities"
      ≡ some row')
    × IsEnded
        (all_succeed down
          (execute_job error_repr down zakup_sk some_settings old_job 95 (refresh_row ∷ [])).1)
        95
        refresh_row
        row'
unfolding jobs job_row
execute_job-IsEnded_example =
    execute_job-IsEnded error_repr down zakup_sk some_settings old_job 95 (refresh_row ∷ [])
      refresh_row (λ _. refl) refl refl
