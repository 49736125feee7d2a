-- ===== src/Scheduler/Outcome.antt =====
-- What a job of entrypoints/scheduler.py leaves in its row, whatever its actions answer.
use govpars.Prelude.{
  ℕ, String, ◌≡◌, refl, ◌∙◌, Bool, true, false, ◌&&◌, Option, none, some, List, [], ◌∷◌, ◌++◌, map,
  arith, str_eq, eq_iff, if◌then◌else◌, any, all,
}
use govpars.Domain.Errors.{Exc, Result, ok, raised, cancelled, retriable, lease_lost, other}
use govpars.Domain.Models.{Source, source_value, eep_mitwork, zakup_sk}
use govpars.Persistence.Jobs.{SchedulerJobStateRow, kept_error, completed_job, job_row}
use govpars.Persistence.Jobs.Lookup.{complete-job_row}
use govpars.Scheduler.{
  enqueue_refresh, jobs, catalog_run, entity_types, JobAction, RefreshSettings, SchedulerJob,
  run_in_turn, first_failure, followed_by, run_discovery_catalogs, job_body, job_error, execute_job,
}

abbrev pub succeeded : Result (Unit {0}) → Bool
succeeded (ok _) = true
succeeded (raised e) = false

-- Every action that was asked for answered without an exception.
abbrev pub all_succeed : (JobAction → Result (Unit {0})) → List JobAction → Bool
all_succeed answer actions = all (λ a. succeeded (answer a)) actions

-- A run that succeeds exactly when all that it asked for did.
abbrev IsHonest : (JobAction → Result (Unit {0})) → List JobAction × Result (Unit {0}) → Type 0
IsHonest answer run = succeeded run.1 ≡ all_succeed answer run.0

module _ (answer : JobAction → Result (Unit {0})) where
  run_in_turn-IsHonest : (actions : List JobAction) → IsHonest answer (run_in_turn answer actions)
  unfolding run_in_turn
  run_in_turn-IsHonest [] = refl
  run_in_turn-IsHonest (a ∷ actions) = ground (arith, run_in_turn-IsHonest actions)

  first_failure-IsHonest :
      (actions : List JobAction)
      → succeeded (first_failure answer actions) ≡ all_succeed answer actions
  unfolding first_failure
  first_failure-IsHonest [] = refl
  first_failure-IsHonest (a ∷ actions) = ground (arith, first_failure-IsHonest actions)

  all_succeed-append :
      (done : List JobAction) (a : JobAction)
      → all_succeed answer (done ++ a ∷ []) ≡ (all_succeed answer done && succeeded (answer a))
  all_succeed-append [] a = ground arith
  all_succeed-append (b ∷ done) a = ground (arith, all_succeed-append done a)

  followed_by-IsHonest :
      (run : List JobAction × Result (Unit {0})) (a : JobAction)
      → IsHonest answer run
      → IsHonest answer (followed_by answer run a)
  unfolding followed_by
  followed_by-IsHonest (done, ok _) a h = ground (arith, all_succeed-append done a)
  followed_by-IsHonest (done, raised e) a h = h

  catalogs-IsHonest :
      (source : Source) (incremental : Bool)
      → IsHonest answer (run_discovery_catalogs answer source incremental)
  unfolding run_discovery_catalogs
  catalogs-IsHonest eep_mitwork incremental =
      first_failure-IsHonest (map (catalog_run eep_mitwork incremental) (entity_types eep_mitwork))
  catalogs-IsHonest zakup_sk incremental =
      run_in_turn-IsHonest (map (catalog_run zakup_sk incremental) (entity_types zakup_sk))

  job_body-IsHonest :
      (source : Source) (settings : RefreshSettings) (name : String)
      → any (λ j. str_eq j.name name) (jobs settings) ≡ true
      → IsHonest answer (job_body answer source settings name)
  unfolding job_body jobs
  job_body-IsHonest source settings name known = ground (
    arith,
    eq_iff name "incremental_lists",
    eq_iff "incremental_lists" name,
    eq_iff name "active_entities",
    eq_iff "active_entities" name,
    eq_iff name "recently_closed",
    eq_iff "recently_closed" name,
    eq_iff name "old_entities",
    eq_iff "old_entities" name,
    eq_iff name "weekly_reconcile",
    eq_iff "weekly_reconcile" name,
    catalogs-IsHonest source true,
    catalogs-IsHonest source false,
    followed_by-IsHonest ([], ok tt)
        (enqueue_refresh "active" 100 (some settings.active_refresh_seconds) none) refl,
    followed_by-IsHonest ([], ok tt)
        (enqueue_refresh "recently_closed" 50 (some settings.closed_refresh_seconds)
          (some settings.recently_closed_window_seconds))
        refl,
    followed_by-IsHonest ([], ok tt)
        (enqueue_refresh "old" 10 (some settings.old_refresh_seconds) none) refl,
    followed_by-IsHonest (run_discovery_catalogs answer source false)
        (enqueue_refresh "all" 0 none none) (catalogs-IsHonest source false),
  )

abbrev pub is_none : Option String → Bool
is_none none = true
is_none (some e) = false

-- The error that is stored is missing exactly after a success.
kept_error-job_error :
    (repr : Exc → String) (r : Result (Unit {0}))
    → ((e : Exc) → str_eq (repr e) "" ≡ false)
    → is_none (kept_error (job_error repr r)) ≡ succeeded r
unfolding kept_error job_error
kept_error-job_error repr (ok _) h = refl
kept_error-job_error repr (raised cancelled) h = refl
kept_error-job_error repr (raised (retriable e)) h = ground (arith, h (retriable e))
kept_error-job_error repr (raised (lease_lost e)) h = ground (arith, h (lease_lost e))
kept_error-job_error repr (raised (other e)) h = ground (arith, h (other e))

-- The row of a job that has ended: not leased, the success dated where all went well.
pub record IsEnded (ok_ : Bool) (now : ℕ) (before after : SchedulerJobStateRow) : Type 0 where
  pub free : after.leased_until ≡ none
  pub success : after.last_success_at ≡ (if ok_ then some now else before.last_success_at)
  pub error : is_none after.last_error ≡ ok_
  pub start : after.last_started_at ≡ before.last_started_at

-- However the actions of a known job answer, cancellation included, when it has ended the lease of
-- its row is given back, the date of the last success is the present one exactly where each action
-- asked for succeeded, and an error is stored exactly where one did not, provided that no exception
-- has an empty `repr`.
pub execute_job-IsEnded :
    (repr : Exc → String) (answer : JobAction → Result (Unit {0})) (source : Source)
    (settings : RefreshSettings) (j : SchedulerJob) (now : ℕ) (rows : List SchedulerJobStateRow)
    (row : SchedulerJobStateRow)
    → ((e : Exc) → str_eq (repr e) "" ≡ false)
    → any (λ k. str_eq k.name j.name) (jobs settings) ≡ true
    → job_row rows (source_value source) j.name ≡ some row
    → (row' : SchedulerJobStateRow) × (job_row
          (execute_job repr answer source settings j now rows).0
          (source_value source)
          j.name
        ≡ some row')
      × IsEnded
          (all_succeed answer (execute_job repr answer source settings j now rows).1)
          now
          row
          row'
unfolding execute_job completed_job
execute_job-IsEnded repr answer source settings j now rows row named known found =
    let (done, r) = job_body answer source settings j.name in
    let honest = job_body-IsHonest answer source settings j.name known in
    let kept = kept_error-job_error repr r named in
    let error = job_error repr r in
    (
      completed_job row error now,
      ground (
        arith,
        complete-job_row rows now (source_value source) j.name error (source_value source) j.name,
        eq_iff (source_value source) (source_value source),
        eq_iff j.name j.name,
      ),
      record { free = refl; success = ground arith; error = kept ∙ honest; start = refl },
    )
