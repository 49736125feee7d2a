-- ===== src/Scheduler.antt =====
-- entrypoints/scheduler.py: the coordinators that claim the recurring jobs, and what a job does.
-- The discovery and the refreshes that a job asks for answer through a function; `repr` of an
-- exception is an argument.
pub mod Rounds
pub mod Outcome
use Prim.Native.String
use govpars.Prelude.{
  ℕ, ◌*◌, String, Bool, true, false, not, Option, none, some, List, [], ◌∷◌, ◌++◌, map, str_eq,
  if◌then◌else◌, any, filter,
}
use govpars.Domain.Errors.{Exc, Result, ok, raised, cancelled, plain_error}
use govpars.Domain.Models.{
  Source, EntityType, eep_mitwork, zakup_sk, lot, notice, plan_item, source_value,
}
use govpars.Persistence.Jobs.{
  SchedulerJobStateRow, JobClaim, claim_scheduler_job, complete_scheduler_job,
}

pub record SchedulerJob : Type 0 where
  pub name : String
  pub interval_seconds : ℕ
  pub lease_seconds : ℕ

-- The intervals of the settings.
pub record RefreshSettings : Type 0 where
  pub list_refresh_seconds : ℕ
  pub active_refresh_seconds : ℕ
  pub closed_refresh_seconds : ℕ
  pub old_refresh_seconds : ℕ
  pub full_reconcile_seconds : ℕ
  pub recently_closed_window_seconds : ℕ

abbrev job : String → ℕ → ℕ → SchedulerJob
job name interval lease = record { name = name; interval_seconds = interval; lease_seconds = lease }

unfoldable pub jobs : RefreshSettings → List SchedulerJob
jobs settings =
    job "incremental_lists" settings.list_refresh_seconds (15 * 60)
    ∷ job "active_entities" settings.active_refresh_seconds (60 * 60)
    ∷ job "recently_closed" settings.closed_refresh_seconds (2 * 60 * 60)
    ∷ job "old_entities" settings.old_refresh_seconds (4 * 60 * 60)
    ∷ job "weekly_reconcile" settings.full_reconcile_seconds (24 * 60 * 60)
    ∷ []

-- The arguments of the claim of a job.
unfoldable pub claim_of : Source → SchedulerJob → JobClaim
claim_of source j = record {
  source = source_value source;
  job_name = j.name;
  interval_seconds = j.interval_seconds;
  lease_seconds = j.lease_seconds;
  start_immediately = str_eq j.name "incremental_lists";
}

-- `name in running`
abbrev pub is_running : List String → String → Bool
is_running running name = any (λ n. str_eq n name) running

-- `for job in _jobs(settings.source)`: the table, and the jobs that were started; `claimed_at` gives
-- the instant of each claim. One pass is `continue`, or the claim.
unfoldable pub try_start :
    List SchedulerJobStateRow
    → ℕ
    → Source
    → List String
    → SchedulerJob
    → Bool × List SchedulerJobStateRow
unfolding claim_of
try_start rows now source running j =
    if is_running running j.name
    then (false, rows)
    else claim_scheduler_job rows now (claim_of source j)

unfoldable pub start_jobs :
    List SchedulerJobStateRow
    → (SchedulerJob → ℕ)
    → Source
    → List String
    → List SchedulerJob
    → List SchedulerJobStateRow × List SchedulerJob
unfolding try_start
start_jobs rows claimed_at source running [] = (rows, [])
start_jobs rows claimed_at source running (j ∷ js) =
    let (claimed, rows') = try_start rows (claimed_at j) source running j in
    let (rows'', started) =
      start_jobs rows' claimed_at source (if claimed then running ++ j.name ∷ [] else running) js in
    (rows'', if claimed then j ∷ started else started)

-- One round of `while not stop_event.is_set()`: the tasks that are done leave `running`, and the
-- started jobs enter it.
unfoldable pub scheduler_round :
    List SchedulerJobStateRow
    → (SchedulerJob → ℕ)
    → Source
    → RefreshSettings
    → (String → Bool)
    → List String
    → List SchedulerJobStateRow × List String
unfolding start_jobs jobs
scheduler_round rows claimed_at source settings is_done running =
    let kept = filter (λ n. not (is_done n)) running in
    let (rows', started) = start_jobs rows claimed_at source kept (jobs settings) in
    (rows', kept ++ map (λ j. j.name) started)

-- What a job asks for.
pub data JobAction : Type 0 where
  discovery_run : EntityType → Option ℕ → ℕ → Option (List (String × String)) → String → JobAction
  enqueue_refresh : String → ℕ → Option ℕ → Option ℕ → JobAction

-- `_entity_types`
unfoldable pub entity_types : Source → List EntityType
entity_types eep_mitwork = lot ∷ notice ∷ plan_item ∷ []
entity_types zakup_sk = lot ∷ notice ∷ []

-- `_incremental_filters`; a text stands for its JSON value, and "[]" for the empty list.
unfoldable pub incremental_filters : Source → EntityType → Option (List (String × String))
incremental_filters eep_mitwork entity_type = none
incremental_filters zakup_sk lot =
    some (
      ("tenderSubjectTypes", "[]")
      ∷ ("advertStatus", "PUBLISHED")
      ∷ ("lotStatus", "PUBLISHED")
      ∷ [])
incremental_filters zakup_sk _ =
    some (("tenderSubjectTypes", "[]") ∷ ("advertStatus", "PUBLISHED") ∷ [])

-- The inner `run` of `_run_discovery_catalogs`.
unfoldable pub catalog_run : Source → Bool → EntityType → JobAction
unfolding incremental_filters
catalog_run source true entity_type =
    discovery_run entity_type (some 1) 100 (incremental_filters source entity_type) "incremental"
catalog_run source false entity_type = discovery_run entity_type none 0 none "weekly-reconcile"

-- The actions in turn, up to the first that raises.
unfoldable pub run_in_turn :
    (JobAction → Result (Unit {0})) → List JobAction → List JobAction × Result (Unit {0})
run_in_turn answer [] = ([], ok tt)
run_in_turn answer (a ∷ rest) =
    let (done, r) = run_in_turn answer rest in
    elim (answer a) [ ok _ ↦ (a ∷ done, r) | raised e ↦ (a ∷ [], raised e) ]

-- The first failure of a `gather` with `return_exceptions`
unfoldable pub first_failure : (JobAction → Result (Unit {0})) → List JobAction → Result (Unit {0})
first_failure answer [] = ok tt
first_failure answer (a ∷ rest) =
    let later = first_failure answer rest in elim (answer a) [ ok _ ↦ later | raised e ↦ raised e ]

unfoldable pub run_discovery_catalogs :
    (JobAction → Result (Unit {0})) → Source → Bool → List JobAction × Result (Unit {0})
unfolding run_in_turn first_failure catalog_run entity_types
run_discovery_catalogs answer zakup_sk incremental =
    run_in_turn answer (map (catalog_run zakup_sk incremental) (entity_types zakup_sk))
run_discovery_catalogs answer eep_mitwork incremental =
    let runs = map (catalog_run eep_mitwork incremental) (entity_types eep_mitwork) in
    (runs, first_failure answer runs)

-- `await` of one more action after what was done.
unfoldable pub followed_by :
    (JobAction → Result (Unit {0}))
    → List JobAction × Result (Unit {0})
    → JobAction
    → List JobAction × Result (Unit {0})
followed_by answer (done, raised e) a = (done, raised e)
followed_by answer (done, ok _) a = (done ++ a ∷ [], answer a)

-- The body of the `try` of `_execute_job`.
unfoldable pub job_body :
    (JobAction → Result (Unit {0}))
    → Source
    → RefreshSettings
    → String
    → List JobAction × Result (Unit {0})
unfolding run_discovery_catalogs followed_by
job_body answer source settings name =
    let nothing : List JobAction × Result (Unit {0}) = ([], ok tt) in
    if str_eq name "incremental_lists"
    then run_discovery_catalogs answer source true
    else if str_eq name "active_entities"
    then followed_by answer nothing
        (enqueue_refresh "active" 100 (some settings.active_refresh_seconds) none)
    else if str_eq name "recently_closed"
    then followed_by answer nothing (
        enqueue_refresh "recently_closed" 50 (some settings.closed_refresh_seconds)
          (some settings.recently_closed_window_seconds))
    else if str_eq name "old_entities"
    then followed_by answer nothing
        (enqueue_refresh "old" 10 (some settings.old_refresh_seconds) none)
    else if str_eq name "weekly_reconcile"
    then followed_by answer (run_discovery_catalogs answer source false)
        (enqueue_refresh "all" 0 none none)
    else ([], raised (plain_error (String.◌++◌ "Unknown scheduler job: " name)))

-- What the two `except` clauses leave in `error`, and what is raised again.
unfoldable pub job_error : (Exc → String) → Result (Unit {0}) → Option String
job_error repr (ok _) = none
job_error repr (raised cancelled) = some "scheduler job cancelled during shutdown"
job_error repr (raised e) = some (repr e)

unfoldable pub job_result : Result (Unit {0}) → Result (Unit {0})
job_result (raised cancelled) = raised cancelled
job_result _ = ok tt

-- `_execute_job`: the table after its `finally`, what was asked for, and the outcome.
unfoldable pub execute_job :
    (Exc → String)
    → (JobAction → Result (Unit {0}))
    → Source
    → RefreshSettings
    → SchedulerJob
    → ℕ
    → List SchedulerJobStateRow
    → List SchedulerJobStateRow × List JobAction × Result (Unit {0})
unfolding job_body job_error job_result
execute_job repr answer source settings j now rows =
    let (done, r) = job_body answer source settings j.name in
    (
      complete_scheduler_job rows now (source_value source) j.name (job_error repr r),
      done,
      job_result r,
    )
