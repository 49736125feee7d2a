-- ===== src/Scheduler/Rounds.antt =====
-- Which jobs a round of entrypoints/scheduler.py starts.
use govpars.Prelude.{
  ℕ, String, ◌≡◌, refl, Bool, false, not, ◌&&◌, ◌||◌, List, [], ◌∷◌, ◌++◌, arith, str_eq,
  if◌then◌else◌, any, filter,
}
use govpars.Domain.Models.{Source, source_value}
use govpars.Persistence.Jobs.{SchedulerJobStateRow, is_due, job_row}
use govpars.Persistence.Jobs.Lookup.{claimable_row, claim-is_due, claim-job_row}
use govpars.Scheduler.{
  SchedulerJob, RefreshSettings, jobs, claim_of, is_running, try_start, start_jobs,
}

-- The job is not running, and its row is due.
unfoldable pub starts :
    List SchedulerJobStateRow → (SchedulerJob → ℕ) → Source → List String → SchedulerJob → Bool
starts rows claimed_at source running j =
    not (is_running running j.name)
    && is_due (claimable_row rows (claimed_at j) (claim_of source j)) j.interval_seconds
        (claimed_at j)

abbrev has_name : String → SchedulerJob → Bool
has_name name j = str_eq name j.name

-- No two jobs share a name.
abbrev pub HasNames : List SchedulerJob → Type 0
HasNames [] = Unit {0}
HasNames (j ∷ js) = (any (has_name j.name) js ≡ false) × HasNames js

is_running-append :
    (running : List String) (name n : String)
    → is_running (running ++ name ∷ []) n ≡ (is_running running n || str_eq name n)
is_running-append [] name n = ground arith
is_running-append (r ∷ running) name n = ground (arith, is_running-append running name n)

module _ (claimed_at : SchedulerJob → ℕ) (source : Source) where
  -- One pass decides whether to start its own job, and changes nothing for the others.
  try_start-starts :
      (rows : List SchedulerJobStateRow) (running : List String) (j : SchedulerJob)
      → (try_start rows (claimed_at j) source running j).0 ≡ starts rows claimed_at source running j
  unfolding try_start starts claim_of
  try_start-starts rows running j =
      ground (arith, claim-is_due rows (claimed_at j) (claim_of source j))

  try_start-job_row :
      (rows : List SchedulerJobStateRow) (now : ℕ) (running : List String) (j : SchedulerJob)
      (name : String)
      → str_eq j.name name ≡ false
      → job_row (try_start rows now source running j).1 (source_value source) name
        ≡ job_row rows (source_value source) name
  unfolding try_start claim_of
  try_start-job_row rows now running j name h =
      ground (arith, claim-job_row rows now (claim_of source j) (source_value source) name)

  starts-try_start :
      (rows : List SchedulerJobStateRow) (b : Bool) (running : List String) (i j : SchedulerJob)
      → str_eq i.name j.name ≡ false
      → starts
          (try_start rows (claimed_at i) source running i).1
          claimed_at
          source
          (if b then running ++ i.name ∷ [] else running)
          j
        ≡ starts rows claimed_at source running j
  unfolding starts claim_of
  starts-try_start rows b running i j h = ground (
    arith,
    try_start-job_row rows (claimed_at i) running i j.name h,
    is_running-append running i.name j.name,
  )

  filter-starts :
      (rows : List SchedulerJobStateRow) (b : Bool) (running : List String) (i : SchedulerJob)
      (js : List SchedulerJob)
      → any (has_name i.name) js ≡ false
      → filter
          (starts
            (try_start rows (claimed_at i) source running i).1
            claimed_at
            source
            (if b then running ++ i.name ∷ [] else running))
          js
        ≡ filter (starts rows claimed_at source running) js
  filter-starts rows b running i [] h = refl
  filter-starts rows b running i (j ∷ js) h =
      ground (arith, starts-try_start rows b running i j, filter-starts rows b running i js)

  start_jobs-filter :
      (rows : List SchedulerJobStateRow) (running : List String) (js : List SchedulerJob)
      → HasNames js
      → (start_jobs rows claimed_at source running js).1
        ≡ filter (starts rows claimed_at source running) js
  unfolding start_jobs
  start_jobs-filter rows running [] v = refl
  start_jobs-filter rows running (j ∷ js) v =
      let r = try_start rows (claimed_at j) source running j in
      ground (
        arith,
        try_start-starts rows running j,
        filter-starts rows r.0 running j js v.0,
        start_jobs-filter r.1 (if r.0 then running ++ j.name ∷ [] else running) js v.1,
      )

jobs-HasNames : (settings : RefreshSettings) → HasNames (jobs settings)
unfolding jobs
jobs-HasNames settings = (refl, (refl, (refl, (refl, (refl, tt)))))

-- A round starts, in their order, exactly the jobs that are not running and whose row, as it stands
-- at the start of the round, is due at the instant of the claim; no claim hides another job.
pub start_jobs-starts :
    (rows : List SchedulerJobStateRow) (claimed_at : SchedulerJob → ℕ) (source : Source)
    (running : List String) (settings : RefreshSettings)
    → (start_jobs rows claimed_at source running (jobs settings)).1
      ≡ filter (starts rows claimed_at source running) (jobs settings)
start_jobs-starts rows claimed_at source running settings =
    start_jobs-filter claimed_at source rows running (jobs settings) (jobs-HasNames settings)
