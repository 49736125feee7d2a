-- ===== src/Persistence/Jobs/Lookup.antt =====
-- What one call of maintenance.py does to the row of a job, and to the rows of the others.
use govpars.Prelude.{
  ℕ, String, ◌≡◌, Bool, ◌&&◌, Option, none, some, List, [], ◌∷◌, arith, str_eq, eq_iff,
  if◌then◌else◌,
}
use govpars.Persistence.Jobs.{
  SchedulerJobStateRow, JobClaim, inserted_job, is_due, started_job, claim_row, claim_scheduler_job,
  completed_job, complete_scheduler_job, job_row,
}

-- Two pairs of names that are the same.
abbrev pub same_job : String → String → String → String → Bool
same_job s j source job_name = str_eq s source && str_eq j job_name

-- The row that a claim finds, which it inserts where there is none.
abbrev pub claimable_row : List SchedulerJobStateRow → ℕ → JobClaim → SchedulerJobStateRow
claimable_row rows now c = elim (job_row rows c.source c.job_name) [
  | none ↦ inserted_job now c.source c.job_name c.start_immediately
  | some row ↦ row
]

abbrev pub map_row :
    (SchedulerJobStateRow → SchedulerJobStateRow)
    → Option SchedulerJobStateRow
    → Option SchedulerJobStateRow
map_row f none = none
map_row f (some row) = some (f row)

pub claim-is_due :
    (rows : List SchedulerJobStateRow) (now : ℕ) (c : JobClaim)
    → (claim_scheduler_job rows now c).0 ≡ is_due (claimable_row rows now c) c.interval_seconds now
unfolding claim_scheduler_job claim_row job_row
claim-is_due [] now c = ground arith
claim-is_due (r ∷ rows) now c = ground (arith, claim-is_due rows now c)

pub claim-job_row :
    (rows : List SchedulerJobStateRow) (now : ℕ) (c : JobClaim) (source job_name : String)
    → job_row (claim_scheduler_job rows now c).1 source job_name ≡ (
        if same_job c.source c.job_name source job_name
        then some (claim_row (claimable_row rows now c) c.interval_seconds c.lease_seconds now).1
        else job_row rows source job_name)
unfolding claim_scheduler_job claim_row job_row inserted_job started_job
claim-job_row [] now c source job_name = ground arith
claim-job_row (r ∷ rows) now c source job_name = ground (
  arith,
  claim-job_row rows now c source job_name,
  eq_iff r.source c.source,
  eq_iff r.source source,
  eq_iff c.source source,
  eq_iff r.job_name c.job_name,
  eq_iff r.job_name job_name,
  eq_iff c.job_name job_name,
)

pub complete-job_row :
    (rows : List SchedulerJobStateRow) (now : ℕ) (s j : String) (error : Option String)
    (source job_name : String)
    → job_row (complete_scheduler_job rows now s j error) source job_name ≡ (
        if same_job s j source job_name
        then map_row (λ row. completed_job row error now) (job_row rows source job_name)
        else job_row rows source job_name)
unfolding complete_scheduler_job completed_job job_row
complete-job_row [] now s j error source job_name = ground arith
complete-job_row (r ∷ rows) now s j error source job_name = ground (
  arith,
  complete-job_row rows now s j error source job_name,
  eq_iff r.source s,
  eq_iff r.source source,
  eq_iff s source,
  eq_iff r.job_name j,
  eq_iff r.job_name job_name,
  eq_iff j job_name,
)
