-- ===== src/Persistence/Jobs.antt =====
-- `claim_scheduler_job` and `complete_scheduler_job` of
-- infrastructure/persistence/postgres/maintenance.py over the rows of the table
-- `scheduler_job_state`, in which (source, job_name) is unique. Each is one transaction and one step
-- here; `now()` is an argument.
pub mod Lookup
pub mod Spacing
pub mod Available
use govpars.Prelude.{
  ℕ, ◌+◌, String, Bool, true, false, ◌&&◌, Option, none, some, List, [], ◌∷◌, str_eq, ltb, leb,
  if◌then◌else◌, find?,
}
use govpars.Prelude.Dict.{first_chars}

pub record SchedulerJobStateRow : Type 0 where
  pub source : String
  pub job_name : String
  pub last_started_at : Option ℕ
  pub last_success_at : Option ℕ
  pub leased_until : Option ℕ
  pub last_error : Option String
  pub updated_at : ℕ

abbrev pub is_job : String → String → SchedulerJobStateRow → Bool
is_job source job_name row = str_eq row.source source && str_eq row.job_name job_name

-- INSERT … ON CONFLICT DO NOTHING: the row where there is none
unfoldable pub inserted_job : ℕ → String → String → Bool → SchedulerJobStateRow
inserted_job now source job_name start_immediately = record {
  source = source;
  job_name = job_name;
  last_started_at = if start_immediately then none else some now;
  last_success_at = none;
  leased_until = none;
  last_error = none;
  updated_at = now;
}

-- `t IS NULL OR t < now()`
abbrev is_past : Option ℕ → ℕ → Bool
is_past none now = true
is_past (some t) now = ltb t now

-- `t IS NULL OR t <= now() - interval`
abbrev has_elapsed : Option ℕ → ℕ → ℕ → Bool
has_elapsed none interval now = true
has_elapsed (some t) interval now = leb (t + interval) now

-- The condition of the UPDATE.
unfoldable pub is_due : SchedulerJobStateRow → ℕ → ℕ → Bool
is_due row interval now =
    is_past row.leased_until now && has_elapsed row.last_started_at interval now

unfoldable pub started_job : SchedulerJobStateRow → ℕ → ℕ → SchedulerJobStateRow
started_job row lease now = record row {
  last_started_at = some now;
  leased_until = some (now + lease);
  last_error = none;
  updated_at = now;
}

-- The UPDATE on the row of the job, and whether it returned an id.
unfoldable pub claim_row : SchedulerJobStateRow → ℕ → ℕ → ℕ → Bool × SchedulerJobStateRow
unfolding is_due started_job
claim_row row interval lease now =
    if is_due row interval now then (true, started_job row lease now) else (false, row)

-- The arguments of one call of `claim_scheduler_job`.
pub record JobClaim : Type 0 where
  pub source : String
  pub job_name : String
  pub interval_seconds : ℕ
  pub lease_seconds : ℕ
  pub start_immediately : Bool

abbrev claim_by : JobClaim → SchedulerJobStateRow → ℕ → Bool × SchedulerJobStateRow
claim_by c row now = claim_row row c.interval_seconds c.lease_seconds now

unfoldable pub claim_scheduler_job :
    List SchedulerJobStateRow → ℕ → JobClaim → Bool × List SchedulerJobStateRow
unfolding claim_row inserted_job
claim_scheduler_job [] now c =
    let (claimed, row) =
      claim_by c (inserted_job now c.source c.job_name c.start_immediately) now in
    (claimed, row ∷ [])
claim_scheduler_job (row ∷ rows) now c =
    let (claimed, rest) = claim_scheduler_job rows now c in
    let (claimed', row') = claim_by c row now in
    if is_job c.source c.job_name row then (claimed', row' ∷ rows) else (claimed, row ∷ rest)

-- `error[:4000] if error else None`
unfoldable pub kept_error : Option String → Option String
kept_error none = none
kept_error (some e) = if str_eq e "" then none else some (first_chars 4000 e)

unfoldable pub completed_job : SchedulerJobStateRow → Option String → ℕ → SchedulerJobStateRow
unfolding kept_error
completed_job row error now = record row {
  last_success_at = elim (kept_error error) [ none ↦ some now | some _ ↦ row.last_success_at ];
  leased_until = none;
  last_error = kept_error error;
  updated_at = now;
}

unfoldable pub complete_scheduler_job :
    List SchedulerJobStateRow → ℕ → String → String → Option String → List SchedulerJobStateRow
unfolding completed_job
complete_scheduler_job [] now source job_name error = []
complete_scheduler_job (row ∷ rows) now source job_name error =
    let rest = complete_scheduler_job rows now source job_name error in
    if is_job source job_name row then completed_job row error now ∷ rows else row ∷ rest

-- A call that a coordinator or a job makes.
pub data JobCall : Type 0 where
  claim_call : JobClaim → JobCall
  complete_call : String → String → Option String → JobCall

unfoldable pub job_step : List SchedulerJobStateRow → ℕ → JobCall → List SchedulerJobStateRow
unfolding claim_scheduler_job complete_scheduler_job
job_step rows now (claim_call c) = (claim_scheduler_job rows now c).1
job_step rows now (complete_call source job_name error) =
    complete_scheduler_job rows now source job_name error

-- A run of calls, each with its instant.
unfoldable pub run_calls :
    List SchedulerJobStateRow → List (ℕ × JobCall) → List SchedulerJobStateRow
unfolding job_step
run_calls rows [] = rows
run_calls rows ((now, c) ∷ calls) = run_calls (job_step rows now c) calls

-- The row of a job.
unfoldable pub job_row : List SchedulerJobStateRow → String → String → Option SchedulerJobStateRow
job_row rows source job_name = find? (is_job source job_name) rows
