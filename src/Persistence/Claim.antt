-- ===== src/Persistence/Claim.antt =====
-- `claim` and `activity` of infrastructure/persistence/postgres/repositories.py. The rows that other
-- transactions have locked are an argument. PostgreSQL promises no order for RETURNING: it is that
-- of the table here.
pub mod Exclusive
pub mod Rows
use govpars.Prelude.{
  ℕ, ◌+◌, String, Bool, true, false, not, ◌&&◌, ◌||◌, Option, none, some, List, [], ◌∷◌, map, ltb,
  leb, ◌==◌, if◌then◌else◌, length, take, any, filter, count_if,
}
use govpars.Prelude.Dict.{put, first_chars}
use govpars.Prelude.Int.{ℤ, pos, leb_ℤ, max_ℤ}
use govpars.Prelude.Sort.{sort_by}
use govpars.Domain.Models.{
  Source, EntityIdentity, Payload, DiscoveredEntity, FrontierTask, FrontierActivity, source_eq,
  same_identity, identity_le,
}
use govpars.Persistence.Tables.{
  SourceEntityRow, CrawlFrontierRow, CrawlTaskHistoryRow, FetchFailureRow, Database, is_lease_free,
  has_source, entity_of,
}

-- The WHERE clause of `claim`, less the rows that SKIP LOCKED leaves out.
unfoldable pub is_claimable : Database → ℕ → Option Source → Bool → List ℕ → CrawlFrontierRow → Bool
unfolding has_source is_lease_free
is_claimable db now source backfill_only locked row =
    leb row.available_at now
    && (is_lease_free row now
        && (has_source db source row
            && ((not backfill_only || leb_ℤ row.priority (pos 0))
                && not (any (λ i. i == row.id) locked))))

-- ORDER BY priority DESC, available_at ASC, id ASC
unfoldable pub claims_before : CrawlFrontierRow → CrawlFrontierRow → Bool
claims_before a b =
    if not (leb_ℤ a.priority b.priority)
    then true
    else if not (leb_ℤ b.priority a.priority)
    then false
    else if ltb a.available_at b.available_at
    then true
    else if ltb b.available_at a.available_at
    then false
    else leb a.id b.id

unfoldable pub candidates : Database → ℕ → Option Source → ℕ → Bool → List ℕ → List CrawlFrontierRow
unfolding claims_before is_claimable
candidates db now source limit backfill_only locked = take limit (
    sort_by claims_before
      (filter (is_claimable db now source backfill_only locked) db.crawl_frontier))

abbrev pub has_id_of : List CrawlFrontierRow → CrawlFrontierRow → Bool
has_id_of chosen row = any (λ c. c.id == row.id) chosen

unfoldable pub leased_row : CrawlFrontierRow → String → ℕ → ℕ → CrawlFrontierRow
leased_row row worker_id now lease_seconds = record row {
  lease_owner = some worker_id;
  leased_until = some (now + lease_seconds);
  attempt = row.attempt + 1;
}

-- UPDATE … FROM candidates
unfoldable pub lease_rows :
    List CrawlFrontierRow → String → ℕ → ℕ → List CrawlFrontierRow → List CrawlFrontierRow
unfolding leased_row
lease_rows chosen worker_id now lease_seconds =
    map (λ r. if has_id_of chosen r then leased_row r worker_id now lease_seconds else r)

task_of : CrawlFrontierRow → SourceEntityRow → FrontierTask
task_of row e = record {
  id = row.id;
  identity = e.identity;
  task_type = row.task_type;
  priority = row.priority;
  attempt = row.attempt;
  payload = row.payload;
}

-- RETURNING, joined with the entities
unfoldable pub tasks_of : Database → List CrawlFrontierRow → List FrontierTask
unfolding task_of entity_of
tasks_of db [] = []
tasks_of db (row ∷ rows) = elim (entity_of db row) [
  | none ↦ tasks_of db rows
  | some e ↦ task_of row e ∷ tasks_of db rows
]

unfoldable pub claim :
    Database → ℕ → List ℕ → String → Option Source → ℕ → ℕ → Bool → Database × List FrontierTask
unfolding candidates lease_rows tasks_of
claim db now locked worker_id source limit lease_seconds backfill_only =
    let chosen = candidates db now source limit backfill_only locked in
    let rows = lease_rows chosen worker_id now lease_seconds db.crawl_frontier in
    (record db { crawl_frontier = rows }, tasks_of db (filter (has_id_of chosen) rows))

-- The arguments of a call of `claim`.
pub record ClaimCall : Type 0 where
  pub now : ℕ
  pub locked : List ℕ
  pub worker_id : String
  pub source : Option Source
  pub limit : ℕ
  pub lease_seconds : ℕ
  pub backfill_only : Bool

abbrev pub call_claim : Database → ClaimCall → Database × List FrontierTask
call_claim db c =
    claim db c.now c.locked c.worker_id c.source c.limit c.lease_seconds c.backfill_only

unfoldable pub activity : Database → ℕ → Source → FrontierActivity
unfolding has_source is_lease_free
activity db now source =
    let rows = filter (has_source db (some source)) db.crawl_frontier in
    record {
      depth = length rows;
      ready = count_if (λ r. leb r.available_at now && is_lease_free r now) rows;
      delayed = count_if (λ r. ltb now r.available_at) rows;
      leased = count_if (λ r. not (is_lease_free r now)) rows;
    }
