-- ===== src/Persistence/Settle.antt =====
-- What ends or prolongs a lease in infrastructure/persistence/postgres/repositories.py: `complete`,
-- `release`, `release_by_owner`, `extend_lease`, `retry` and `fail`. `complete` and `fail` read the
-- row without a lock and delete it by its id when the transaction ends: what other transactions
-- commit in between is their argument `others`. Each other method is one statement that writes.
use govpars.Prelude.{
  ℕ, ◌+◌, max, String, Bool, false, not, ◌&&◌, Option, none, some, List, [], ◌∷◌, ◌++◌, map, str_eq,
  ◌==◌, if◌then◌else◌, any, filter, count_if, find?,
}
use govpars.Prelude.Dict.{first_chars}
use govpars.Domain.Models.{FrontierTask}
use govpars.Persistence.Tables.{CrawlFrontierRow, CrawlTaskHistoryRow, FetchFailureRow, Database}

-- `id == task.id AND attempt == task.attempt`
abbrev pub is_attempt : FrontierTask → CrawlFrontierRow → Bool
is_attempt task row = row.id == task.id && row.attempt == task.attempt

-- `lease_owner == worker_id`; NULL equals nothing
abbrev pub is_owned_by : String → CrawlFrontierRow → Bool
is_owned_by worker_id row = elim row.lease_owner [ none ↦ false | some w ↦ str_eq w worker_id ]

-- The SELECT of `complete` and `fail`.
unfoldable pub select_attempt : Database → FrontierTask → Option CrawlFrontierRow
select_attempt db task = find? (is_attempt task) db.crawl_frontier

-- From the test `frontier is None` on: the end of the row that was found is recorded, with the
-- failure where there is one, and the row with its id is deleted, whoever has it by now.
unfoldable pub finish :
    Database
    → Option CrawlFrontierRow
    → (CrawlFrontierRow → CrawlTaskHistoryRow)
    → (CrawlFrontierRow → List FetchFailureRow)
    → Database
finish db found history failures = elim found [
  | none ↦ db
  | some row ↦ record db {
    crawl_frontier = filter (λ r. not (r.id == row.id)) db.crawl_frontier;
    crawl_task_history = db.crawl_task_history ++ history row ∷ [];
    fetch_failures = db.fetch_failures ++ failures row;
  }
]

unfoldable pub complete_found : Database → Option CrawlFrontierRow → Option String → Database
unfolding finish
complete_found db found content_hash =
    finish db found
      (λ row. record {
        source_entity_fk = row.source_entity_fk;
        task_type = row.task_type;
        attempt = row.attempt;
        outcome = "success";
        error = none;
        content_hash = content_hash;
      })
      (λ row. [])

unfoldable pub complete : (Database → Database) → Database → FrontierTask → Option String → Database
unfolding select_attempt complete_found
complete others db task content_hash =
    complete_found (others db) (select_attempt db task) content_hash

-- UPDATE … WHERE, and the number of rows that it changed
unfoldable pub update_where :
    (CrawlFrontierRow → Bool) → (CrawlFrontierRow → CrawlFrontierRow) → Database → Database × ℕ
update_where p f db = (
  record db { crawl_frontier = map (λ r. if p r then f r else r) db.crawl_frontier },
  count_if p db.crawl_frontier,
)

abbrev pub unleased : CrawlFrontierRow → CrawlFrontierRow
unleased row = record row { lease_owner = none; leased_until = none }

unfoldable pub release : Database → List FrontierTask → String → Database × ℕ
unfolding update_where
release db [] worker_id = (db, 0)
release db (t ∷ ts) worker_id =
    update_where
      (λ row. any (λ (u : FrontierTask). u.id == row.id) (t ∷ ts) && is_owned_by worker_id row)
      unleased db

unfoldable pub release_by_owner : Database → String → Database × ℕ
unfolding update_where
release_by_owner db worker_id = update_where (is_owned_by worker_id) unleased db

unfoldable pub extend_lease : Database → ℕ → FrontierTask → String → ℕ → Database × Bool
unfolding update_where
extend_lease db now task worker_id lease_seconds =
    let (db', rowcount) =
      update_where
        (λ row. row.id == task.id && (is_owned_by worker_id row && row.attempt == task.attempt))
        (λ row. record row { leased_until = some (now + max 1 lease_seconds) }) db in
    (db', not (rowcount == 0))

failure_row : CrawlFrontierRow → String → Option ℕ → String → FetchFailureRow
failure_row row strategy http_status error = record {
  source_entity_fk = row.source_entity_fk;
  strategy = strategy;
  http_status = http_status;
  error = first_chars 4000 error;
}

unfoldable pub retry : Database → ℕ → FrontierTask → String → ℕ → String → Option ℕ → Database
unfolding update_where failure_row
retry db now task error delay_seconds strategy http_status =
    let (db', _) =
      update_where (is_attempt task)
        (λ row. record row {
          lease_owner = none;
          leased_until = none;
          available_at = now + delay_seconds;
          last_error = some (first_chars 4000 error);
        })
        db in
    elim (find? (is_attempt task) db.crawl_frontier) [
      | none ↦ db'
      | some row ↦ record db' {
        fetch_failures = db'.fetch_failures ++ failure_row row strategy http_status error ∷ [];
      }
    ]

unfoldable pub fail_found :
    Database → Option CrawlFrontierRow → String → String → Option ℕ → Database
unfolding finish failure_row
fail_found db found error strategy http_status =
    finish db found
      (λ row. record {
        source_entity_fk = row.source_entity_fk;
        task_type = row.task_type;
        attempt = row.attempt;
        outcome = "failed";
        error = some (first_chars 4000 error);
        content_hash = none;
      })
      (λ row. failure_row row strategy http_status error ∷ [])

unfoldable pub fail :
    (Database → Database) → Database → FrontierTask → String → String → Option ℕ → Database
unfolding select_attempt fail_found
fail others db task error strategy http_status =
    fail_found (others db) (select_attempt db task) error strategy http_status
