-- ===== src/Persistence/Refresh.antt =====
-- `enqueue_refresh` of infrastructure/persistence/postgres/repositories.py: the entities that a policy
-- chooses get a task. It is one statement and so one step. Seconds and the limit are natural.
pub mod Kept
use Prim.Native.String
use govpars.Prelude.{
  ℕ, ◌+◌, max, String, Bool, true, false, not, ◌&&◌, Option, none, some, List, [], ◌∷◌, ◌++◌,
  str_eq, ltb, leb, ◌==◌, if◌then◌else◌, length, take, filter,
}
use govpars.Prelude.Int.{ℤ}
use govpars.Prelude.Sort.{sort_by}
use govpars.Domain.Models.{
  Source, EntityType, lot, notice, plan_item, organization, DiscoveredEntity, source_eq,
}
use govpars.Domain.Errors.{Result, ok, raised, plain_error}
use govpars.Persistence.Tables.{Database, SourceEntityRow}
use govpars.Persistence.Enqueue.{upsert_frontier}

-- The arguments with `now()`. `status_of` is the status of an entity in the table of its kind, each of
-- which has at most one row for it, or the empty text; `matches_closed` is PostgreSQL's test of a
-- status with the pattern of the closed ones.
pub record RefreshCall : Type 0 where
  pub now : ℕ
  pub status_of : ℕ → String
  pub matches_closed : String → Bool
  pub source : Source
  pub policy : String
  pub priority : ℤ
  pub limit : ℕ
  pub older_than_seconds : ℕ
  pub newer_than_seconds : Option ℕ

-- `max(older_than_seconds, newer_than_seconds or older_than_seconds)`
unfoldable pub newer_bound : RefreshCall → ℕ
newer_bound c = elim c.newer_than_seconds [
  | none ↦ c.older_than_seconds
  | some n ↦ if n == 0 then c.older_than_seconds else max c.older_than_seconds n
]

-- `last_success_at < now() - older`
abbrev pub is_older : RefreshCall → ℕ → Bool
is_older c last = ltb (last + c.older_than_seconds) c.now

-- The predicate of a policy, on the id and the last success of an entity.
unfoldable pub policy_test : RefreshCall → Option (ℕ → ℕ → Bool)
unfolding newer_bound
policy_test c =
    if str_eq c.policy "active"
    then some (λ id last. not (c.matches_closed (c.status_of id)) && is_older c last)
    else if str_eq c.policy "recently_closed"
    then some (λ id last.
      c.matches_closed (c.status_of id) && (leb c.now (last + newer_bound c) && is_older c last))
    else if str_eq c.policy "old"
    then some (λ id last. is_older c last)
    else if str_eq c.policy "all"
    then some (λ id last. true)
    else none

abbrev pub is_refreshed_type : EntityType → Bool
is_refreshed_type lot = true
is_refreshed_type notice = true
is_refreshed_type plan_item = true
is_refreshed_type organization = false

unfoldable pub is_candidate : RefreshCall → (ℕ → ℕ → Bool) → SourceEntityRow → Bool
is_candidate c test row =
    source_eq row.identity.source c.source
    && (is_refreshed_type row.identity.entity_type
        && elim row.last_success_at [ none ↦ false | some last ↦ test row.id last ])

-- `ORDER BY last_success_at ASC, id ASC`, of rows that have a last success
abbrev success_or_zero : SourceEntityRow → ℕ
success_or_zero row = elim row.last_success_at [ none ↦ 0 | some last ↦ last ]

unfoldable pub refreshed_before : SourceEntityRow → SourceEntityRow → Bool
refreshed_before a b =
    if success_or_zero a == success_or_zero b
    then leb a.id b.id
    else leb (success_or_zero a) (success_or_zero b)

unfoldable pub refresh_candidates : Database → RefreshCall → (ℕ → ℕ → Bool) → List SourceEntityRow
unfolding is_candidate refreshed_before
refresh_candidates db c test =
    take (max 1 c.limit)
      (sort_by refreshed_before (filter (is_candidate c test) db.source_entities))

-- What is inserted for an entity. ON CONFLICT takes the greater priority and the earlier instant as
-- `enqueue` does, and leaves the payload, as merging the empty one does.
unfoldable pub refresh_item : RefreshCall → SourceEntityRow → DiscoveredEntity
refresh_item c row = record {
  identity = row.identity;
  priority = c.priority;
  task_type = "detail";
  refresh_existing = true;
  available_at = c.now;
  summary_payload = [];
}

unfoldable pub insert_refresh : Database → RefreshCall → SourceEntityRow → Database
unfolding refresh_item upsert_frontier
insert_refresh db c row = record db {
  crawl_frontier =
      upsert_frontier db.crawl_frontier db.next_frontier_id row.id (refresh_item c row);
  next_frontier_id = db.next_frontier_id + 1;
}

unfoldable pub insert_refreshes : Database → RefreshCall → List SourceEntityRow → Database
unfolding insert_refresh
insert_refreshes db c [] = db
insert_refreshes db c (row ∷ rows) = insert_refreshes (insert_refresh db c row) c rows

-- With the predicate of the policy, if it has one: the number of the rows inserted or updated.
unfoldable pub refresh_by : Database → RefreshCall → Option (ℕ → ℕ → Bool) → Result ℕ × Database
unfolding refresh_candidates insert_refreshes
refresh_by db c none =
    (raised (plain_error (String.◌++◌ "Unsupported refresh policy: " c.policy)), db)
refresh_by db c (some test) =
    let rows = refresh_candidates db c test in (ok (length rows), insert_refreshes db c rows)

unfoldable pub enqueue_refresh : Database → RefreshCall → Result ℕ × Database
unfolding policy_test refresh_by
enqueue_refresh db c = refresh_by db c (policy_test c)
