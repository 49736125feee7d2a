-- ===== src/Persistence/Tables.antt =====
-- The tables of schema.py that the task queue reads and writes, as lists of rows, and the tests on a
-- row that several queries share. `now()` is an argument.
use govpars.Prelude.{ℕ, String, Bool, true, false, Option, none, some, List, ltb, ◌==◌, find?}
use govpars.Prelude.Int.{ℤ}
use govpars.Domain.Models.{Source, EntityIdentity, Payload, source_eq}

pub record SourceEntityRow : Type 0 where
  pub id : ℕ
  pub identity : EntityIdentity
  pub summary_payload : Payload
  pub last_seen_at : ℕ
  pub last_success_at : Option ℕ
  pub current_content_hash : Option String

pub record CrawlFrontierRow : Type 0 where
  pub id : ℕ
  pub source_entity_fk : ℕ
  pub task_type : String
  pub priority : ℤ
  pub available_at : ℕ
  pub lease_owner : Option String
  pub leased_until : Option ℕ
  pub attempt : ℕ
  pub last_error : Option String
  pub payload : Payload

pub record CrawlTaskHistoryRow : Type 0 where
  pub source_entity_fk : ℕ
  pub task_type : String
  pub attempt : ℕ
  pub outcome : String
  pub error : Option String
  pub content_hash : Option String

pub record FetchFailureRow : Type 0 where
  pub source_entity_fk : ℕ
  pub strategy : String
  pub http_status : Option ℕ
  pub error : String

-- The tables, and the sequences that give the next ids.
pub record Database : Type 0 where
  pub source_entities : List SourceEntityRow
  pub crawl_frontier : List CrawlFrontierRow
  pub crawl_task_history : List CrawlTaskHistoryRow
  pub fetch_failures : List FetchFailureRow
  pub next_entity_id : ℕ
  pub next_frontier_id : ℕ

-- The join of `claim` and `activity`.
unfoldable pub entity_of : Database → CrawlFrontierRow → Option SourceEntityRow
entity_of db row = find? (λ e. e.id == row.source_entity_fk) db.source_entities

-- `leased_until IS NULL OR leased_until < now()`
unfoldable pub is_lease_free : CrawlFrontierRow → ℕ → Bool
is_lease_free row now = elim row.leased_until [ none ↦ true | some u ↦ ltb u now ]

unfoldable pub has_source : Database → Option Source → CrawlFrontierRow → Bool
unfolding entity_of
has_source db source row = elim (entity_of db row) [
  | none ↦ false
  | some e ↦ elim source [ none ↦ true | some s ↦ source_eq e.identity.source s ]
]
