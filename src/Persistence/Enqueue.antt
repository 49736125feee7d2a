-- ===== src/Persistence/Enqueue.antt =====
-- `_ensure_source_entity` and `enqueue` of infrastructure/persistence/postgres/repositories.py: one
-- transaction, as a step on the tables.
pub mod Rows
pub mod Keys
use govpars.Prelude.{
  ℕ, ◌+◌, min, String, Bool, true, false, not, ◌&&◌, Option, none, some, List, [], ◌∷◌, str_eq,
  ◌==◌, if◌then◌else◌, find?,
}
use govpars.Prelude.Dict.{put, first_chars}
use govpars.Prelude.Int.{ℤ, pos, leb_ℤ, max_ℤ}
use govpars.Prelude.Sort.{sort_by}
use govpars.Domain.Models.{
  Source, EntityIdentity, Payload, DiscoveredEntity, FrontierTask, FrontierActivity, source_eq,
  same_identity, identity_le,
}
use govpars.Persistence.Tables.{
  SourceEntityRow, CrawlFrontierRow, CrawlTaskHistoryRow, FetchFailureRow, Database,
}

-- ON CONFLICT DO UPDATE of `_ensure_source_entity`; the payload stays where none is given
unfoldable pub updated_entity :
    SourceEntityRow → EntityIdentity → Option Payload → ℕ → SourceEntityRow
updated_entity row identity summary now = record row {
  identity = record row.identity {
    business_number = identity.business_number;
    canonical_url = identity.canonical_url;
  };
  summary_payload = elim summary [ none ↦ row.summary_payload | some p ↦ p ];
  last_seen_at = now;
}

unfoldable pub upsert_entity :
    List SourceEntityRow → ℕ → EntityIdentity → Option Payload → ℕ → List SourceEntityRow × ℕ
unfolding updated_entity
upsert_entity [] next identity summary now = (
  record {
    id = next;
    identity = identity;
    summary_payload = elim summary [ none ↦ [] | some p ↦ p ];
    last_seen_at = now;
    last_success_at = none;
    current_content_hash = none;
  }
      ∷ [],
  next,
)
upsert_entity (row ∷ rows) next identity summary now =
    let (rest, id) = upsert_entity rows next identity summary now in
    if same_identity row.identity identity
    then (updated_entity row identity summary now ∷ rows, row.id)
    else (row ∷ rest, id)

-- INSERT draws from the sequence before it meets the conflict.
unfoldable pub ensure_source_entity : Database → ℕ → EntityIdentity → Option Payload → Database × ℕ
unfolding upsert_entity
ensure_source_entity db now identity summary =
    let (rows, id) = upsert_entity db.source_entities db.next_entity_id identity summary now in
    (record db { source_entities = rows; next_entity_id = db.next_entity_id + 1 }, id)

-- `payload || EXCLUDED.payload`: the right side wins
abbrev pub merge_payload : Payload → Payload → Payload
merge_payload a [] = a
merge_payload a ((k, v) ∷ b) = merge_payload (put a k v) b

-- ON CONFLICT DO UPDATE of `enqueue`: GREATEST, LEAST and `||`
unfoldable pub merged_row : CrawlFrontierRow → DiscoveredEntity → CrawlFrontierRow
merged_row row item = record row {
  priority = max_ℤ row.priority item.priority;
  available_at = min row.available_at item.available_at;
  payload = merge_payload row.payload item.summary_payload;
}

abbrev pub has_key : ℕ → String → CrawlFrontierRow → Bool
has_key fk task_type row = row.source_entity_fk == fk && str_eq row.task_type task_type

unfoldable pub new_row : ℕ → ℕ → DiscoveredEntity → CrawlFrontierRow
new_row next fk item = record {
  id = next;
  source_entity_fk = fk;
  task_type = item.task_type;
  priority = item.priority;
  available_at = item.available_at;
  lease_owner = none;
  leased_until = none;
  attempt = 0;
  last_error = none;
  payload = item.summary_payload;
}

unfoldable pub upsert_frontier :
    List CrawlFrontierRow → ℕ → ℕ → DiscoveredEntity → List CrawlFrontierRow
unfolding merged_row new_row
upsert_frontier [] next fk item = new_row next fk item ∷ []
upsert_frontier (row ∷ rows) next fk item =
    let rest = upsert_frontier rows next fk item in
    if has_key fk item.task_type row then merged_row row item ∷ rows else row ∷ rest

-- `select(last_success_at).where(id == fk)`, and whether it is there
pub already_persisted : Database → ℕ → Bool
already_persisted db fk = elim (find? (λ r. r.id == fk) db.source_entities) [
  | none ↦ false
  | some r ↦ elim r.last_success_at [ none ↦ false | some t ↦ true ]
]

-- One round of the loop of `enqueue`: the tables, and whether the item was counted.
unfoldable pub enqueue_item : Database → ℕ → DiscoveredEntity → Database × Bool
unfolding ensure_source_entity already_persisted upsert_frontier
enqueue_item db now item =
    let (db', fk) = ensure_source_entity db now item.identity (some item.summary_payload) in
    if not item.refresh_existing && already_persisted db' fk then (db', false) else (
      record db' {
        crawl_frontier = upsert_frontier db'.crawl_frontier db'.next_frontier_id fk item;
        next_frontier_id = db'.next_frontier_id + 1;
      },
      true,
    )

unfoldable pub enqueue_loop : Database → ℕ → List DiscoveredEntity → Database × ℕ
enqueue_loop db now [] = (db, 0)
enqueue_loop db now (item ∷ items) =
    let (db', counted) = enqueue_item db now item in
    let (db'', inserted) = enqueue_loop db' now items in
    (db'', if counted then inserted + 1 else inserted)

unfoldable pub enqueue : Database → ℕ → List DiscoveredEntity → Database × ℕ
unfolding enqueue_loop
enqueue db now items =
    enqueue_loop db now (sort_by (λ a b. identity_le a.identity b.identity) items)
