-- ===== src/Persistence/Enqueue/Keys.antt =====
-- The unique constraint `uq_frontier_entity_task` and the primary key of the frontier under
-- `enqueue` of repositories.py.
use govpars.Prelude.{
  ℕ, ◌+◌, ◌≤◌, ◌<◌, String, ◌≡◌, refl, ◌∙◌, inl, inr, Bool, false, not, ◌&&◌, ◌||◌, some, List, [],
  ◌∷◌, arith, str_eq, eq_iff, ◌==◌, Bool-cases, any,
}
use govpars.Prelude.Sort.{sort_by}
use govpars.Domain.Models.{DiscoveredEntity, identity_le}
use govpars.Persistence.Tables.{Database, CrawlFrontierRow}
use govpars.Persistence.Enqueue.{
  already_persisted, ensure_source_entity, upsert_frontier, has_key, enqueue_item, enqueue_loop,
  enqueue,
}

abbrev has_row_id : ℕ → CrawlFrontierRow → Bool
has_row_id i row = row.id == i

-- No two rows share an entity and a task type, none an id, and the sequence is past every id.
abbrev pub HasKeys : ℕ → List CrawlFrontierRow → Type 0
HasKeys next [] = Unit {0}
HasKeys next (r ∷ rows) =
    (any (has_key r.source_entity_fk r.task_type) rows ≡ false)
    × (any (has_row_id r.id) rows ≡ false)
    × (r.id < next)
    × HasKeys next rows

HasKeys-mono : (m n : ℕ) (rows : List CrawlFrontierRow) → m ≤ n → HasKeys m rows → HasKeys n rows
HasKeys-mono m n [] h v = tt
HasKeys-mono m n (r ∷ rows) h v = (v.0, v.1, omega arith, HasKeys-mono m n rows h v.3)

any-key-upsert :
    (rows : List CrawlFrontierRow) (n fk f : ℕ) (t : String) (item : DiscoveredEntity)
    → any (has_key f t) (upsert_frontier rows n fk item)
      ≡ (any (has_key f t) rows || (fk == f && str_eq item.task_type t))
unfolding upsert_frontier
any-key-upsert [] n fk f t item = ground arith
any-key-upsert (r ∷ rows) n fk f t item = ground (
  arith,
  any-key-upsert rows n fk f t item,
  eq_iff r.task_type t,
  eq_iff r.task_type item.task_type,
  eq_iff item.task_type t,
)

any-id-upsert :
    (rows : List CrawlFrontierRow) (n fk i : ℕ) (item : DiscoveredEntity)
    → i < n
    → any (has_row_id i) (upsert_frontier rows n fk item) ≡ any (has_row_id i) rows
unfolding upsert_frontier
any-id-upsert [] n fk i item h = ground arith
any-id-upsert (r ∷ rows) n fk i item h = ground (arith, any-id-upsert rows n fk i item)

pub upsert-HasKeys :
    (rows : List CrawlFrontierRow) (n fk : ℕ) (item : DiscoveredEntity)
    → HasKeys n rows
    → HasKeys (n + 1) (upsert_frontier rows n fk item)
unfolding upsert_frontier
upsert-HasKeys [] n fk item v = (refl, refl, ground arith, tt)
upsert-HasKeys (r ∷ rows) n fk item v = elim (Bool-cases (has_key fk item.task_type r)) [
  | inl same ↦ rw same (v.0, v.1, omega arith, HasKeys-mono n (n + 1) rows (omega arith) v.3)
  | inr new ↦ rw new (
    ground (
      arith,
      any-key-upsert rows n fk r.source_entity_fk r.task_type item,
      eq_iff r.task_type item.task_type,
      eq_iff item.task_type r.task_type,
    ),
    any-id-upsert rows n fk r.id item v.2 ∙ v.1,
    omega arith,
    upsert-HasKeys rows n fk item v.3,
  )
]

abbrev pub KeysAreSound : Database → Type 0
KeysAreSound db = HasKeys db.next_frontier_id db.crawl_frontier

enqueue_item-KeysAreSound :
    (db : Database) (now : ℕ) (item : DiscoveredEntity)
    → KeysAreSound db
    → KeysAreSound (enqueue_item db now item).0
unfolding enqueue_item
enqueue_item-KeysAreSound db now item v =
    let (db', fk) = ensure_source_entity db now item.identity (some item.summary_payload) in
    elim (Bool-cases (not item.refresh_existing && already_persisted db' fk)) [
      | inl skip ↦ rw skip v
      | inr keep ↦ rw keep (upsert-HasKeys db.crawl_frontier db.next_frontier_id fk item v)
    ]

enqueue_loop-KeysAreSound :
    (db : Database) (now : ℕ) (items : List DiscoveredEntity)
    → KeysAreSound db
    → KeysAreSound (enqueue_loop db now items).0
unfolding enqueue_loop
enqueue_loop-KeysAreSound db now [] v = v
enqueue_loop-KeysAreSound db now (item ∷ items) v =
    enqueue_loop-KeysAreSound (enqueue_item db now item).0 now items
      (enqueue_item-KeysAreSound db now item v)

-- From tables that are sound, any list of items enqueued leaves the frontier with at most one row
-- for an entity and a task type, distinct ids, and a sequence past all of them.
pub enqueue-KeysAreSound :
    (db : Database) (now : ℕ) (items : List DiscoveredEntity)
    → KeysAreSound db
    → KeysAreSound (enqueue db now items).0
unfolding enqueue
enqueue-KeysAreSound db now items v =
    enqueue_loop-KeysAreSound db now (sort_by (λ a b. identity_le a.identity b.identity) items) v
