-- ===== src/Persistence/Enqueue/Rows.antt =====
-- What `enqueue` of repositories.py keeps of every row of the frontier, and that it never makes a
-- second row for one entity and task type.
use govpars.Prelude.{ℕ, ◌≤◌, ◌≡◌, Bool, true, some, List, [], ◌∷◌, arith, all}
use govpars.Prelude.Sort.{sort_by}
use govpars.Domain.Models.{DiscoveredEntity, identity_le}
use govpars.Persistence.Tables.{Database, CrawlFrontierRow}
use govpars.Persistence.Enqueue.{
  upsert_frontier, merged_row, new_row, enqueue_item, enqueue_loop, enqueue, ensure_source_entity,
}

-- Every row passes the test `p`, and the ids from `bound` on are still to come.
abbrev pub RowsPass : (CrawlFrontierRow → Bool) → ℕ → Database → Type 0
RowsPass p bound db = (all p db.crawl_frontier ≡ true) × (bound ≤ db.next_frontier_id)

module _ (p : CrawlFrontierRow → Bool) (bound : ℕ)
    (merged : (r : CrawlFrontierRow) (item : DiscoveredEntity)
      → p r ≡ true
      → p (merged_row r item) ≡ true)
    (fresh : (n fk : ℕ) (item : DiscoveredEntity) → bound ≤ n → p (new_row n fk item) ≡ true) where
  pub all-upsert :
      (rows : List CrawlFrontierRow) (n fk : ℕ) (item : DiscoveredEntity)
      → bound ≤ n
      → all p rows ≡ true
      → all p (upsert_frontier rows n fk item) ≡ true
  unfolding upsert_frontier
  all-upsert [] n fk item b h = rw (fresh n fk item b)
  all-upsert (r ∷ rows) n fk item b h = ground (arith, merged r item, all-upsert rows n fk item b)

  enqueue_item-RowsPass :
      (db : Database) (now : ℕ) (item : DiscoveredEntity)
      → RowsPass p bound db
      → RowsPass p bound (enqueue_item db now item).0
  unfolding enqueue_item
  enqueue_item-RowsPass db now item v = ground (
    arith,
    all-upsert db.crawl_frontier db.next_frontier_id
        (ensure_source_entity db now item.identity (some item.summary_payload)).1 item v.1 v.0,
  )

  enqueue_loop-RowsPass :
      (db : Database) (now : ℕ) (items : List DiscoveredEntity)
      → RowsPass p bound db
      → RowsPass p bound (enqueue_loop db now items).0
  unfolding enqueue_loop
  enqueue_loop-RowsPass db now [] v = v
  enqueue_loop-RowsPass db now (item ∷ items) v =
      enqueue_loop-RowsPass (enqueue_item db now item).0 now items
        (enqueue_item-RowsPass db now item v)

  pub enqueue-RowsPass :
      (db : Database) (now : ℕ) (items : List DiscoveredEntity)
      → RowsPass p bound db
      → RowsPass p bound (enqueue db now items).0
  unfolding enqueue
  enqueue-RowsPass db now items v =
      enqueue_loop-RowsPass db now (sort_by (λ a b. identity_le a.identity b.identity) items) v
