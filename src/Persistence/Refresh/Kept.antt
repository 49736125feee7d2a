-- ===== src/Persistence/Refresh/Kept.antt =====
-- What `enqueue_refresh` of repositories.py keeps of the frontier.
use govpars.Prelude.{ℕ, ◌≤◌, ◌≡◌, Bool, true, Option, none, some, List, [], ◌∷◌, arith}
use govpars.Domain.Models.{DiscoveredEntity}
use govpars.Persistence.Tables.{Database, CrawlFrontierRow, SourceEntityRow}
use govpars.Persistence.Enqueue.{merged_row, new_row}
use govpars.Persistence.Enqueue.Rows.{RowsPass, all-upsert}
use govpars.Persistence.Enqueue.Keys.{KeysAreSound, upsert-HasKeys}
use govpars.Persistence.Refresh.{
  RefreshCall, policy_test, refresh_candidates, refresh_item, insert_refresh, insert_refreshes,
  refresh_by, enqueue_refresh,
}

module _ (p : CrawlFrontierRow → Bool) (bound : ℕ)
    (merged : (r : CrawlFrontierRow) (item : DiscoveredEntity)
      → p r ≡ true
      → p (merged_row r item) ≡ true)
    (fresh : (n fk : ℕ) (item : DiscoveredEntity) → bound ≤ n → p (new_row n fk item) ≡ true) where
  insert_refreshes-RowsPass :
      (db : Database) (c : RefreshCall) (rows : List SourceEntityRow)
      → RowsPass p bound db
      → RowsPass p bound (insert_refreshes db c rows)
  unfolding insert_refreshes insert_refresh
  insert_refreshes-RowsPass db c [] v = v
  insert_refreshes-RowsPass db c (row ∷ rows) v =
      insert_refreshes-RowsPass (insert_refresh db c row) c rows (
        all-upsert p bound merged fresh db.crawl_frontier db.next_frontier_id row.id
            (refresh_item c row) v.1 v.0,
        omega (arith, v.1),
      )

  refresh_by-RowsPass :
      (db : Database) (c : RefreshCall) (test : Option (ℕ → ℕ → Bool))
      → RowsPass p bound db
      → RowsPass p bound (refresh_by db c test).1
  unfolding refresh_by
  refresh_by-RowsPass db c none v = v
  refresh_by-RowsPass db c (some test) v =
      insert_refreshes-RowsPass db c (refresh_candidates db c test) v

  pub enqueue_refresh-RowsPass :
      (db : Database) (c : RefreshCall)
      → RowsPass p bound db
      → RowsPass p bound (enqueue_refresh db c).1
  unfolding enqueue_refresh
  enqueue_refresh-RowsPass db c v = refresh_by-RowsPass db c (policy_test c) v

insert_refreshes-KeysAreSound :
    (db : Database) (c : RefreshCall) (rows : List SourceEntityRow)
    → KeysAreSound db
    → KeysAreSound (insert_refreshes db c rows)
unfolding insert_refreshes insert_refresh
insert_refreshes-KeysAreSound db c [] v = v
insert_refreshes-KeysAreSound db c (row ∷ rows) v =
    insert_refreshes-KeysAreSound (insert_refresh db c row) c rows
      (upsert-HasKeys db.crawl_frontier db.next_frontier_id row.id (refresh_item c row) v)

refresh_by-KeysAreSound :
    (db : Database) (c : RefreshCall) (test : Option (ℕ → ℕ → Bool))
    → KeysAreSound db
    → KeysAreSound (refresh_by db c test).1
unfolding refresh_by
refresh_by-KeysAreSound db c none v = v
refresh_by-KeysAreSound db c (some test) v =
    insert_refreshes-KeysAreSound db c (refresh_candidates db c test) v

pub enqueue_refresh-KeysAreSound :
    (db : Database) (c : RefreshCall) → KeysAreSound db → KeysAreSound (enqueue_refresh db c).1
unfolding enqueue_refresh
enqueue_refresh-KeysAreSound db c v = refresh_by-KeysAreSound db c (policy_test c) v
