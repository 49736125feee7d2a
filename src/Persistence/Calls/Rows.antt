-- ===== src/Persistence/Calls/Rows.antt =====
-- What holds of every row after any call of the task queue of repositories.py.
use govpars.Prelude.{
  ℕ, ◌+◌, ◌≤◌, max, String, ◌≡◌, refl, inl, inr, Bool, true, not, ◌&&◌, Option, none, some, List,
  [], ◌∷◌, arith, ◌==◌, Option-cases, any, find?,
}
use govpars.Prelude.Dict.{first_chars}
use govpars.Domain.Models.{DiscoveredEntity, FrontierTask}
use govpars.Persistence.Tables.{Database, CrawlFrontierRow, CrawlTaskHistoryRow, FetchFailureRow}
use govpars.Persistence.Enqueue.{merged_row, new_row}
use govpars.Persistence.Enqueue.Rows.{RowsPass, enqueue-RowsPass}
use govpars.Persistence.Claim.{ClaimCall, call_claim}
use govpars.Persistence.Settle.{
  is_attempt, is_owned_by, unleased, finish, complete_found, release, release_by_owner,
  extend_lease, retry, fail_found,
}
use govpars.Persistence.Refresh.Kept.{enqueue_refresh-RowsPass}
use govpars.Persistence.Calls.{
  QueueCall, enqueues, claims, refreshes, completes, releases, releases_owner, extends, retries,
  fails, after, all-map_if, all-filter,
}

-- The row that `retry` leaves.
abbrev pub retried : CrawlFrontierRow → ℕ → String → CrawlFrontierRow
retried row at error = record row {
  lease_owner = none;
  leased_until = none;
  available_at = at;
  last_error = some error;
}

abbrev pub extended : CrawlFrontierRow → ℕ → CrawlFrontierRow
extended row u = record row { leased_until = some u }

module _ (p : CrawlFrontierRow → Bool) (bound : ℕ)
    (merged : (r : CrawlFrontierRow) (item : DiscoveredEntity)
      → p r ≡ true
      → p (merged_row r item) ≡ true)
    (fresh : (n fk : ℕ) (item : DiscoveredEntity) → bound ≤ n → p (new_row n fk item) ≡ true)
    (freed : (r : CrawlFrontierRow) → p r ≡ true → p (unleased r) ≡ true)
    (prolonged : (w : String) (u : ℕ) (r : CrawlFrontierRow)
      → p r ≡ true
      → is_owned_by w r ≡ true
      → p (extended r u) ≡ true)
    (postponed : (at : ℕ) (e : String) (r : CrawlFrontierRow)
      → p r ≡ true
      → p (retried r at e) ≡ true) where
  finish-RowsPass :
      (db : Database) (found : Option CrawlFrontierRow)
      (history : CrawlFrontierRow → CrawlTaskHistoryRow)
      (failures : CrawlFrontierRow → List FetchFailureRow)
      → RowsPass p bound db
      → RowsPass p bound (finish db found history failures)
  unfolding finish
  finish-RowsPass db none history failures v = v
  finish-RowsPass db (some row) history failures v =
      (all-filter p (λ r. not (r.id == row.id)) db.crawl_frontier v.0, v.1)

  release-RowsPass :
      (db : Database) (ts : List FrontierTask) (w : String)
      → RowsPass p bound db
      → RowsPass p bound (release db ts w).0
  unfolding release
  release-RowsPass db [] w v = v
  release-RowsPass db (t ∷ ts) w v = (
    all-map_if p (λ row. any (λ (u : FrontierTask). u.id == row.id) (t ∷ ts) && is_owned_by w row)
        unleased db.crawl_frontier (λ r h _. freed r h) v.0,
    v.1,
  )

  release_by_owner-RowsPass :
      (db : Database) (w : String)
      → RowsPass p bound db
      → RowsPass p bound (release_by_owner db w).0
  unfolding release_by_owner
  release_by_owner-RowsPass db w v =
      (all-map_if p (is_owned_by w) unleased db.crawl_frontier (λ r h _. freed r h) v.0, v.1)

  extend_lease-RowsPass :
      (db : Database) (now : ℕ) (t : FrontierTask) (w : String) (s : ℕ)
      → RowsPass p bound db
      → RowsPass p bound (extend_lease db now t w s).0
  unfolding extend_lease
  extend_lease-RowsPass db now t w s v = (
    all-map_if p (λ row. row.id == t.id && (is_owned_by w row && row.attempt == t.attempt))
        (λ row. extended row (now + max 1 s)) db.crawl_frontier
        (λ r h q. prolonged w (now + max 1 s) r h (ground arith)) v.0,
    v.1,
  )

  retry-RowsPass :
      (db : Database) (now : ℕ) (t : FrontierTask) (e : String) (d : ℕ) (s : String) (st : Option ℕ)
      → RowsPass p bound db
      → RowsPass p bound (retry db now t e d s st)
  unfolding retry
  retry-RowsPass db now t e d s st v =
      let kept =
        all-map_if p (is_attempt t) (λ row. retried row (now + d) (first_chars 4000 e))
          db.crawl_frontier (λ r h _. postponed (now + d) (first_chars 4000 e) r h) v.0 in
      elim (Option-cases (find? (is_attempt t) db.crawl_frontier)) [
        | inl n ↦ rw (n, retry) (kept, v.1)
        | inr (row, f) ↦ rw (f, retry) (kept, v.1)
      ]

  -- `claimed` is the case of a claim.
  pub after-RowsPass :
      (db : Database) (call : QueueCall)
      → RowsPass p bound db
      → ((c : ClaimCall) → call ≡ claims c → RowsPass p bound (call_claim db c).0)
      → RowsPass p bound (after db call)
  unfolding after complete_found fail_found
  after-RowsPass db (enqueues now items) v claimed =
      enqueue-RowsPass p bound merged fresh db now items v
  after-RowsPass db (claims c) v claimed = claimed c refl
  after-RowsPass db (refreshes c) v claimed = enqueue_refresh-RowsPass p bound merged fresh db c v
  after-RowsPass db (completes found hash) v claimed = finish-RowsPass db found _ _ v
  after-RowsPass db (releases ts w) v claimed = release-RowsPass db ts w v
  after-RowsPass db (releases_owner w) v claimed = release_by_owner-RowsPass db w v
  after-RowsPass db (extends now t w s) v claimed = extend_lease-RowsPass db now t w s v
  after-RowsPass db (retries now t e d s st) v claimed = retry-RowsPass db now t e d s st v
  after-RowsPass db (fails found e s st) v claimed = finish-RowsPass db found _ _ v
