-- ===== src/Persistence/Calls/Keys.antt =====
-- Every call of the task queue of repositories.py keeps the frontier's keys: one row for an entity
-- and a task type, distinct ids, and a sequence past all of them.
use govpars.Prelude.{
  ℕ, ◌+◌, max, String, ◌≡◌, refl, ◌∙◌, inl, inr, Bool, false, not, ◌&&◌, Option, none, some, List,
  [], ◌∷◌, map, arith, ◌==◌, if◌then◌else◌, Bool-cases, Option-cases, any, filter, find?,
}
use govpars.Prelude.Dict.{first_chars}
use govpars.Domain.Models.{FrontierTask}
use govpars.Persistence.Tables.{Database, CrawlFrontierRow, CrawlTaskHistoryRow, FetchFailureRow}
use govpars.Persistence.Enqueue.{has_key}
use govpars.Persistence.Enqueue.Keys.{HasKeys, KeysAreSound, enqueue-KeysAreSound}
use govpars.Persistence.Claim.{claim, candidates, has_id_of, leased_row, lease_rows}
use govpars.Persistence.Claim.Exclusive.{has_row_id}
use govpars.Persistence.Claim.Rows.{DistinctIds}
use govpars.Persistence.Settle.{
  is_attempt, is_owned_by, unleased, finish, complete_found, release, release_by_owner,
  extend_lease, retry, fail_found,
}
use govpars.Persistence.Refresh.Kept.{enqueue_refresh-KeysAreSound}
use govpars.Persistence.Calls.Rows.{retried, extended}
use govpars.Persistence.Calls.{
  QueueCall, enqueues, claims, refreshes, completes, releases, releases_owner, extends, retries,
  fails, after,
}

any-filter_none :
    (p q : CrawlFrontierRow → Bool) (rows : List CrawlFrontierRow)
    → any p rows ≡ false
    → any p (filter q rows) ≡ false
any-filter_none p q [] h = refl
any-filter_none p q (r ∷ rows) h = ground (arith, any-filter_none p q rows)

filter-HasKeys :
    (n : ℕ) (q : CrawlFrontierRow → Bool) (rows : List CrawlFrontierRow)
    → HasKeys n rows
    → HasKeys n (filter q rows)
filter-HasKeys n q [] v = tt
filter-HasKeys n q (r ∷ rows) v = elim (Bool-cases (q r)) [
  | inl y ↦ rw y (
    any-filter_none (has_key r.source_entity_fk r.task_type) q rows v.0,
    any-filter_none (has_row_id r.id) q rows v.1,
    v.2,
    filter-HasKeys n q rows v.3,
  )
  | inr n' ↦ rw n' (filter-HasKeys n q rows v.3)
]

-- the columns of the keys
abbrev SameKeys : CrawlFrontierRow → CrawlFrontierRow → Type 0
SameKeys a b =
    (a.id ≡ b.id) × (a.source_entity_fk ≡ b.source_entity_fk) × (a.task_type ≡ b.task_type)

module _ (q : CrawlFrontierRow → Bool) (f : CrawlFrontierRow → CrawlFrontierRow)
    (same : (r : CrawlFrontierRow) → SameKeys (f r) r) where
  abbrev change : CrawlFrontierRow → CrawlFrontierRow
  change r = if q r then f r else r

  change-SameKeys : (r : CrawlFrontierRow) → SameKeys (change r) r
  change-SameKeys r = ground (arith, same r)

  any-key-change :
      (fk : ℕ) (t : String) (rows : List CrawlFrontierRow)
      → any (has_key fk t) (map change rows) ≡ any (has_key fk t) rows
  any-key-change fk t [] = refl
  any-key-change fk t (r ∷ rows) =
      let (_, e, k) = change-SameKeys r in rw (e, k, any-key-change fk t rows)

  any-id-change :
      (i : ℕ) (rows : List CrawlFrontierRow)
      → any (has_row_id i) (map change rows) ≡ any (has_row_id i) rows
  any-id-change i [] = refl
  any-id-change i (r ∷ rows) = let (e, _, _) = change-SameKeys r in rw (e, any-id-change i rows)

  map-HasKeys :
      (n : ℕ) (rows : List CrawlFrontierRow) → HasKeys n rows → HasKeys n (map change rows)
  map-HasKeys n [] v = tt
  map-HasKeys n (r ∷ rows) v =
      let (e, k, t) = change-SameKeys r in
      rw (e, k, t)
        (
          any-key-change r.source_entity_fk r.task_type rows ∙ v.0,
          any-id-change r.id rows ∙ v.1,
          v.2,
          map-HasKeys n rows v.3,
        )

finish-KeysAreSound :
    (db : Database) (found : Option CrawlFrontierRow)
    (history : CrawlFrontierRow → CrawlTaskHistoryRow)
    (failures : CrawlFrontierRow → List FetchFailureRow)
    → KeysAreSound db
    → KeysAreSound (finish db found history failures)
unfolding finish
finish-KeysAreSound db none history failures v = v
finish-KeysAreSound db (some row) history failures v =
    filter-HasKeys db.next_frontier_id (λ r. not (r.id == row.id)) db.crawl_frontier v

retry-KeysAreSound :
    (db : Database) (now : ℕ) (t : FrontierTask) (e : String) (d : ℕ) (s : String) (st : Option ℕ)
    → KeysAreSound db
    → KeysAreSound (retry db now t e d s st)
unfolding retry
retry-KeysAreSound db now t e d s st v =
    let kept =
      map-HasKeys (is_attempt t) (λ r. retried r (now + d) (first_chars 4000 e))
        (λ r. (refl, refl, refl)) db.next_frontier_id db.crawl_frontier v in
    elim (Option-cases (find? (is_attempt t) db.crawl_frontier)) [
      | inl n ↦ rw (n, retry) kept
      | inr (row, f) ↦ rw (f, retry) kept
    ]

-- Every call of the queue that writes, the enqueuing of refreshes among them, leaves the frontier with at most one row for an entity and a task type,
-- distinct ids, and a sequence past all of them, when it was so before.
pub after-KeysAreSound :
    (db : Database) (call : QueueCall) → KeysAreSound db → KeysAreSound (after db call)
unfolding after complete_found fail_found claim lease_rows leased_row release release_by_owner
    extend_lease
after-KeysAreSound db (enqueues now items) v = enqueue-KeysAreSound db now items v
after-KeysAreSound db (claims c) v =
    map-HasKeys (has_id_of (candidates db c.now c.source c.limit c.backfill_only c.locked))
      (λ r. leased_row r c.worker_id c.now c.lease_seconds) (λ r. (refl, refl, refl))
      db.next_frontier_id db.crawl_frontier v
after-KeysAreSound db (refreshes c) v = enqueue_refresh-KeysAreSound db c v
after-KeysAreSound db (completes found hash) v = finish-KeysAreSound db found _ _ v
after-KeysAreSound db (releases [] w) v = v
after-KeysAreSound db (releases (t ∷ ts) w) v =
    map-HasKeys (λ row. any (λ (u : FrontierTask). u.id == row.id) (t ∷ ts) && is_owned_by w row)
      unleased (λ r. (refl, refl, refl)) db.next_frontier_id db.crawl_frontier v
after-KeysAreSound db (releases_owner w) v =
    map-HasKeys (is_owned_by w) unleased (λ r. (refl, refl, refl)) db.next_frontier_id
      db.crawl_frontier v
after-KeysAreSound db (extends now t w s) v =
    map-HasKeys (λ row. row.id == t.id && (is_owned_by w row && row.attempt == t.attempt))
      (λ r. extended r (now + max 1 s)) (λ r. (refl, refl, refl)) db.next_frontier_id
      db.crawl_frontier v
after-KeysAreSound db (retries now t e d s st) v = retry-KeysAreSound db now t e d s st v
after-KeysAreSound db (fails found e s st) v = finish-KeysAreSound db found _ _ v

pub HasKeys-DistinctIds : (n : ℕ) (rows : List CrawlFrontierRow) → HasKeys n rows → DistinctIds rows
HasKeys-DistinctIds n [] v = tt
HasKeys-DistinctIds n (r ∷ rows) v = (v.1, HasKeys-DistinctIds n rows v.3)
