-- ===== src/Persistence/Calls/Stale.antt =====
-- What a worker that has lost its task can still do with it: `complete`, `retry`, `fail` and
-- `extend_lease` of repositories.py check the attempt number, which every claim raises.
use govpars.Prelude.{
  ℕ, ◌+◌, ◌≤◌, max, String, ◌≡◌, refl, Bool, true, false, not, ◌&&◌, ◌||◌, Option, none, List, [],
  ◌∷◌, map, arith, ltb, leb, ◌==◌, if◌then◌else◌, any, all, count_if, find?,
}
use govpars.Domain.Models.{DiscoveredEntity, FrontierTask}
use govpars.Persistence.Tables.{Database, CrawlFrontierRow}
use govpars.Persistence.Enqueue.{merged_row, new_row}
use govpars.Persistence.Enqueue.Rows.{RowsPass}
use govpars.Persistence.Claim.{
  ClaimCall, call_claim, claim, candidates, has_id_of, leased_row, lease_rows,
}
use govpars.Persistence.Claim.Exclusive.{has_task_id, has_row_id, has_id_of-eq-any, any-tasks_of}
use govpars.Persistence.Settle.{
  is_attempt, is_owned_by, finish, select_attempt, complete, complete_found, extend_lease, retry,
  fail, fail_found,
}
use govpars.Persistence.Calls.{QueueCall, after, after_all, all-map_if}
use govpars.Persistence.Calls.Rows.{after-RowsPass, retried, extended}
use govpars.Prelude.Dict.{first_chars}

-- Every row with the id `i` is past the attempt `a`.
abbrev pub past_attempt : ℕ → ℕ → CrawlFrontierRow → Bool
past_attempt i a row = not (row.id == i) || ltb a row.attempt

abbrev pub IsSuperseded : FrontierTask → Database → Type 0
IsSuperseded t = RowsPass (past_attempt t.id t.attempt) (t.id + 1)

merged_past :
    (i a : ℕ) (r : CrawlFrontierRow) (item : DiscoveredEntity)
    → past_attempt i a r ≡ true
    → past_attempt i a (merged_row r item) ≡ true
unfolding merged_row
merged_past i a r item h = h

fresh_past :
    (i a n fk : ℕ) (item : DiscoveredEntity)
    → i + 1 ≤ n
    → past_attempt i a (new_row n fk item) ≡ true
unfolding new_row
fresh_past i a n fk item h = ground arith

claimed_past :
    (i a b : ℕ) (db : Database) (c : ClaimCall)
    → RowsPass (past_attempt i a) b db
    → RowsPass (past_attempt i a) b (call_claim db c).0
unfolding claim lease_rows leased_row
claimed_past i a b db c v = (
  all-map_if (past_attempt i a)
      (has_id_of (candidates db c.now c.source c.limit c.backfill_only c.locked))
      (λ r. leased_row r c.worker_id c.now c.lease_seconds) db.crawl_frontier
      (λ r h _. ground arith) v.0,
  v.1,
)

-- every call of the queue, by whatever worker, leaves a superseded task superseded
after-IsSuperseded :
    (t : FrontierTask) (db : Database) (c : QueueCall)
    → IsSuperseded t db
    → IsSuperseded t (after db c)
after-IsSuperseded t db call v =
    after-RowsPass (past_attempt t.id t.attempt) (t.id + 1) (merged_past t.id t.attempt)
      (fresh_past t.id t.attempt) (λ r h. h) (λ w u r h o. h) (λ at e r h. h) db call v
      (λ c _. claimed_past t.id t.attempt (t.id + 1) db c v)

after_all-IsSuperseded :
    (t : FrontierTask) (db : Database) (cs : List QueueCall)
    → IsSuperseded t db
    → IsSuperseded t (after_all db cs)
unfolding after_all
after_all-IsSuperseded t db [] v = v
after_all-IsSuperseded t db (c ∷ cs) v =
    after_all-IsSuperseded t (after db c) cs (after-IsSuperseded t db c v)

find_past :
    (t : FrontierTask) (rows : List CrawlFrontierRow)
    → all (past_attempt t.id t.attempt) rows ≡ true
    → find? (is_attempt t) rows ≡ none
find_past t [] h = refl
find_past t (r ∷ rows) h = ground (arith, find_past t rows)

-- An update that no row passes is none.
update_none :
    (q : CrawlFrontierRow → Bool) (f : CrawlFrontierRow → CrawlFrontierRow)
    (rows : List CrawlFrontierRow)
    → any q rows ≡ false
    → (map (λ r. if q r then f r else r) rows ≡ rows) × (count_if q rows ≡ 0)
update_none q f [] h = (refl, refl)
update_none q f (r ∷ rows) h = ground (arith, update_none q f rows)

any_past :
    (t : FrontierTask) (w : String) (rows : List CrawlFrontierRow)
    → all (past_attempt t.id t.attempt) rows ≡ true
    → (any (is_attempt t) rows ≡ false)
      × (any (λ row. row.id == t.id && (is_owned_by w row && row.attempt == t.attempt)) rows
          ≡ false)
any_past t w [] h = (refl, refl)
any_past t w (r ∷ rows) h = ground (arith, any_past t w rows)

-- What a worker can do with a task.
abbrev pub IsHarmless : FrontierTask → Database → Type 0
IsHarmless t db =
    ((others : Database → Database) (hash : Option String) → complete others db t hash ≡ others db)
    × ((others : Database → Database) (e s : String) (st : Option ℕ)
        → fail others db t e s st ≡ others db)
    × ((now d : ℕ) (e s : String) (st : Option ℕ) → retry db now t e d s st ≡ db)
    × ((now s : ℕ) (w : String) → extend_lease db now t w s ≡ (db, false))

finish_none :
    (others : Database → Database) (db : Database) (t : FrontierTask) (hash : Option String)
    (e s : String) (st : Option ℕ)
    → find? (is_attempt t) db.crawl_frontier ≡ none
    → (complete others db t hash ≡ others db) × (fail others db t e s st ≡ others db)
unfolding complete fail select_attempt complete_found fail_found finish
finish_none others db t hash e s st n = (rw n refl, rw n refl)

retry-none :
    (db : Database) (now : ℕ) (t : FrontierTask) (e : String) (d : ℕ) (s : String) (st : Option ℕ)
    → find? (is_attempt t) db.crawl_frontier ≡ none
    → any (is_attempt t) db.crawl_frontier ≡ false
    → retry db now t e d s st ≡ db
unfolding retry
retry-none db now t e d s st n h =
    let f = λ (r : CrawlFrontierRow). retried r (now + d) (first_chars 4000 e) in
    rw (n, (update_none (is_attempt t) f db.crawl_frontier h).0, retry)

extend_lease_none :
    (db : Database) (now : ℕ) (t : FrontierTask) (w : String) (s : ℕ)
    → any
        (λ row. row.id == t.id && (is_owned_by w row && row.attempt == t.attempt))
        db.crawl_frontier
      ≡ false
    → extend_lease db now t w s ≡ (db, false)
unfolding extend_lease
extend_lease_none db now t w s h =
    let f = λ (r : CrawlFrontierRow). extended r (now + max 1 s) in
    let (same, none_changed) = update_none _ f db.crawl_frontier h in rw (same, none_changed)

superseded-IsHarmless : (t : FrontierTask) (db : Database) → IsSuperseded t db → IsHarmless t db
superseded-IsHarmless t db v =
    let n = find_past t db.crawl_frontier v.0 in
    (
      λ others hash. (finish_none others db t hash "" "" none n).0,
      λ others e s st. (finish_none others db t none e s st n).1,
      λ now d e s st. retry-none db now t e d s st n (any_past t "" db.crawl_frontier v.0).0,
      λ now s w. extend_lease_none db now t w s (any_past t w db.crawl_frontier v.0).1,
    )

-- Every row with the task's id is at the task's attempt or past it.
abbrev pub IsIssued : FrontierTask → Database → Type 0
IsIssued t db =
    (all (λ r. not (r.id == t.id) || leb t.attempt r.attempt) db.crawl_frontier ≡ true)
    × (t.id + 1 ≤ db.next_frontier_id)

lease_rows_supersede :
    (chosen rows : List CrawlFrontierRow) (w : String) (now s i a : ℕ)
    → any (has_row_id i) chosen ≡ true
    → all (λ r. not (r.id == i) || leb a r.attempt) rows ≡ true
    → all (past_attempt i a) (lease_rows chosen w now s rows) ≡ true
unfolding lease_rows leased_row
lease_rows_supersede chosen [] w now s i a h k = refl
lease_rows_supersede chosen (r ∷ rows) w now s i a h k =
    ground (arith, has_id_of-eq-any chosen r i, lease_rows_supersede chosen rows w now s i a h)

claim-IsSuperseded :
    (t : FrontierTask) (db : Database) (c : ClaimCall)
    → IsIssued t db
    → any (has_task_id t.id) (call_claim db c).1 ≡ true
    → IsSuperseded t (call_claim db c).0
unfolding claim
claim-IsSuperseded t db c v h =
    let chosen = candidates db c.now c.source c.limit c.backfill_only c.locked in
    (
      lease_rows_supersede chosen db.crawl_frontier c.worker_id c.now c.lease_seconds t.id t.attempt
          (any-tasks_of db chosen _ t.id h) v.0,
      v.1,
    )

-- Once a claim has handed a task out anew, and however the calls of all workers go on after it, four
-- methods with the old task have no effect. A `complete` or a `fail` whose SELECT comes after the
-- claim leaves the tables as the others leave them, whatever the others commit before its end; `retry`
-- leaves every table as it is; and `extend_lease` reports that the lease is lost and changes nothing.
-- The old task is one whose rows were at its attempt or past it when it was claimed again. A
-- `complete` or `fail` that read the row before the claim, and `release`, which checks the owner and
-- not the attempt, are not spoken of.
pub reclaim-IsHarmless :
    (t : FrontierTask) (db : Database) (c : ClaimCall) (cs : List QueueCall)
    → IsIssued t db
    → any (has_task_id t.id) (call_claim db c).1 ≡ true
    → IsHarmless t (after_all (call_claim db c).0 cs)
reclaim-IsHarmless t db c cs v h =
    superseded-IsHarmless t (after_all (call_claim db c).0 cs)
      (after_all-IsSuperseded t (call_claim db c).0 cs (claim-IsSuperseded t db c v h))
