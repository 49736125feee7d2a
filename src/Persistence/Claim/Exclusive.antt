-- ===== src/Persistence/Claim/Exclusive.antt =====
-- `claim` of repositories.py hands a task to one worker at a time: a leased row is not claimed again
-- before its lease has run out.
use govpars.Prelude.{
  ℕ, zero, suc, ◌+◌, ◌≤◌, String, ◌≡◌, refl, ap, Bool, true, false, not, ◌||◌, Option, List, [],
  ◌∷◌, arith, ◌==◌, ==_iff, take, any, all, filter,
}
use govpars.Prelude.Sort.{sort_by, any-sort_by}
use govpars.Domain.Models.{Source, FrontierTask}
use govpars.Persistence.Tables.{Database, CrawlFrontierRow, is_lease_free}
use govpars.Persistence.Claim.{
  is_claimable, claims_before, candidates, has_id_of, leased_row, lease_rows, tasks_of, claim,
  ClaimCall, call_claim,
}

-- Every row with the id `i` has a lease that runs until `u` at least.
abbrev pub held_row : ℕ → ℕ → CrawlFrontierRow → Bool
held_row i u row = not (row.id == i) || not (is_lease_free row u)

abbrev pub IsHeld : Database → ℕ → ℕ → Type 0
IsHeld db i u = all (held_row i u) db.crawl_frontier ≡ true

abbrev pub has_row_id : ℕ → CrawlFrontierRow → Bool
has_row_id i row = row.id == i

abbrev pub has_task_id : ℕ → FrontierTask → Bool
has_task_id i task = task.id == i

pub has_id_of-eq-any :
    (chosen : List CrawlFrontierRow) (r : CrawlFrontierRow) (i : ℕ)
    → (r.id == i) ≡ true
    → has_id_of chosen r ≡ any (has_row_id i) chosen
has_id_of-eq-any chosen r i h = ap (λ j. any (has_row_id j) chosen) ((==_iff r.id i).0 h)

lease_rows-held :
    (chosen rows : List CrawlFrontierRow) (w : String) (now s i : ℕ)
    → any (has_row_id i) chosen ≡ true
    → all (held_row i (now + s)) (lease_rows chosen w now s rows) ≡ true
unfolding lease_rows leased_row is_lease_free
lease_rows-held chosen [] w now s i h = refl
lease_rows-held chosen (r ∷ rows) w now s i h =
    ground (arith, has_id_of-eq-any chosen r i, lease_rows-held chosen rows w now s i h)

lease_rows_others :
    (chosen rows : List CrawlFrontierRow) (w : String) (now s i u : ℕ)
    → any (has_row_id i) chosen ≡ false
    → all (held_row i u) rows ≡ true
    → all (held_row i u) (lease_rows chosen w now s rows) ≡ true
unfolding lease_rows leased_row
lease_rows_others chosen [] w now s i u h k = refl
lease_rows_others chosen (r ∷ rows) w now s i u h k =
    ground (arith, has_id_of-eq-any chosen r i, lease_rows_others chosen rows w now s i u h)

pub any-tasks_of :
    (db : Database) (chosen rows : List CrawlFrontierRow) (i : ℕ)
    → any (has_task_id i) (tasks_of db (filter (has_id_of chosen) rows)) ≡ true
    → any (has_row_id i) chosen ≡ true
unfolding tasks_of
any-tasks_of db chosen [] i h = absurd (ground arith)
any-tasks_of db chosen (r ∷ rows) i h =
    ground (arith, has_id_of-eq-any chosen r i, any-tasks_of db chosen rows i)

any-take :
    (p : CrawlFrontierRow → Bool) (n : ℕ) (xs : List CrawlFrontierRow)
    → any p (take n xs) ≡ true
    → any p xs ≡ true
any-take p zero xs h = absurd (ground arith)
any-take p (suc n) [] h = h
any-take p (suc n) (x ∷ xs) h = ground (arith, any-take p n xs)

any-filter-held :
    (db : Database) (now u i : ℕ) (source : Option Source) (backfill_only : Bool) (locked : List ℕ)
    (rows : List CrawlFrontierRow)
    → now ≤ u
    → all (held_row i u) rows ≡ true
    → any (has_row_id i) (filter (is_claimable db now source backfill_only locked) rows) ≡ false
unfolding is_claimable
any-filter-held db now u i source b locked [] le h = refl
any-filter-held db now u i source b locked (r ∷ rows) le h =
    ground (arith, any-filter-held db now u i source b locked rows le)

-- a candidate is a row that passed the WHERE clause
pub any-candidates :
    (db : Database) (now i : ℕ) (source : Option Source) (limit : ℕ) (backfill_only : Bool)
    (locked : List ℕ)
    → any (has_row_id i) (candidates db now source limit backfill_only locked) ≡ true
    → any
        (has_row_id i)
        (filter (is_claimable db now source backfill_only locked) db.crawl_frontier)
      ≡ true
unfolding candidates
any-candidates db now i source limit b locked h =
    let rows = filter (is_claimable db now source b locked) db.crawl_frontier in
    ground (
      arith,
      any-take (has_row_id i) limit (sort_by claims_before rows),
      any-sort_by (has_row_id i) claims_before rows,
    )

candidates_held :
    (db : Database) (now u i : ℕ) (source : Option Source) (limit : ℕ) (backfill_only : Bool)
    (locked : List ℕ)
    → now ≤ u
    → IsHeld db i u
    → any (has_row_id i) (candidates db now source limit backfill_only locked) ≡ false
candidates_held db now u i source limit b locked le h = ground (
  arith,
  any-candidates db now i source limit b locked,
  any-filter-held db now u i source b locked db.crawl_frontier le h,
)

-- a claimed task's row is held until the lease's end
pub claim-IsHeld :
    (db : Database) (c : ClaimCall) (i : ℕ)
    → any (has_task_id i) (call_claim db c).1 ≡ true
    → IsHeld (call_claim db c).0 i (c.now + c.lease_seconds)
unfolding claim
claim-IsHeld db c i h =
    let chosen = candidates db c.now c.source c.limit c.backfill_only c.locked in
    lease_rows-held chosen db.crawl_frontier c.worker_id c.now c.lease_seconds i
      (any-tasks_of db chosen _ i h)

-- a held row is not claimed, and stays held
pub IsHeld-claim :
    (db : Database) (c : ClaimCall) (i u : ℕ)
    → c.now ≤ u
    → IsHeld db i u
    → (any (has_task_id i) (call_claim db c).1 ≡ false) × IsHeld (call_claim db c).0 i u
unfolding claim
IsHeld-claim db c i u le h =
    let chosen = candidates db c.now c.source c.limit c.backfill_only c.locked in
    let free = candidates_held db c.now u i c.source c.limit c.backfill_only c.locked le h in
    (
      ground (
        arith,
        any-tasks_of db chosen
            (lease_rows chosen c.worker_id c.now c.lease_seconds db.crawl_frontier) i,
      ),
      lease_rows_others chosen db.crawl_frontier c.worker_id c.now c.lease_seconds i u free h,
    )

-- The tasks that a sequence of claims hands out.
unfoldable pub claim_all : Database → List ClaimCall → List (List FrontierTask)
claim_all db [] = []
claim_all db (c ∷ cs) = (call_claim db c).1 ∷ claim_all (call_claim db c).0 cs

abbrev pub AllBefore : ℕ → List ClaimCall → Type 0
AllBefore u [] = Unit {0}
AllBefore u (c ∷ cs) = (c.now ≤ u) × AllBefore u cs

claim_all_held :
    (db : Database) (cs : List ClaimCall) (i u : ℕ)
    → AllBefore u cs
    → IsHeld db i u
    → any (any (has_task_id i)) (claim_all db cs) ≡ false
unfolding claim_all
claim_all_held db [] i u le h = refl
claim_all_held db (c ∷ cs) i u le h =
    let (free, h') = IsHeld-claim db c i u le.0 h in
    rw free (claim_all_held (call_claim db c).0 cs i u le.1 h')

-- When a claim has handed out a task, no sequence of further claims hands it out again, whatever
-- workers make them and whatever their sources, limits, lease times and locked rows are, so long
-- as none of them is made after the end of the lease.
pub claim_exclusive :
    (db : Database) (c : ClaimCall) (cs : List ClaimCall) (i : ℕ)
    → any (has_task_id i) (call_claim db c).1 ≡ true
    → AllBefore (c.now + c.lease_seconds) cs
    → any (any (has_task_id i)) (claim_all (call_claim db c).0 cs) ≡ false
claim_exclusive db c cs i h before =
    claim_all_held (call_claim db c).0 cs i (c.now + c.lease_seconds) before (claim-IsHeld db c i h)
