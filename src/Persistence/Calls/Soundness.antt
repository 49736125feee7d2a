-- ===== src/Persistence/Calls/Soundness.antt =====
-- What the numbers of `activity` of repositories.py add up to, over every history of the queue.
use govpars.Prelude.{
  ℕ, ◌+◌, ◌≤◌, String, ◌≡◌, refl, subst, Bool, true, false, not, ◌&&◌, ◌||◌, Option, none, some,
  List, [], ◌∷◌, arith, ltb, leb, length, all, filter, count_if,
}
use govpars.Domain.Models.{DiscoveredEntity, Source}
use govpars.Persistence.Tables.{Database, CrawlFrontierRow, has_source, is_lease_free}
use govpars.Persistence.Enqueue.{merged_row, new_row}
use govpars.Persistence.Enqueue.Rows.{RowsPass}
use govpars.Persistence.Enqueue.Keys.{KeysAreSound}
use govpars.Persistence.Claim.{
  ClaimCall, call_claim, claim, candidates, has_id_of, leased_row, lease_rows, is_claimable,
  activity,
}
use govpars.Persistence.Claim.Rows.{chosen_claimable}
use govpars.Persistence.Settle.{is_owned_by}
use govpars.Persistence.Calls.{QueueCall, claims, after, after_all, all-filter}
use govpars.Persistence.Calls.Rows.{after-RowsPass, extended}
use govpars.Persistence.Calls.Keys.{after-KeysAreSound, HasKeys-DistinctIds}

-- A row with no lease has no owner, and one with a lease was due by `clock`.
abbrev pub sound_row : ℕ → CrawlFrontierRow → Bool
sound_row clock row = elim row.leased_until [
  | none ↦ elim row.lease_owner [ none ↦ true | some w ↦ false ]
  | some u ↦ leb row.available_at clock
]

merged_sound :
    (clock : ℕ) (r : CrawlFrontierRow) (item : DiscoveredEntity)
    → sound_row clock r ≡ true
    → sound_row clock (merged_row r item) ≡ true
unfolding merged_row
merged_sound clock r item h = ground arith

fresh_sound :
    (clock n fk : ℕ) (item : DiscoveredEntity) → 0 ≤ n → sound_row clock (new_row n fk item) ≡ true
unfolding new_row
fresh_sound clock n fk item h = refl

prolonged_sound :
    (clock : ℕ) (w : String) (u : ℕ) (r : CrawlFrontierRow)
    → sound_row clock r ≡ true
    → is_owned_by w r ≡ true
    → sound_row clock (extended r u) ≡ true
prolonged_sound clock w u r h o = ground arith

lease_rows_sound :
    (clock now s : ℕ) (w : String) (db : Database) (source : Option Source) (b : Bool)
    (locked : List ℕ) (chosen rows : List CrawlFrontierRow)
    → now ≤ clock
    → all (λ r. not (has_id_of chosen r) || is_claimable db now source b locked r) rows ≡ true
    → all (sound_row clock) rows ≡ true
    → all (sound_row clock) (lease_rows chosen w now s rows) ≡ true
unfolding lease_rows leased_row is_claimable
lease_rows_sound clock now s w db source b locked chosen [] le c h = refl
lease_rows_sound clock now s w db source b locked chosen (r ∷ rows) le c h =
    ground (arith, lease_rows_sound clock now s w db source b locked chosen rows le)

abbrev pub IsSound : ℕ → Database → Type 0
IsSound clock db = KeysAreSound db × RowsPass (sound_row clock) 0 db

claim-RowsPass :
    (clock : ℕ) (db : Database) (c : ClaimCall)
    → c.now ≤ clock
    → IsSound clock db
    → RowsPass (sound_row clock) 0 (call_claim db c).0
unfolding claim
claim-RowsPass clock db c le v = (
  lease_rows_sound clock c.now c.lease_seconds c.worker_id db c.source c.backfill_only c.locked
      (candidates db c.now c.source c.limit c.backfill_only c.locked) db.crawl_frontier le
      (chosen_claimable db c.now c.source c.limit c.backfill_only c.locked
        (HasKeys-DistinctIds db.next_frontier_id db.crawl_frontier v.0))
      v.1.0,
  v.1.1,
)

-- No claim was made after `clock`.
abbrev pub ClaimedBy : ℕ → QueueCall → Type 0
ClaimedBy clock (claims c) = c.now ≤ clock
ClaimedBy clock _ = Unit {0}

abbrev pub AllClaimedBy : ℕ → List QueueCall → Type 0
AllClaimedBy clock [] = Unit {0}
AllClaimedBy clock (c ∷ cs) = ClaimedBy clock c × AllClaimedBy clock cs

after-IsSound :
    (clock : ℕ) (db : Database) (call : QueueCall)
    → ClaimedBy clock call
    → IsSound clock db
    → IsSound clock (after db call)
after-IsSound clock db call le v = (
  after-KeysAreSound db call v.0,
  after-RowsPass (sound_row clock) 0 (merged_sound clock) (fresh_sound clock) (λ r h. refl)
      (prolonged_sound clock) (λ at e r h. refl) db call v.1
      (λ c e. claim-RowsPass clock db c (subst (ClaimedBy clock) e le) v),
)

after_all-IsSound :
    (clock : ℕ) (db : Database) (calls : List QueueCall)
    → AllClaimedBy clock calls
    → IsSound clock db
    → IsSound clock (after_all db calls)
unfolding after_all
after_all-IsSound clock db [] le v = v
after_all-IsSound clock db (c ∷ cs) le v =
    after_all-IsSound clock (after db c) cs le.1 (after-IsSound clock db c le.0 v)

-- The three numbers over a list of sound rows.
partition_rows :
    (now : ℕ) (rows : List CrawlFrontierRow)
    → all (sound_row now) rows ≡ true
    → length rows
      ≡ count_if (λ r. leb r.available_at now && is_lease_free r now) rows
        + count_if (λ r. ltb now r.available_at) rows
        + count_if (λ r. not (is_lease_free r now)) rows
unfolding is_lease_free
partition_rows now [] h = omega arith
partition_rows now (r ∷ rows) h = ground (arith, partition_rows now rows)

-- From sound tables, such as empty ones, after any calls of the queue with no claim later than
-- `now`, the activity of every source at `now` adds up: each task is ready, delayed or leased, and
-- no task is two of these.
pub activity_adds_up :
    (db : Database) (calls : List QueueCall) (now : ℕ) (source : Source)
    → IsSound now db
    → AllClaimedBy now calls
    → let a = activity (after_all db calls) now source in a.depth ≡ a.ready + a.delayed + a.leased
unfolding activity
activity_adds_up db calls now source v le =
    let db' = after_all db calls in
    let v' = after_all-IsSound now db calls le v in
    partition_rows now (filter (has_source db' (some source)) db'.crawl_frontier)
      (all-filter (sound_row now) (has_source db' (some source)) db'.crawl_frontier v'.1.0)
