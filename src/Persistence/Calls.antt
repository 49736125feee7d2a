-- ===== src/Persistence/Calls.antt =====
-- A call of the task queue of repositories.py that writes, as a value, and the tables after it; and
-- what a test on rows needs to hold of all rows after every call. `complete` and `fail` are here the
-- end of their transaction, with the row that their SELECT found at some earlier time, if it found
-- one: so any calls can stand between the two.
pub mod Rows
pub mod Keys
pub mod Stale
pub mod Soundness
use govpars.Prelude.{
  ℕ, String, ◌≡◌, refl, Bool, true, Option, List, [], ◌∷◌, map, arith, if◌then◌else◌, all, filter,
}
use govpars.Domain.Models.{DiscoveredEntity, FrontierTask}
use govpars.Persistence.Tables.{Database, CrawlFrontierRow}
use govpars.Persistence.Enqueue.{enqueue}
use govpars.Persistence.Claim.{ClaimCall, call_claim}
use govpars.Persistence.Refresh.{RefreshCall, enqueue_refresh}
use govpars.Persistence.Settle.{
  complete_found, release, release_by_owner, extend_lease, retry, fail_found,
}

pub data QueueCall : Type 0 where
  enqueues : ℕ → List DiscoveredEntity → QueueCall
  claims : ClaimCall → QueueCall
  refreshes : RefreshCall → QueueCall
  completes : Option CrawlFrontierRow → Option String → QueueCall
  releases : List FrontierTask → String → QueueCall
  releases_owner : String → QueueCall
  extends : ℕ → FrontierTask → String → ℕ → QueueCall
  retries : ℕ → FrontierTask → String → ℕ → String → Option ℕ → QueueCall
  fails : Option CrawlFrontierRow → String → String → Option ℕ → QueueCall

unfoldable pub after : Database → QueueCall → Database
after db (enqueues now items) = (enqueue db now items).0
after db (claims c) = (call_claim db c).0
after db (refreshes c) = (enqueue_refresh db c).1
after db (completes found hash) = complete_found db found hash
after db (releases tasks worker_id) = (release db tasks worker_id).0
after db (releases_owner worker_id) = (release_by_owner db worker_id).0
after db (extends now task worker_id seconds) = (extend_lease db now task worker_id seconds).0
after db (retries now task error delay strategy status) =
    retry db now task error delay strategy status
after db (fails found error strategy status) = fail_found db found error strategy status

unfoldable pub after_all : Database → List QueueCall → Database
after_all db [] = db
after_all db (c ∷ cs) = after_all (after db c) cs

-- A change of some rows, and a deletion, keep what holds of every row.
pub all-map_if :
    (p q : CrawlFrontierRow → Bool) (f : CrawlFrontierRow → CrawlFrontierRow)
    (rows : List CrawlFrontierRow)
    → ((r : CrawlFrontierRow) → p r ≡ true → q r ≡ true → p (f r) ≡ true)
    → all p rows ≡ true
    → all p (map (λ r. if q r then f r else r) rows) ≡ true
all-map_if p q f [] keep h = refl
all-map_if p q f (r ∷ rows) keep h = ground (arith, keep r, all-map_if p q f rows keep)

pub all-filter :
    (p q : CrawlFrontierRow → Bool) (rows : List CrawlFrontierRow)
    → all p rows ≡ true
    → all p (filter q rows) ≡ true
all-filter p q [] h = refl
all-filter p q (r ∷ rows) h = ground (arith, all-filter p q rows)
