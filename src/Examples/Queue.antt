-- ===== src/Examples/Queue.antt =====
-- A small task queue for src/procurement_parser/infrastructure/persistence/postgres.
use govpars.Prelude.{◌≡◌, refl, true, false, none, some, [], ◌∷◌, arith, any}
use govpars.Domain.Models.{EntityIdentity, FrontierTask, DiscoveredEntity, eep_mitwork, lot}
use govpars.Prelude.Int.{pos}
use govpars.Prelude.Sort.{sort_by}
use govpars.Persistence.Tables.{Database, CrawlFrontierRow, SourceEntityRow}
use govpars.Persistence.Claim.{ClaimCall, call_claim, claim}
use govpars.Persistence.Claim.Exclusive.{claim_exclusive, claim_all, has_task_id}
use govpars.Persistence.Enqueue.Keys.{KeysAreSound}
use govpars.Persistence.Calls.{enqueues, releases_owner, after, after_all}
use govpars.Persistence.Settle.{
  complete, complete_found, select_attempt, finish, extend_lease, update_where,
}
use govpars.Persistence.Refresh.{RefreshCall, enqueue_refresh}
use govpars.Domain.Errors.{ok, raised, plain_error}
use govpars.Persistence.Calls.Keys.{after-KeysAreSound}
use govpars.Persistence.Calls.Stale.{IsHarmless, reclaim-IsHarmless}

abbrev a_lot : EntityIdentity
a_lot = record {
  source = eep_mitwork;
  entity_type = lot;
  source_entity_id = "17";
  business_number = none;
  canonical_url = "https://eep.mitwork.kz/ru/publics/lot/17";
}

abbrev a_row : CrawlFrontierRow
a_row = record {
  id = 5;
  source_entity_fk = 3;
  task_type = "detail";
  priority = pos 0;
  available_at = 100;
  lease_owner = none;
  leased_until = none;
  attempt = 0;
  last_error = none;
  payload = [];
}

abbrev an_entity : SourceEntityRow
an_entity = record {
  id = 3;
  identity = a_lot;
  summary_payload = [];
  last_seen_at = 90;
  last_success_at = none;
  current_content_hash = none;
}

abbrev one_task : Database
one_task = record {
  source_entities = an_entity ∷ [];
  crawl_frontier = a_row ∷ [];
  crawl_task_history = [];
  fetch_failures = [];
  next_entity_id = 4;
  next_frontier_id = 6;
}

abbrev first_claim : ClaimCall
first_claim = record {
  now = 100;
  locked = [];
  worker_id = "w1";
  source = some eep_mitwork;
  limit = 10;
  lease_seconds = 180;
  backfill_only = true;
}

abbrev second_claim : ClaimCall
second_claim = record first_claim { now = 280; worker_id = "w2"; backfill_only = false }

abbrev late_claim : ClaimCall
late_claim = record second_claim { now = 281 }

abbrev first_task : FrontierTask
first_task = record {
  id = 5;
  identity = a_lot;
  task_type = "detail";
  priority = pos 0;
  attempt = 1;
  payload = [];
}

abbrev leased_once : Database
leased_once = record one_task {
  crawl_frontier =
      record a_row { lease_owner = some "w1"; leased_until = some 280; attempt = 1 } ∷ [];
}

claims_first : call_claim one_task first_claim ≡ (leased_once, first_task ∷ [])
unfolding claim sort_by
claims_first = refl

claims_the_task : any (has_task_id 5) (call_claim one_task first_claim).1 ≡ true
unfolding claim sort_by
claims_the_task = refl

claim_exclusive_example :
    any
      (any (has_task_id 5))
      (claim_all (call_claim one_task first_claim).0 (second_claim ∷ second_claim ∷ []))
    ≡ false
claim_exclusive_example =
    claim_exclusive one_task first_claim (second_claim ∷ second_claim ∷ []) 5 claims_the_task
      (omega arith, (omega arith, tt))

claims_again : any (has_task_id 5) (call_claim leased_once late_claim).1 ≡ true
unfolding claim sort_by
claims_again = refl

reclaim-IsHarmless_example :
    IsHarmless first_task
      (after_all (call_claim leased_once late_claim).0 (releases_owner "w2" ∷ []))
reclaim-IsHarmless_example =
    reclaim-IsHarmless first_task leased_once late_claim (releases_owner "w2" ∷ [])
      (refl, omega arith) claims_again

abbrev again : DiscoveredEntity
again = record {
  identity = a_lot;
  priority = pos 100;
  task_type = "detail";
  refresh_existing = true;
  available_at = 50;
  summary_payload = [];
}

after-KeysAreSound_example : KeysAreSound (after one_task (enqueues 100 (again ∷ again ∷ [])))
after-KeysAreSound_example =
    after-KeysAreSound one_task (enqueues 100 (again ∷ again ∷ [])) (refl, refl, omega arith, tt)

-- `complete` has read the row before it is claimed again, and deletes it after: the second worker's
-- task is gone, and it cannot even extend its lease.
abbrev raced : Database
raced = complete (λ db. (call_claim db late_claim).0) leased_once first_task none

row_deleted : raced.crawl_frontier ≡ []
unfolding complete complete_found select_attempt finish claim sort_by
row_deleted = refl

lease_lost_by_second :
    (extend_lease raced 282 (record first_task { attempt = 2 }) "w2" 180).1 ≡ false
unfolding extend_lease update_where complete complete_found select_attempt finish claim sort_by
lease_lost_by_second = refl

-- The lot was stored at 90 and is refreshed, since it is not closed.
abbrev a_refresh : RefreshCall
a_refresh = record {
  now = 1000;
  status_of = λ id. "published";
  matches_closed = λ s. false;
  source = eep_mitwork;
  policy = "active";
  priority = pos 5;
  limit = 0;
  older_than_seconds = 600;
  newer_than_seconds = none;
}

refreshes_one :
    (enqueue_refresh
      (record one_task { source_entities = record an_entity { last_success_at = some 90 } ∷ [] })
      a_refresh).0
    ≡ ok 1
unfolding enqueue_refresh sort_by
refreshes_one = refl

policy_unknown :
    enqueue_refresh one_task (record a_refresh { policy = "none" })
    ≡ (raised (plain_error "Unsupported refresh policy: none"), one_task)
unfolding enqueue_refresh
policy_unknown = refl
