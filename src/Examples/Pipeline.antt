-- ===== src/Examples/Pipeline.antt =====
-- Small windows, runs and tasks for src/procurement_parser/application/pipeline.py.
use govpars.Prelude.{
  ℕ, ◌+◌, ◌≤◌, ◌≡◌, refl, Bool, true, false, not, ◌&&◌, none, some, List, [], ◌∷◌, ◌++◌, arith, leb,
  ◌==◌, if◌then◌else◌, length, any, count_if,
}
use govpars.Prelude.Int.{pos}
use govpars.Examples.Records.{no_fields}
use govpars.Domain.Errors.{Failure, other, ok, raised, plain_error}
use govpars.Domain.Models.{
  stable_key, EntityIdentity, EntityEnvelope, DiscoveredEntity, ExtractedBatch, FrontierTask,
  FrontierActivity, eep_mitwork, lot,
}
use govpars.Pipeline.Window.{
  PageResult, items, failure, Window, classify_discovery_window, pages_of, results_of, good_prefix,
  rest_of, analysis_from, classify_discovery_window_lem,
}
use govpars.Pipeline.Discovery.{FrontierPort, run}
use govpars.Pipeline.Discovery.Persisted.{KeepsOrder}
use govpars.Pipeline.Discovery.Crawl.{Crawled, Interrupted, run-Crawled, run-Interrupted}
use govpars.Pipeline.Batch.{
  has_duplicates, IsContract, validate_extracted_batch, task_content_hash,
  validate_extracted_batch-IsContract,
}
use govpars.Pipeline.Task.{store_batch, Answers, attempt_task, process_task}
use govpars.Pipeline.Task.Order.{
  is_persist, is_complete, Completed, process_task-persist, process_task-Completed,
}
use govpars.Pipeline.Task.Settled.{is_ok, settles, is_lease_lost, process_task-settles}
use govpars.Pipeline.Task.Justified.{AllAllowed, process_task-AllAllowed}
use govpars.Pipeline.Drain.{
  drain_complete, empty_since_after, IdleSince, checks, claims_tasks, drain_complete-IdleSince,
}
use govpars.Pipeline.Worker.{
  and_then, after_batch, process_batch, busy_turn, take_turn, Turn, worker_loop,
}
use govpars.Pipeline.Worker.Batches.{is_orderly, AllAccounted, worker_loop-accounts}

abbrev a_lot : EntityIdentity
a_lot = record {
  source = eep_mitwork;
  entity_type = lot;
  source_entity_id = "17";
  business_number = none;
  canonical_url = "https://eep.mitwork.kz/ru/publics/lot/17";
}

abbrev an_item : DiscoveredEntity
an_item = record {
  identity = a_lot;
  priority = pos 100;
  task_type = "detail";
  refresh_existing = false;
  available_at = 0;
  summary_payload = [];
}

abbrev a_window : Window
a_window = (4, items (an_item ∷ [])) ∷ (5, items []) ∷ (6, failure (plain_error "timeout")) ∷ []

classify_discovery_window_lem_example :
    classify_discovery_window (pages_of a_window) (results_of a_window)
    ≡ ok (analysis_from (good_prefix a_window) (rest_of a_window))
classify_discovery_window_lem_example = classify_discovery_window_lem a_window

-- a frontier that records what it is given
abbrev recording : FrontierPort
recording = record {
  State = List DiscoveredEntity × (ℕ × Bool);
  enqueue = λ s xs. (ok (length xs), (s.0 ++ xs, s.1));
  get_checkpoint = some (λ s. ok s.1);
  set_checkpoint = some (λ s p c. (ok tt, (s.0, (p, c))));
}

abbrev recording_keeps : KeepsOrder recording
recording_keeps = record {
  queued = λ s. s.0;
  checkpoint = λ s. s.1;
  counted = λ s xs. length xs;
  stored = λ s xs. (s.0 ++ xs, s.1);
  marked = λ s p c. (s.0, (p, c));
  enqueue_lem = λ s xs. refl;
  set_checkpoint_lem = refl;
  queued-stored = λ s xs. refl;
  queued-marked = λ s p c. refl;
  checkpoint-marked = λ s p c. refl;
}

-- three pages of one item, and then none
abbrev a_catalogue : ℕ → PageResult
a_catalogue page = if leb page 3 then items (an_item ∷ []) else items []

abbrev a_failing_catalogue : ℕ → PageResult
a_failing_catalogue page =
    if leb page 3 then items (an_item ∷ []) else failure (plain_error "timeout")

run-Crawled_example :
    Crawled recording a_catalogue recording_keeps
      (run recording a_catalogue 9 2 (some 1) none false ([], (1, false)))
      ([], (1, false))
      1
      3
      4
run-Crawled_example =
    run-Crawled recording a_catalogue recording_keeps 9 2 1 3 4 false ([], (1, false)) (omega arith)
      (omega arith) (omega arith) (tt, (tt, (tt, tt))) refl refl

run-Interrupted_example :
    Interrupted recording a_failing_catalogue recording_keeps
      (run recording a_failing_catalogue 9 2 (some 1) none false ([], (1, false)))
      ([], (1, false))
      1
      3
      2
      (plain_error "timeout")
run-Interrupted_example =
    run-Interrupted recording a_failing_catalogue recording_keeps 9 2 1 3 4 false ([], (1, false))
      (plain_error "timeout") (omega arith) (omega arith) (omega arith) (tt, (tt, (tt, tt))) refl
      refl

abbrev a_task : FrontierTask
a_task = record {
  id = 5;
  identity = a_lot;
  task_type = "detail";
  priority = pos 0;
  attempt = 2;
  payload = [];
}

abbrev an_envelope : EntityEnvelope
an_envelope = record {
  identity = a_lot;
  fields = no_fields;
  source_payload = ("id", "17") ∷ [];
  fetched_at = 100;
  content_hash = "ab12";
}

abbrev a_batch : ExtractedBatch
a_batch = record { entities = an_envelope ∷ []; relations = []; discovered = an_item ∷ [] }

a_batch_valid : validate_extracted_batch a_batch a_task ≡ ok tt
unfolding validate_extracted_batch has_duplicates stable_key
a_batch_valid = refl

validate_extracted_batch-IsContract_example : IsContract a_batch a_task
validate_extracted_batch-IsContract_example =
    validate_extracted_batch-IsContract a_batch a_task a_batch_valid

abbrev good_answers : Answers
good_answers = record {
  extract = ok a_batch;
  extend_lease = ok true;
  persist = ok 1;
  enqueue = ok 1;
  complete = ok tt;
  retry = ok tt;
  fail = ok tt;
}

abbrev a_failure : Failure
a_failure = record { repr = "HTTPError()"; response_status = some 500; strategy_attribute = none }

abbrev bad_answers : Answers
bad_answers = record good_answers { extract = raised (other a_failure) }

persists_the_batch : any is_persist (process_task 5 good_answers a_task).0 ≡ true
unfolding process_task store_batch validate_extracted_batch has_duplicates stable_key
    task_content_hash
persists_the_batch = refl

completes_the_task : any is_complete (process_task 5 good_answers a_task).0 ≡ true
unfolding process_task store_batch validate_extracted_batch has_duplicates stable_key
    task_content_hash
completes_the_task = refl

process_task-persist_example :
    (batch : ExtractedBatch) × (good_answers.extract ≡ ok batch)
    × (validate_extracted_batch batch a_task ≡ ok tt)
    × (good_answers.extend_lease ≡ ok true)
process_task-persist_example = process_task-persist 5 good_answers a_task persists_the_batch

process_task-Completed_example :
    Completed good_answers a_task (process_task 5 good_answers a_task).0
process_task-Completed_example = process_task-Completed 5 good_answers a_task completes_the_task

process_task-settles_example :
    count_if (settles good_answers) (process_task 5 good_answers a_task).0 ≡ (
      if is_ok (process_task 5 good_answers a_task).1
        && not (is_lease_lost (attempt_task good_answers a_task).1)
      then 1
      else 0)
process_task-settles_example = process_task-settles 5 good_answers a_task

bad_attempt : (attempt_task bad_answers a_task).1 ≡ raised (other a_failure)
unfolding attempt_task
bad_attempt = refl

process_task-AllAllowed_example :
    AllAllowed 5 a_task (other a_failure) (process_task 5 bad_answers a_task).0
process_task-AllAllowed_example =
    process_task-AllAllowed 5 bad_answers a_task (other a_failure) bad_attempt

abbrev no_activity : FrontierActivity
no_activity = record { depth = 0; ready = 0; delayed = 0; leased = 0 }

drains :
    (drain_complete 5 no_activity 16
      (empty_since_after 5 (checks no_activity 11 ∷ claims_tasks ∷ []))).0
    ≡ true
unfolding drain_complete empty_since_after
drains = refl

drain_complete-IdleSince_example :
    (since : ℕ) × IdleSince since
      (checks no_activity 16 ∷ checks no_activity 11 ∷ claims_tasks ∷ [])
    × (since + 5 ≤ 16)
drain_complete-IdleSince_example =
    drain_complete-IdleSince 5 (checks no_activity 11 ∷ claims_tasks ∷ []) no_activity 16 drains

-- a batch of two tasks, with a shutdown before the second
abbrev a_turn : Turn
a_turn = record {
  shutdown_requested = false;
  claim = a_task ∷ a_task ∷ [];
  claim_again = [];
  drain_complete = false;
  shutdown_before = λ index. index == 1;
  process_task = λ index. ok tt;
}

a_turn_orderly : is_orderly (worker_loop true false true (a_turn ∷ [])).1 ≡ true
unfolding worker_loop process_batch busy_turn take_turn and_then after_batch
a_turn_orderly = refl

worker_loop-accounts_example : AllAccounted (worker_loop true false true (a_turn ∷ [])).0
worker_loop-accounts_example = worker_loop-accounts true false true (a_turn ∷ []) a_turn_orderly
