-- ===== src/Pipeline/Task.antt =====
-- `_process_task` of application/pipeline.py: one task of a worker. What the adapter, the repository
-- and the frontier answer in the run is a record, the calls that the method makes are a trace, its
-- metrics among them. Any answer may be an exception, so also a cancellation; the logs, the clock and
-- a cancellation while the heartbeat is being stopped are left out.
pub mod Order
pub mod Settled
pub mod Justified
use govpars.Prelude.{
  ℕ, ◌-◌, ◌*◌, ◌^◌, min, String, Bool, true, false, ◌||◌, Option, none, some, List, [], ◌∷◌, ◌++◌,
  leb, if◌then◌else◌,
}
use govpars.Domain.Errors.{
  Failure, Exc, retriable, lease_lost, cancelled, other, Result, ok, raised,
  is_permanent_http_status,
}
use govpars.Domain.Models.{
  EntityIdentity, EntityEnvelope, EntityRelation, DiscoveredEntity, ExtractedBatch, FrontierTask,
}
use govpars.Pipeline.Batch.{validate_extracted_batch, task_content_hash}

-- The calls of one run. `retries` and `fails` have the error, the strategy and the status.
pub data Call : Type 0 where
  extracts : EntityIdentity → Call
  extends_lease : FrontierTask → Call
  persists : List EntityEnvelope → List EntityRelation → Call
  enqueues : List DiscoveredEntity → Call
  stops_heartbeat : Call
  completes : FrontierTask → String → Call
  retries : FrontierTask → String → ℕ → String → Option ℕ → Call
  fails : FrontierTask → String → String → Option ℕ → Call
  counts_outcome : String → Call
  observes_duration : String → Call

-- What each of the calls gives.
pub record Answers : Type 0 where
  pub extract : Result ExtractedBatch
  pub extend_lease : Result Bool
  pub persist : Result ℕ
  pub enqueue : Result ℕ
  pub complete : Result (Unit {0})
  pub retry : Result (Unit {0})
  pub fail : Result (Unit {0})

-- The calls made, and how it ended.
abbrev pub Step : Type 0 → Type 0
Step A = List Call × Result A

infixl 10 ◌>>=◌ ◌>>◌
abbrev pub ◌>>=◌ : {A B : Type 0} → Step A → (A → Step B) → Step B
(cs, ok a) >>= f = (cs ++ (f a).0, (f a).1)
(cs, raised e) >>= f = (cs, raised e)

abbrev pub ◌>>◌ : {A B : Type 0} → Step A → Step B → Step B
m >> k = m >>= λ _. k

-- A call with its answer, and a computation that calls nothing.
abbrev pub call : {A : Type 0} → Call → Result A → Step A
call c r = (c ∷ [], r)

abbrev pub lift : {A : Type 0} → Result A → Step A
lift r = ([], r)

-- `if not lease_extended: raise LeaseLostError(…)`; the message has the task's id, which is left out
abbrev pub require_lease : Bool → Result (Unit {0})
require_lease true = ok tt
require_lease false = raised (lease_lost "lease was lost before persistence")

abbrev pub stop_heartbeat : Step (Unit {0})
stop_heartbeat = call stops_heartbeat (ok tt)

-- The calls from the answer of the adapter on.
unfoldable pub store_batch : Answers → FrontierTask → ExtractedBatch → Step (Unit {0})
store_batch a task batch = do
  _ ← lift (validate_extracted_batch batch task)
  lease_extended ← call (extends_lease task) a.extend_lease
  _ ← lift (require_lease lease_extended)
  _ ← call (persists batch.entities batch.relations) a.persist
  _ ← call (enqueues batch.discovered) a.enqueue
  content_hash ← lift (task_content_hash batch.entities task)
  _ ← stop_heartbeat
  _ ← call (completes task content_hash) a.complete
  call (counts_outcome "success") (ok tt)

-- The `try` block.
unfoldable pub attempt_task : Answers → FrontierTask → Step (Unit {0})
unfolding store_batch
attempt_task a task = call (extracts task.identity) a.extract >>= store_batch a task

-- `getattr(exc, "strategy", "unknown")`
abbrev pub strategy_of : Failure → String
strategy_of f = elim f.strategy_attribute [ none ↦ "unknown" | some s ↦ s ]

-- `min(300, 5 * 2 ** max(0, task.attempt - 1))`; the subtraction stops at 0 by itself
unfoldable pub retry_delay : ℕ → ℕ
retry_delay attempt = min 300 (5 * 2 ^ (attempt - 1))

unfoldable pub is_final : ℕ → FrontierTask → Failure → Bool
is_final max_attempts task f =
    is_permanent_http_status f.response_status || leb max_attempts task.attempt

-- A settling call, and the count of its outcome if it succeeds: the label that `outcome` then has.
unfoldable pub settle : Call → Result (Unit {0}) → String → List Call × (Result (Unit {0}) × String)
settle c (ok _) outcome = (stops_heartbeat ∷ c ∷ counts_outcome outcome ∷ [], (ok tt, outcome))
settle c (raised e) outcome = (stops_heartbeat ∷ c ∷ [], (raised e, "cancelled"))

-- The `except` blocks; an exception of a call in one of them leaves the method.
unfoldable pub handle : ℕ → Answers → FrontierTask → Exc → List Call × (Result (Unit {0}) × String)
unfolding settle
handle max_attempts a task (retriable f) =
    settle (retries task f.message f.delay_seconds f.strategy f.http_status) a.retry "blocked"
handle max_attempts a task (lease_lost message) =
    (stops_heartbeat ∷ counts_outcome "lease_lost" ∷ [], (ok tt, "lease_lost"))
handle max_attempts a task cancelled = ([], (raised cancelled, "cancelled"))
handle max_attempts a task (other f) =
    if is_final max_attempts task f
    then settle (fails task f.repr (strategy_of f) f.response_status) a.fail "failed"
    else settle (retries task f.repr (retry_delay task.attempt) (strategy_of f) f.response_status)
        a.retry "retry"

-- The whole method: the calls in order, those of the `finally` block last, and how it ends.
unfoldable pub process_task : ℕ → Answers → FrontierTask → List Call × Result (Unit {0})
unfolding attempt_task handle
process_task max_attempts a task =
    let calls = (attempt_task a task).0 in
    elim (attempt_task a task).1 [
      | ok _ ↦ (calls ++ stops_heartbeat ∷ observes_duration "success" ∷ [], ok tt)
      | raised e ↦
          let handled = handle max_attempts a task e in
          (
            calls ++ (handled.0 ++ stops_heartbeat ∷ observes_duration handled.1.1 ∷ []),
            handled.1.0,
          )
    ]
