-- ===== src/Pipeline/Task/Order.antt =====
-- The order of the calls that `_process_task` of application/pipeline.py makes.
use govpars.Prelude.{
  ℕ, String, ◌≡◌, refl, ap, inl, inr, Bool, true, false, ◌||◌, List, [], ◌∷◌, ◌++◌, arith, any,
}
use govpars.Domain.Errors.{Exc, ok, Result-cases}
use govpars.Domain.Models.{ExtractedBatch, FrontierTask}
use govpars.Pipeline.Batch.{validate_extracted_batch, task_content_hash}
use govpars.Pipeline.Task.{
  Call, extracts, extends_lease, persists, enqueues, stops_heartbeat, completes, counts_outcome,
  Answers, settle, handle, store_batch, attempt_task, process_task,
}

abbrev pub is_persist : Call → Bool
is_persist (persists es rs) = true
is_persist _ = false

abbrev pub is_complete : Call → Bool
is_complete (completes task h) = true
is_complete _ = false

-- How the calls of a run that completes the task begin.
abbrev pub Completed : Answers → FrontierTask → List Call → Type 0
Completed a task calls =
    (batch : ExtractedBatch) × (hash : String) × ((n : ℕ) × (a.persist ≡ ok n))
    × ((m : ℕ) × (a.enqueue ≡ ok m))
    × (more : List Call) × (a.extract ≡ ok batch)
    × (validate_extracted_batch batch task ≡ ok tt)
    × (a.extend_lease ≡ ok true)
    × (task_content_hash batch.entities task ≡ ok hash)
    × (calls
        ≡ extracts task.identity
          ∷ extends_lease task
          ∷ persists batch.entities batch.relations
          ∷ enqueues batch.discovered
          ∷ stops_heartbeat
          ∷ completes task hash
          ∷ more)

any-append {ℓ} :
    {A : Type ℓ} (p : A → Bool) (xs ys : List A) → any p (xs ++ ys) ≡ (any p xs || any p ys)
any-append p [] ys = refl
any-append p (x ∷ xs) ys = ground (arith, any-append p xs ys)

-- What the handlers call neither persists nor completes.
handle_quiet :
    (max_attempts : ℕ) (a : Answers) (task : FrontierTask) (e : Exc)
    → (any is_persist (handle max_attempts a task e).0 ≡ false)
      × (any is_complete (handle max_attempts a task e).0 ≡ false)
unfolding handle settle
handle_quiet max_attempts a task e = ground arith

attempt_task-persist :
    (a : Answers) (task : FrontierTask)
    → any is_persist (attempt_task a task).0 ≡ true
    → (batch : ExtractedBatch) × (a.extract ≡ ok batch)
      × (validate_extracted_batch batch task ≡ ok tt)
      × (a.extend_lease ≡ ok true)
unfolding attempt_task store_batch
attempt_task-persist a task h = elim (Result-cases (a.extract)) [
  | inr (e, x) ↦ absurd (ground arith)
  | inl (batch, x) ↦ elim (Result-cases (validate_extracted_batch batch task)) [
    | inr (e, v) ↦ absurd (ground arith)
    | inl (_, v) ↦ (batch, x, v, ground arith)
  ]
]

-- The entities are persisted only if the adapter gave a batch that passes the validation, and the
-- lease was extended.
pub process_task-persist :
    (max_attempts : ℕ) (a : Answers) (task : FrontierTask)
    → any is_persist (process_task max_attempts a task).0 ≡ true
    → (batch : ExtractedBatch) × (a.extract ≡ ok batch)
      × (validate_extracted_batch batch task ≡ ok tt)
      × (a.extend_lease ≡ ok true)
unfolding process_task
process_task-persist max_attempts a task h = elim (Result-cases ((attempt_task a task).1)) [
  | inl (_, r) ↦
      attempt_task-persist a task (ground (arith, any-append is_persist (attempt_task a task).0))
  | inr (e, r) ↦
      attempt_task-persist a task
        (ground (arith, any-append is_persist, handle_quiet max_attempts a task e))
]

Completed-append :
    (a : Answers) (task : FrontierTask) (calls more : List Call)
    → Completed a task calls
    → Completed a task (calls ++ more)
Completed-append a task calls more (batch, hash, n, m, after, x, v, l, c, d) =
    (batch, hash, n, m, after ++ more, x, v, l, c, ap (λ k. k ++ more) d)

attempt_task-Completed :
    (a : Answers) (task : FrontierTask)
    → any is_complete (attempt_task a task).0 ≡ true
    → Completed a task (attempt_task a task).0
unfolding attempt_task store_batch
attempt_task-Completed a task h = elim (Result-cases (a.extract)) [
  | inr (e, x) ↦ absurd (ground arith)
  | inl (batch, x) ↦ elim (Result-cases (validate_extracted_batch batch task)) [
    | inr (e, v) ↦ absurd (ground arith)
    | inl (_, v) ↦ elim (Result-cases (a.persist)) [
      | inr (e, p) ↦ absurd (ground arith)
      | inl (n, p) ↦ elim (Result-cases (a.enqueue)) [
        | inr (e, q) ↦ absurd (ground arith)
        | inl (m, q) ↦ elim (Result-cases (task_content_hash batch.entities task)) [
          | inr (e, c) ↦ absurd (ground arith)
          | inl (hash, c) ↦
              let l : a.extend_lease ≡ ok true = ground arith in
              elim (Result-cases a.complete) [
                | inl (_, d) ↦ (
                  batch,
                  hash,
                  (n, p),
                  (m, q),
                  counts_outcome "success" ∷ [],
                  x,
                  v,
                  l,
                  c,
                  rw (x, v, l, p, q, c, d),
                )
                | inr (e, d) ↦
                    (batch, hash, (n, p), (m, q), [], x, v, l, c, rw (x, v, l, p, q, c, d))
              ]
        ]
      ]
    ]
  ]
]

-- The task is completed only if every call before succeeded and the batch passes the validation: the
-- calls are then the extraction, the extension of the lease, the persistence of the batch's entities
-- and relations, the enqueueing of what it discovered, the end of the heartbeat and the completion
-- with the hash of the task's entity, in this order, and what follows.
pub process_task-Completed :
    (max_attempts : ℕ) (a : Answers) (task : FrontierTask)
    → any is_complete (process_task max_attempts a task).0 ≡ true
    → Completed a task (process_task max_attempts a task).0
unfolding process_task
process_task-Completed max_attempts a task h = elim (Result-cases ((attempt_task a task).1)) [
  | inl (_, r) ↦ rw r (
      Completed-append a task _ _ (
        attempt_task-Completed a task
          (ground (arith, any-append is_complete (attempt_task a task).0))))
  | inr (e, r) ↦ rw r (
      Completed-append a task _ _ (
        attempt_task-Completed a task
          (ground (arith, any-append is_complete, handle_quiet max_attempts a task e))))
]
