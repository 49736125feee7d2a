-- ===== src/Pipeline/Task/Settled.antt =====
-- How `_process_task` of application/pipeline.py settles a task.
use govpars.Prelude.{
  ℕ, ◌+◌, String, ◌≡◌, refl, inl, inr, Bool, true, false, not, ◌&&◌, List, [], ◌∷◌, ◌++◌, arith,
  if◌then◌else◌, count_if,
}
use govpars.Domain.Errors.{Exc, lease_lost, Result, ok, raised, Result-cases}
use govpars.Domain.Models.{FrontierTask}
use govpars.Pipeline.Task.{
  Call, stops_heartbeat, completes, retries, fails, observes_duration, Answers, settle, handle,
  store_batch, attempt_task, process_task,
}

abbrev pub is_ok {ℓ} : {A : Type ℓ} → Result A → Bool
is_ok (ok x) = true
is_ok (raised e) = false

-- A call that ends the lease, and succeeds.
abbrev pub settles : Answers → Call → Bool
settles a (completes task h) = is_ok a.complete
settles a (retries task e d s h) = is_ok a.retry
settles a (fails task e s h) = is_ok a.fail
settles a _ = false

abbrev is_lost : Exc → Bool
is_lost (lease_lost m) = true
is_lost _ = false

abbrev pub is_lease_lost {ℓ} : {A : Type ℓ} → Result A → Bool
is_lease_lost (ok x) = false
is_lease_lost (raised e) = is_lost e

count_if-append {ℓ} :
    {A : Type ℓ} (p : A → Bool) (xs ys : List A)
    → count_if p (xs ++ ys) ≡ count_if p xs + count_if p ys
count_if-append p [] ys = omega arith
count_if-append p (x ∷ xs) ys = ground (arith, count_if-append p xs ys)

attempt_task-settles :
    (a : Answers) (task : FrontierTask)
    → count_if (settles a) (attempt_task a task).0
      ≡ (if is_ok (attempt_task a task).1 then 1 else 0)
unfolding attempt_task store_batch
attempt_task-settles a task = ground arith

handle-settles :
    (max_attempts : ℕ) (a : Answers) (task : FrontierTask) (e : Exc)
    → count_if (settles a) (handle max_attempts a task e).0
      ≡ (if is_ok (handle max_attempts a task e).1.0 && not (is_lost e) then 1 else 0)
unfolding handle settle
handle-settles max_attempts a task e = ground arith

-- A run that ends without an exception settles the task exactly once, by a completion, a retry or a
-- failure that succeeds, unless the lease was lost; then, and in a run that ends with an exception,
-- it is not settled at all.
pub process_task-settles :
    (max_attempts : ℕ) (a : Answers) (task : FrontierTask)
    → count_if (settles a) (process_task max_attempts a task).0 ≡ (
        if is_ok (process_task max_attempts a task).1 && not (is_lease_lost (attempt_task a task).1)
        then 1
        else 0)
unfolding process_task
process_task-settles max_attempts a task = elim (Result-cases ((attempt_task a task).1)) [
  | inl (_, r) ↦ ground (arith, attempt_task-settles a task, count_if-append (settles a))
  | inr (e, r) ↦ ground (
    arith,
    attempt_task-settles a task,
    count_if-append (settles a),
    handle-settles max_attempts a task e,
  )
]

-- Every call that settles is after one that stops the heartbeat.
abbrev pub stopped_first : List Call → Bool
stopped_first [] = true
stopped_first (stops_heartbeat ∷ cs) = true
stopped_first (completes task h ∷ cs) = false
stopped_first (retries task e d s h ∷ cs) = false
stopped_first (fails task e s h ∷ cs) = false
stopped_first (c ∷ cs) = stopped_first cs

attempt_task-stops :
    (a : Answers) (task : FrontierTask) → stopped_first (attempt_task a task).0 ≡ true
unfolding attempt_task store_batch
attempt_task-stops a task = ground arith

handle-stops :
    (max_attempts : ℕ) (a : Answers) (task : FrontierTask) (e : Exc) (o : String)
    → stopped_first ((handle max_attempts a task e).0 ++ stops_heartbeat ∷ observes_duration o ∷ [])
      ≡ true
unfolding handle settle
handle-stops max_attempts a task e = ground arith

stopped_first-append :
    (xs ys : List Call)
    → stopped_first xs ≡ true
    → stopped_first ys ≡ true
    → stopped_first (xs ++ ys) ≡ true
stopped_first-append [] ys h k = k
stopped_first-append (x ∷ xs) ys h k = ground (arith, stopped_first-append xs ys)

-- The heartbeat is stopped before the first call that completes the task, gives it back or gives it
-- up.
pub process_task-stops :
    (max_attempts : ℕ) (a : Answers) (task : FrontierTask)
    → stopped_first (process_task max_attempts a task).0 ≡ true
unfolding process_task
process_task-stops max_attempts a task = elim (Result-cases ((attempt_task a task).1)) [
  | inl (_, r) ↦ rw r (
      stopped_first-append (attempt_task a task).0
        (stops_heartbeat ∷ observes_duration "success" ∷ []) (attempt_task-stops a task) refl)
  | inr (e, r) ↦ rw r (
      stopped_first-append (attempt_task a task).0
        ((handle max_attempts a task e).0
          ++ stops_heartbeat ∷ observes_duration (handle max_attempts a task e).1.1 ∷ [])
        (attempt_task-stops a task)
        (handle-stops max_attempts a task e (handle max_attempts a task e).1.1))
]
