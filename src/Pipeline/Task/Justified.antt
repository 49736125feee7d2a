-- ===== src/Pipeline/Task/Justified.antt =====
-- When `_process_task` of application/pipeline.py gives a task back, and when it gives it up.
use govpars.Prelude.{
  ℕ, zero, suc, ◌-◌, ◌^◌, ◌≤◌, ◌<◌, String, ◌≡◌, refl, ◌⊎◌, inl, inr, true, false, List, [], ◌∷◌,
  ◌++◌, arith, Bool-cases,
}
use govpars.Domain.Errors.{
  Failure, SourceFailure, Exc, retriable, lease_lost, cancelled, other, Result, ok, raised,
  is_permanent_http_status,
}
use govpars.Domain.Models.{FrontierTask}
use govpars.Pipeline.Task.{
  Call, retries, fails, Answers, settle, handle, store_batch, attempt_task, process_task, is_final,
  retry_delay, strategy_of,
}

-- Whether a call that gives the task back, or up, is right after the exception `e`.
abbrev pub Allowed : ℕ → FrontierTask → Exc → Call → Type 0
Allowed max_attempts task e (retries t m delay strategy status) =
    ((f : SourceFailure) × (e ≡ retriable f) × (delay ≡ f.delay_seconds))
    ⊎ ((f : Failure) × (e ≡ other f)
        × (is_permanent_http_status f.response_status ≡ false)
        × (task.attempt < max_attempts)
        × (5 ≤ delay)
        × (delay ≤ 300))
Allowed max_attempts task e (fails t m strategy status) =
    (f : Failure) × (e ≡ other f)
    × ((is_permanent_http_status f.response_status ≡ true) ⊎ (max_attempts ≤ task.attempt))
Allowed max_attempts task e _ = Unit {0}

abbrev pub AllAllowed : ℕ → FrontierTask → Exc → List Call → Type 0
AllAllowed max_attempts task e [] = Unit {0}
AllAllowed max_attempts task e (c ∷ cs) =
    Allowed max_attempts task e c × AllAllowed max_attempts task e cs

pow_pos : (n : ℕ) → 1 ≤ 2 ^ n
pow_pos zero = omega arith
pow_pos (suc n) = omega (arith, pow_pos n)

retry_delay_bounds : (n : ℕ) → (5 ≤ retry_delay n) × (retry_delay n ≤ 300)
unfolding retry_delay
retry_delay_bounds n = (omega (arith, pow_pos (n - 1)), omega arith)

AllAllowed-append :
    (max_attempts : ℕ) (task : FrontierTask) (e : Exc) (xs ys : List Call)
    → AllAllowed max_attempts task e xs
    → AllAllowed max_attempts task e ys
    → AllAllowed max_attempts task e (xs ++ ys)
AllAllowed-append max_attempts task e [] ys h k = k
AllAllowed-append max_attempts task e (x ∷ xs) ys (h, hs) k =
    (h, AllAllowed-append max_attempts task e xs ys hs k)

attempt_task-AllAllowed :
    (max_attempts : ℕ) (a : Answers) (task : FrontierTask) (e : Exc)
    → AllAllowed max_attempts task e (attempt_task a task).0
unfolding attempt_task store_batch
attempt_task-AllAllowed max_attempts a task e = ground arith

settle-AllAllowed :
    (max_attempts : ℕ) (task : FrontierTask) (e : Exc) (c : Call) (r : Result (Unit {0}))
    (o : String) (more : List Call)
    → Allowed max_attempts task e c
    → AllAllowed max_attempts task e more
    → AllAllowed max_attempts task e ((settle c r o).0 ++ more)
unfolding settle
settle-AllAllowed max_attempts task e c (ok _) o more h k = (tt, (h, (tt, k)))
settle-AllAllowed max_attempts task e c (raised _) o more h k = (tt, (h, k))

handle-AllAllowed :
    (max_attempts : ℕ) (a : Answers) (task : FrontierTask) (e : Exc) (more : List Call)
    → AllAllowed max_attempts task e more
    → AllAllowed max_attempts task e ((handle max_attempts a task e).0 ++ more)
unfolding handle is_final
handle-AllAllowed max_attempts a task (retriable f) more h =
    settle-AllAllowed max_attempts task (retriable f)
      (retries task f.message f.delay_seconds f.strategy f.http_status) a.retry "blocked" more
      (inl (f, refl, refl)) h
handle-AllAllowed max_attempts a task (lease_lost m) more h = (tt, (tt, h))
handle-AllAllowed max_attempts a task cancelled more h = h
handle-AllAllowed max_attempts a task (other f) more h =
    elim (Bool-cases (is_final max_attempts task f)) [
      | inl y ↦ rw y (
          settle-AllAllowed max_attempts task (other f)
            (fails task f.repr (strategy_of f) f.response_status) a.fail "failed" more
            (f, refl, ground arith) h)
      | inr n ↦ rw n (
          settle-AllAllowed max_attempts task (other f)
            (retries task f.repr (retry_delay task.attempt) (strategy_of f) f.response_status)
            a.retry "retry" more
            (let (low, high) = retry_delay_bounds task.attempt in
              inr (f, refl, ground arith, ground arith, low, high))
            h)
    ]

-- A task is only given back after a failure that may pass: with the delay of a
-- `RetriableSourceError`, or, when attempts are left and the status is not a permanent one, with a
-- delay between 5 and 300 seconds. It is only given up after another exception, when the status is
-- permanent or no attempts are left.
pub process_task-AllAllowed :
    (max_attempts : ℕ) (a : Answers) (task : FrontierTask) (e : Exc)
    → (attempt_task a task).1 ≡ raised e
    → AllAllowed max_attempts task e (process_task max_attempts a task).0
unfolding process_task
process_task-AllAllowed max_attempts a task e h = rw h (
    AllAllowed-append max_attempts task e (attempt_task a task).0 _
      (attempt_task-AllAllowed max_attempts a task e)
      (handle-AllAllowed max_attempts a task e _ (tt, (tt, tt))))
