-- ===== src/Pipeline/Worker/Batches.antt =====
-- What becomes of the tasks that a worker of application/pipeline.py claims.
use govpars.Prelude.{
  ℕ, suc, ◌≡◌, refl, sym, ap, ◌∙◌, inl, inr, Bool, true, false, List, [], ◌∷◌, ◌++◌, append_assoc,
  append-nil, arith, Bool-cases, all,
}
use govpars.Domain.Errors.{cancelled, ok, Result-cases}
use govpars.Domain.Models.{FrontierTask}
use govpars.Pipeline.Worker.{
  WorkerCall, claims, resets_empty_since, processes, releases, releases_owner, LoopEnd, continues,
  returns, cut, raises, Turn, process_batch, claim_tasks, idle_turn, after_batch, busy_turn,
  take_turn, run_turn, and_then, run_turns, run_finally, worker_loop,
}

-- the tasks that the calls claim, process to the end, and release, each in order
abbrev pub claimed_of : List WorkerCall → List FrontierTask
claimed_of [] = []
claimed_of (claims b tasks ∷ calls) = tasks ++ claimed_of calls
claimed_of (_ ∷ calls) = claimed_of calls

abbrev pub finished_of : List WorkerCall → List FrontierTask
finished_of [] = []
finished_of (processes task (ok _) ∷ calls) = task ∷ finished_of calls
finished_of (_ ∷ calls) = finished_of calls

abbrev pub released_of : List WorkerCall → List FrontierTask
released_of [] = []
released_of (releases tasks ∷ calls) = tasks ++ released_of calls
released_of (_ ∷ calls) = released_of calls

-- The run ends, or goes on, without an exception other than a cancellation.
abbrev pub is_orderly : LoopEnd → Bool
is_orderly (raises cancelled) = true
is_orderly (raises _) = false
is_orderly _ = true

-- Every task is finished or released, and none is released when the loop goes on.
abbrev Accounts : List WorkerCall → LoopEnd → List FrontierTask → Type 0
Accounts calls r tasks =
    (is_orderly r ≡ true → finished_of calls ++ released_of calls ≡ tasks)
    × (r ≡ continues → released_of calls ≡ [])

process_batch-Accounts :
    (turn : Turn) (index : ℕ) (tasks : List FrontierTask)
    → let b = process_batch turn index tasks in Accounts b.0 b.1 tasks
unfolding process_batch
process_batch-Accounts turn index [] = (λ h. refl, λ h. refl)
process_batch-Accounts turn index (task ∷ tasks) =
    let (all, none_left) = process_batch-Accounts turn (suc index) tasks in
    elim (Bool-cases (turn.shutdown_before index)) [
      | inl s ↦ (λ h. ground (arith, append-nil tasks), λ h. ground arith)
      | inr n ↦ elim (Result-cases (turn.process_task index)) [
        | inl (_, r) ↦ (λ h. ground (arith, all), λ h. ground (arith, none_left))
        | inr (e, r) ↦ (λ h. ground (arith, append-nil tasks), λ h. ground arith)
      ]
    ]

claim_tasks_lem :
    (is_backfill_worker : Bool) (turn : Turn)
    → let c = claim_tasks is_backfill_worker turn in
      (claimed_of c.0 ≡ c.1) × (finished_of c.0 ≡ []) × (released_of c.0 ≡ [])
unfolding claim_tasks
claim_tasks_lem is_backfill_worker turn =
    ground (arith, append-nil turn.claim, append-nil turn.claim_again)

after_batch-Accounts :
    (once : Bool) (calls : List WorkerCall) (r : LoopEnd) (tasks : List FrontierTask)
    → Accounts calls r tasks
    → Accounts (resets_empty_since ∷ calls) (after_batch once r) tasks
unfolding after_batch
after_batch-Accounts once calls continues tasks (all, none_left) =
    (λ h. all refl, λ h. none_left refl)
after_batch-Accounts once calls returns tasks (all, none_left) = (all, none_left)
after_batch-Accounts once calls cut tasks (all, none_left) = (all, none_left)
after_batch-Accounts once calls (raises e) tasks (all, none_left) = (all, none_left)

busy_turn-Accounts :
    (once : Bool) (turn : Turn) (tasks : List FrontierTask)
    → let b = busy_turn once turn tasks in Accounts b.0 b.1 tasks
unfolding busy_turn
busy_turn-Accounts once turn tasks =
    after_batch-Accounts once (process_batch turn 0 tasks).0 (process_batch turn 0 tasks).1 tasks
      (process_batch-Accounts turn 0 tasks)

take_turn-Accounts :
    (once drain : Bool) (turn : Turn) (tasks : List FrontierTask)
    → let b = take_turn once drain turn tasks in Accounts b.0 b.1 tasks
unfolding take_turn idle_turn
take_turn-Accounts once drain turn [] = (λ h. ground arith, λ h. ground arith)
take_turn-Accounts once drain turn (task ∷ tasks) = busy_turn-Accounts once turn (task ∷ tasks)

-- Nothing is claimed after the claims of a turn.
process_batch-claims :
    (turn : Turn) (index : ℕ) (tasks : List FrontierTask)
    → claimed_of (process_batch turn index tasks).0 ≡ []
unfolding process_batch
process_batch-claims turn index [] = refl
process_batch-claims turn index (task ∷ tasks) =
    ground (arith, process_batch-claims turn (suc index) tasks)

take_turn-claims :
    (once drain : Bool) (turn : Turn) (tasks : List FrontierTask)
    → claimed_of (take_turn once drain turn tasks).0 ≡ []
unfolding take_turn idle_turn busy_turn
take_turn-claims once drain turn [] = ground arith
take_turn-claims once drain turn (task ∷ tasks) = process_batch-claims turn 0 (task ∷ tasks)

claimed_of-append :
    (xs ys : List WorkerCall) → claimed_of (xs ++ ys) ≡ claimed_of xs ++ claimed_of ys
claimed_of-append [] ys = refl
claimed_of-append (claims b tasks ∷ xs) ys =
    ap (λ l. tasks ++ l) (claimed_of-append xs ys)
    ∙ sym (append_assoc tasks (claimed_of xs) (claimed_of ys))
claimed_of-append (x ∷ xs) ys = ground (arith, claimed_of-append xs ys)

finished_of-append :
    (xs ys : List WorkerCall) → finished_of (xs ++ ys) ≡ finished_of xs ++ finished_of ys
finished_of-append [] ys = refl
finished_of-append (x ∷ xs) ys = ground (arith, finished_of-append xs ys)

released_of-append :
    (xs ys : List WorkerCall) → released_of (xs ++ ys) ≡ released_of xs ++ released_of ys
released_of-append [] ys = refl
released_of-append (releases tasks ∷ xs) ys =
    ap (λ l. tasks ++ l) (released_of-append xs ys)
    ∙ sym (append_assoc tasks (released_of xs) (released_of ys))
released_of-append (x ∷ xs) ys = ground (arith, released_of-append xs ys)

-- A turn claims, and accounts for what it claims.
run_turn-Accounts :
    (is_backfill_worker once drain : Bool) (turn : Turn)
    → let b = run_turn is_backfill_worker once drain turn in Accounts b.0 b.1 (claimed_of b.0)
unfolding run_turn
run_turn-Accounts is_backfill_worker once drain turn =
    let c = claim_tasks is_backfill_worker turn in
    let b = take_turn once drain turn c.1 in
    let (k, f, r) = claim_tasks_lem is_backfill_worker turn in
    let (all, none_left) = take_turn-Accounts once drain turn c.1 in
    let none_claimed = take_turn-claims once drain turn c.1 in
    let g = finished_of-append c.0 b.0 in
    let s = released_of-append c.0 b.0 in
    let m = claimed_of-append c.0 b.0 in
    let n = append-nil c.1 in (λ h. ground (arith, all h), λ h. ground (arith, none_left h))

-- All tasks that the calls claim are processed to the end or released.
abbrev pub AllAccounted : List WorkerCall → Type 0
AllAccounted calls = finished_of calls ++ released_of calls ≡ claimed_of calls

and_then-Accounts :
    (calls : List WorkerCall) (r : LoopEnd) (rest : List WorkerCall × LoopEnd)
    → Accounts calls r (claimed_of calls)
    → (is_orderly rest.1 ≡ true → AllAccounted rest.0)
    → is_orderly (and_then (calls, r) rest).1 ≡ true
    → AllAccounted (and_then (calls, r) rest).0
unfolding and_then
and_then-Accounts calls continues (more, e) (all, none_left) ih h =
    let f = finished_of-append calls more in
    let s = released_of-append calls more in
    let c = claimed_of-append calls more in
    let a = append_assoc (finished_of calls) (finished_of more) (released_of more) in
    let n = append-nil (finished_of calls) in
    let here = all refl in let no_release = none_left refl in let later = ih h in ground arith
and_then-Accounts calls returns rest (all, none_left) ih h = all refl
and_then-Accounts calls cut rest (all, none_left) ih h = all refl
and_then-Accounts calls (raises e) rest (all, none_left) ih h = all h

run_turns-accounts :
    (is_backfill_worker once drain : Bool) (turns : List Turn)
    → is_orderly (run_turns is_backfill_worker once drain turns).1 ≡ true
    → AllAccounted (run_turns is_backfill_worker once drain turns).0
unfolding run_turns
run_turns-accounts is_backfill_worker once drain [] h = refl
run_turns-accounts is_backfill_worker once drain (turn ∷ turns) h =
    elim (Bool-cases turn.shutdown_requested) [
      | inl y ↦ ground arith
      | inr n ↦ ground (
        arith,
        and_then-Accounts (run_turn is_backfill_worker once drain turn).0
            (run_turn is_backfill_worker once drain turn).1
            (run_turns is_backfill_worker once drain turns)
            (run_turn-Accounts is_backfill_worker once drain turn)
            (run_turns-accounts is_backfill_worker once drain turns) (ground arith),
      )
    ]

run_finally-accounts :
    (calls : List WorkerCall) (r : LoopEnd)
    → (is_orderly r ≡ true → AllAccounted calls)
    → is_orderly (run_finally (calls, r)).1 ≡ true
    → AllAccounted (run_finally (calls, r)).0
unfolding run_finally
run_finally-accounts calls r all h =
    let f = finished_of-append calls (releases_owner ∷ []) in
    let s = released_of-append calls (releases_owner ∷ []) in
    let c = claimed_of-append calls (releases_owner ∷ []) in
    let n = append-nil (finished_of calls) in
    let m = append-nil (released_of calls) in
    let k = append-nil (claimed_of calls) in ground (arith, all (ground arith))

-- A worker that ends, or that still goes on, without an exception other than a cancellation has lost
-- no task: those that it processed to the end and those that it gave back are, in order, all those
-- that its claims gave it.
pub worker_loop-accounts :
    (is_backfill_worker once drain : Bool) (turns : List Turn)
    → is_orderly (worker_loop is_backfill_worker once drain turns).1 ≡ true
    → AllAccounted (worker_loop is_backfill_worker once drain turns).0
unfolding worker_loop
worker_loop-accounts is_backfill_worker once drain turns h =
    run_finally-accounts (run_turns is_backfill_worker once drain turns).0
      (run_turns is_backfill_worker once drain turns).1
      (run_turns-accounts is_backfill_worker once drain turns) h
