-- ===== src/Pipeline/Worker.antt =====
-- `_worker_loop` of application/pipeline.py: the claims of one worker, the tasks of a claimed batch one
-- after the other, and the release of what is left. What happens in the run (when a shutdown is
-- requested, what the claims give, how each task ends) is a list with one entry for a turn of the
-- loop; when the list ends, the run is cut there. A cancellation is looked at in `_process_task` only.
pub mod Batches
use govpars.Prelude.{ℕ, suc, Bool, true, false, List, [], ◌∷◌, ◌++◌, if◌then◌else◌}
use govpars.Domain.Errors.{Exc, retriable, lease_lost, cancelled, other, Result, ok, raised}
use govpars.Domain.Models.{FrontierTask}

-- What the worker does. `processes` says how the task ended.
pub data WorkerCall : Type 0 where
  claims : Bool → List FrontierTask → WorkerCall
  checks_drain : WorkerCall
  requests_shutdown : WorkerCall
  waits : WorkerCall
  resets_empty_since : WorkerCall
  processes : FrontierTask → Result (Unit {0}) → WorkerCall
  releases : List FrontierTask → WorkerCall
  releases_owner : WorkerCall

pub data LoopEnd : Type 0 where
  continues returns cut : LoopEnd
  raises : Exc → LoopEnd

-- One turn: is a shutdown requested before it, what do the claims give (the second is only made by
-- a backfill worker that got nothing), is the drain complete; and for the task at each index of the
-- batch, is a shutdown requested before it, and how does it end.
pub record Turn : Type 0 where
  pub shutdown_requested : Bool
  pub claim : List FrontierTask
  pub claim_again : List FrontierTask
  pub drain_complete : Bool
  pub shutdown_before : ℕ → Bool
  pub process_task : ℕ → Result (Unit {0})

-- The `for` loop over the tasks of a batch, from `index` on.
unfoldable pub process_batch : Turn → ℕ → List FrontierTask → List WorkerCall × LoopEnd
process_batch turn index [] = ([], continues)
process_batch turn index (task ∷ tasks) = elim (turn.shutdown_before index) [
  | true ↦ (releases (task ∷ tasks) ∷ [], returns)
  | false ↦ elim (turn.process_task index) [
    | ok _ ↦
        let (calls, r) = process_batch turn (suc index) tasks in (processes task (ok tt) ∷ calls, r)
    | raised cancelled ↦
        (processes task (raised cancelled) ∷ releases (task ∷ tasks) ∷ [], raises cancelled)
    | raised e ↦ (processes task (raised e) ∷ [], raises e)
  ]
]

-- The claims of a turn, and the tasks that they give.
unfoldable pub claim_tasks : Bool → Turn → List WorkerCall × List FrontierTask
claim_tasks is_backfill_worker turn = elim turn.claim [
  | task ∷ tasks ↦ (claims is_backfill_worker (task ∷ tasks) ∷ [], task ∷ tasks)
  | [] ↦
      if is_backfill_worker
      then (claims true [] ∷ claims false turn.claim_again ∷ [], turn.claim_again)
      else (claims false [] ∷ [], [])
]

-- A turn without tasks.
unfoldable pub idle_turn : Bool → Bool → Turn → List WorkerCall × LoopEnd
idle_turn once drain turn =
    if once
    then ([], returns)
    else if drain
    then if turn.drain_complete
      then (checks_drain ∷ requests_shutdown ∷ [], returns)
      else (checks_drain ∷ waits ∷ [], continues)
    else (waits ∷ [], continues)

-- `if once: return` after the batch
unfoldable pub after_batch : Bool → LoopEnd → LoopEnd
after_batch once continues = if once then returns else continues
after_batch once r = r

-- A turn with tasks.
unfoldable pub busy_turn : Bool → Turn → List FrontierTask → List WorkerCall × LoopEnd
unfolding process_batch
busy_turn once turn tasks =
    let (calls, r) = process_batch turn 0 tasks in (resets_empty_since ∷ calls, after_batch once r)

unfoldable pub take_turn : Bool → Bool → Turn → List FrontierTask → List WorkerCall × LoopEnd
take_turn once drain turn [] = idle_turn once drain turn
take_turn once drain turn (task ∷ tasks) = busy_turn once turn (task ∷ tasks)

unfoldable pub run_turn : Bool → Bool → Bool → Turn → List WorkerCall × LoopEnd
unfolding claim_tasks take_turn
run_turn is_backfill_worker once drain turn =
    let (calls, tasks) = claim_tasks is_backfill_worker turn in
    let (more, r) = take_turn once drain turn tasks in (calls ++ more, r)

-- The next turns, if the loop goes on.
unfoldable pub and_then :
    List WorkerCall × LoopEnd → List WorkerCall × LoopEnd → List WorkerCall × LoopEnd
and_then (calls, continues) rest = (calls ++ rest.0, rest.1)
and_then (calls, r) rest = (calls, r)

-- The `while` loop.
unfoldable pub run_turns : Bool → Bool → Bool → List Turn → List WorkerCall × LoopEnd
unfolding run_turn
run_turns is_backfill_worker once drain [] = ([], cut)
run_turns is_backfill_worker once drain (turn ∷ turns) =
    let rest = run_turns is_backfill_worker once drain turns in
    elim turn.shutdown_requested [
      | true ↦ ([], returns)
      | false ↦ and_then (run_turn is_backfill_worker once drain turn) rest
    ]

-- The `finally` block, which a run that is cut has not come to.
unfoldable pub run_finally : List WorkerCall × LoopEnd → List WorkerCall × LoopEnd
run_finally (calls, cut) = (calls, cut)
run_finally (calls, r) = (calls ++ releases_owner ∷ [], r)

-- The whole method.
unfoldable pub worker_loop : Bool → Bool → Bool → List Turn → List WorkerCall × LoopEnd
unfolding run_turns run_finally
worker_loop is_backfill_worker once drain turns =
    run_finally (run_turns is_backfill_worker once drain turns)
