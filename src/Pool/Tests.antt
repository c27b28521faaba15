-- ===== src/Pool/Tests.antt =====
-- Runs of a.yanin/common/executor.thread-pool with two workers.
use posix_threads.Common.{
  ℕ, ◌+◌, ◌*◌, ◌≤◌, ◌≡◌, refl, ◌⊎◌, Bool, true, false, some, List, [], ◌∷◌, arith, length,
}
use posix_threads.Pool.{Worker, PoolState}
use posix_threads.Pool.System.{System, Action, Reaches, here, next, any_worker, perform, start}
use posix_threads.Pool.Workers.{count}
use posix_threads.Pool.Wakeups.{awake}
use posix_threads.Pool.Queue.{IsQueue, Reaches-IsQueue}
use posix_threads.Pool.Liveness.{is_work, queued_task_progress}
use posix_threads.Pool.Drain.{Works, shutdown_drains}

abbrev always : ℕ → Bool
always i = true

abbrev both : List (Worker ℕ) → PoolState → List ℕ → List ℕ → List ℕ → List ℕ → System ℕ
both ws state tasks accepted taken finished = record {
  pool = record { state = state; tasks = tasks; on_error = false };
  workers = ws;
  accepted = accepted;
  taken = taken;
  finished = finished;
  aborted = false;
}

-- Both workers have found the queue empty.
abbrev waiting : System ℕ
waiting = both (Worker.asleep ∷ Worker.asleep ∷ []) PoolState.running [] [] [] []

waiting-Reaches : Reaches (start always 2) waiting
unfolding start perform
waiting-Reaches = next (Action.turn 1) (next (Action.turn 0) here refl refl) refl refl

abbrev queued : System ℕ
queued = both (Worker.ready ∷ Worker.asleep ∷ []) PoolState.running (5 ∷ 6 ∷ []) (5 ∷ 6 ∷ []) [] []

-- The second of two tasks wakes nobody, although a worker sleeps.
queued-Reaches : Reaches (start always 2) queued
unfolding start perform
queued-Reaches =
    next (Action.submits true 6 0) (next (Action.submits true 5 0) waiting-Reaches refl refl) refl
      refl

abbrev closing : System ℕ
closing = both (Worker.ready ∷ Worker.ready ∷ []) PoolState.stopping (5 ∷ 6 ∷ []) (5 ∷ 6 ∷ []) [] []

closing-Reaches : Reaches (start always 2) closing
unfolding perform
closing-Reaches = next Action.shuts queued-Reaches refl refl

abbrev closed : System ℕ
closed =
    both (Worker.gone ∷ Worker.gone ∷ []) PoolState.stopping [] (5 ∷ 6 ∷ []) (5 ∷ 6 ∷ [])
      (5 ∷ 6 ∷ [])

closed-Reaches : Reaches (start always 2) closed
unfolding perform
closed-Reaches =
    next (Action.turn 1)
      (next (Action.turn 0)
        (next (Action.finish 0 false)
          (next (Action.finish 1 false)
            (next (Action.turn 1) (next (Action.turn 0) closing-Reaches refl refl) refl refl) refl
            refl)
          refl refl)
        refl refl)
      refl refl

Reaches-IsQueue_example : IsQueue queued
Reaches-IsQueue_example = Reaches-IsQueue always 2 queued queued-Reaches

queued_task_progress_example :
    (a : Action ℕ) × (u : System ℕ) × (is_work a ≡ true) × (perform a queued ≡ some u)
queued_task_progress_example =
    queued_task_progress always 2 queued (omega arith) queued-Reaches (omega arith)

shutdown_drains_example :
    ((n : ℕ) (u : System ℕ)
      → Works closing n u
      → n ≤ 3 * (length closing.pool.tasks + length closing.workers))
    × ((m : ℕ) × (v : System ℕ) × Works closing m v
        × ((v.aborted ≡ true) ⊎ (any_worker awake v.workers ≡ false)))
    × ((n : ℕ) (u : System ℕ)
        → Works closing n u
        → any_worker awake u.workers ≡ false
        → (u.pool.tasks ≡ []) × ((test : ℕ → Bool) → count test u.accepted ≡ count test u.finished))
shutdown_drains_example = shutdown_drains always 2 closing (omega arith) closing-Reaches refl
