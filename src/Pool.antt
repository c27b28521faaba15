-- ===== src/Pool.antt =====
-- a.yanin/common/executor.thread-pool, thread-pool.c: what each critical section of the pool does to the
-- state that its mutex protects.
pub mod System
pub mod Single
pub mod Workers
pub mod Queue
pub mod Wakeups
pub mod Progress
pub mod Liveness
pub mod Drain
pub mod Tests
use posix_threads.Common.{
  ℕ, zero, suc, ◌+◌, ◌-◌, ◌*◌, ◌/◌, ◌%◌, ◌^◌, ◌≤◌, ◌<◌, min, max, ◌≡◌, refl, sym, ap, ◌∙◌, ◌≢◌, ◌↔◌,
  ◌⊎◌, inl, inr, Bool, true, false, not, ◌&&◌, ◌||◌, Option, none, some, List, [], ◌∷◌, ◌++◌, map,
  arith, dec_lt, dec_le, ℕ_discrete, ltb, leb, ◌==◌, if◌then◌else◌, ltb→lt, lt→ltb, leb→le, ==_iff,
  Bool-cases, Option-cases, le→leb, le→ltb_false, lt→leb_false, ne→==_false, some_inj, none-ne-some,
  get_elem?-set_self, get_elem?-set_ne, out_of_fuel, length, get_elem?, set, length-append,
  length-set, get_or, take, drop, replicate, length-take, length-drop, length-replicate, length-map,
  take-take, take_all, Fault, assertion, out_of_bounds, Outcome, done, stop, ◌>>=◌, ◌>>◌, assert,
  ErrorCode, is_ok,
}

-- `thread_pool_state_t`
pub data PoolState : Type 0 where
  starting running stopping : PoolState

-- `executor_submission_t`
pub data Submission : Type 0 where
  submitted dropped : Submission

-- Whom a critical section wakes at the condition variable.
pub data Wake : Type 0 where
  nobody signal broadcast : Wake

-- What the mutex of `executor_thread_pool` protects. Of `on_error` it matters whether it is set.
pub record Pool {ℓ} (A : Type ℓ) : Type ℓ where
  pub state : PoolState
  pub tasks : List A
  pub on_error : Bool

-- Where a worker thread is. `spawned` and `ready` want the mutex, before and behind the wait for the start;
-- `dormant` and `asleep` are the waits at the condition variable; `failing` has an error of its task.
pub data Worker {ℓ} (A : Type ℓ) : Type ℓ where
  spawned dormant ready asleep gone : Worker A
  busy failing : A → Worker A

abbrev pub is_running : PoolState → Bool
is_running PoolState.running = true
is_running _ = false

abbrev pub is_starting : PoolState → Bool
is_starting PoolState.starting = true
is_starting _ = false

module _ {ℓ} {A : Type ℓ} where
  abbrev dequeue : Pool A → List A → Pool A × Worker A
  dequeue p [] = (p, gone)
  dequeue p (t ∷ ts) = (record p { tasks = ts }, busy t)

  -- a round of the loop of `worker_thread`, from where it holds the mutex to where it gives it back
  unfoldable pub serve : Pool A → Pool A × Worker A
  serve p =
      if is_running p.state && length p.tasks == 0
      then (p, asleep)
      else if not (is_running p.state) && length p.tasks == 0
      then (p, gone)
      else dequeue p p.tasks

  -- the same from the beginning of the thread
  unfoldable pub enter : Pool A → Pool A × Worker A
  unfolding serve
  enter p = if is_starting p.state then (p, dormant) else serve p

  -- the worker behind `task.cb`; `err` tells whether it has answered an error
  abbrev pub after_task : Bool → A → Worker A
  after_task err t = if err then failing t else ready

  -- the reading of `on_error` and its call, which answers an error itself unless `recovered`; `none` is
  -- the end of the process by `log_abort`
  unfoldable pub settle : Pool A → Bool → Option (Worker A)
  settle p recovered = if p.on_error && recovered then some ready else none

  -- The first critical section of `executor_thread_pool_submit`; `grant` tells whether the list gets
  -- memory for its node. The last component tells whether the call goes on to `shutdown`.
  unfoldable pub submit : Bool → Pool A → A → Submission × Pool A × Wake × Bool
  submit grant p t =
      if not (is_running p.state)
      then (Submission.dropped, p, Wake.nobody, false)
      else if not grant
      then (Submission.submitted, p, Wake.nobody, p.on_error)
      else (
        Submission.submitted,
        record p { tasks = p.tasks ++ t ∷ [] },
        (if length (p.tasks ++ t ∷ []) == 1 then Wake.signal else Wake.nobody),
        false,
      )

  unfoldable pub shutdown : Pool A → Pool A × Wake
  shutdown p = (record p { state = PoolState.stopping }, Wake.broadcast)

  unfoldable pub set_on_error : Pool A → Bool → Pool A
  set_on_error p handler = record p { on_error = handler }

  -- The loop of `executor_thread_pool_new`; `created i` tells whether the `i`-th `pthread_create`
  -- succeeds. The workers wait for the mutex, which `executor_thread_pool_new` holds.
  unfoldable pub launch : (ℕ → Bool) → ℕ → ℕ → List (Worker A) × Bool
  launch created i zero = ([], true)
  launch created i (suc left) =
      let rest = launch created (suc i) left in
      if created i then (spawned ∷ rest.0, rest.1) else ([], false)

  -- `executor_thread_pool_new` behind its allocations, to where it gives the mutex back
  unfoldable pub new : (ℕ → Bool) → ℕ → Pool A × List (Worker A)
  unfolding launch
  new created size =
      let spawning = launch created 0 size in
      (
        record {
          state = if spawning.1 then PoolState.running else PoolState.stopping;
          tasks = [];
          on_error = false;
        },
        spawning.0,
      )
