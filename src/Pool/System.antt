-- ===== src/Pool/System.antt =====
-- The thread pool of a.yanin/common/executor.thread-pool and its threads: the steps that they take.
use posix_threads.Common.{
  ℕ, ◌≡◌, Bool, true, false, ◌&&◌, ◌||◌, Option, none, some, List, [], ◌∷◌, ◌++◌, map,
  if◌then◌else◌, get_elem?, set,
}
use posix_threads.Pool.{
  Wake, Pool, Worker, is_running, serve, enter, after_task, settle, submit, shutdown, set_on_error,
  new,
}

-- The pool, its workers, and what has happened: the tasks that the queue has taken in, in order, those
-- that workers have taken out, in order, and those that are done. `aborted` is the end of the process.
pub record System {ℓ} (A : Type ℓ) : Type ℓ where
  pub pool : Pool A
  pub workers : List (Worker A)
  pub accepted : List A
  pub taken : List A
  pub finished : List A
  pub aborted : Bool

-- The next thing that happens. A worker is named by its number. `submits` has what the allocation answers
-- and which worker the signal wakes, `finish` whether the task fails, and `settles` whether the callback
-- has dealt with the error.
pub data Action {ℓ} (A : Type ℓ) : Type ℓ where
  submits : Bool → A → ℕ → Action A
  shuts : Action A
  registers : Bool → Action A
  turn : ℕ → Action A
  wake : ℕ → Action A
  finish : ℕ → Bool → Action A
  settles : ℕ → Bool → Action A

module _ {ℓ} {A : Type ℓ} where
  abbrev pub sleeps : Worker A → Bool
  sleeps Worker.dormant = true
  sleeps Worker.asleep = true
  sleeps _ = false

  abbrev pub woken : Worker A → Worker A
  woken Worker.dormant = Worker.spawned
  woken Worker.asleep = Worker.ready
  woken w = w

  abbrev pub any_worker : (Worker A → Bool) → List (Worker A) → Bool
  any_worker test [] = false
  any_worker test (w ∷ ws) = test w || any_worker test ws

  -- the tasks that workers run
  abbrev pub held : Worker A → List A
  held (Worker.busy t) = t ∷ []
  held _ = []

  abbrev pub change : (s : System A) → ℕ → Pool A × Worker A → System A
  change s i (p, w) = record s { pool = p; workers = set s.workers i w; taken = s.taken ++ held w }

  -- a worker that waits at the condition variable, when it is woken
  abbrev pub rouse : System A → ℕ → Worker A → Option (System A)
  rouse s i w = if sleeps w then some (record s { workers = set s.workers i (woken w) }) else none

  -- `signal` wakes a waiting worker if there is one.
  unfoldable pub deliver : Wake → ℕ → System A → Option (System A)
  deliver Wake.nobody i s = some s
  deliver Wake.broadcast i s = some (record s { workers = map woken s.workers })
  deliver Wake.signal i s =
      if any_worker sleeps s.workers
      then elim (get_elem? s.workers i) [ none ↦ none | some w ↦ rouse s i w ]
      else some s

  -- the critical section of the worker that gets the mutex
  unfoldable pub take_turn : System A → ℕ → Worker A → Option (System A)
  unfolding enter serve
  take_turn s i Worker.spawned = some (change s i (enter s.pool))
  take_turn s i Worker.ready = some (change s i (serve s.pool))
  take_turn s i w = none

  unfoldable pub end_task : System A → ℕ → Bool → Worker A → Option (System A)
  end_task s i err (Worker.busy t) =
      some (record s { workers = set s.workers i (after_task err t); finished = t ∷ s.finished })
  end_task s i err w = none

  unfoldable pub end_failure : System A → ℕ → Bool → Worker A → Option (System A)
  unfolding settle
  end_failure s i recovered (Worker.failing t) = elim (settle s.pool recovered) [
    | none ↦ some (record s { aborted = true })
    | some w ↦ some (record s { workers = set s.workers i w })
  ]
  end_failure s i recovered w = none

  unfoldable pub add_task : System A → Bool → A → ℕ → Option (System A)
  unfolding submit deliver
  add_task s grant t i =
      let (answer, p, whom, stops) = submit grant s.pool t in
      let added = if is_running s.pool.state && grant then t ∷ [] else [] in
      deliver whom i (record s { pool = p; accepted = s.accepted ++ added })

  abbrev pub at_worker : System A → ℕ → (Worker A → Option (System A)) → Option (System A)
  at_worker s i act = elim (get_elem? s.workers i) [ none ↦ none | some w ↦ act w ]

  -- The system behind an action; `none` if the action cannot happen.
  unfoldable pub perform : Action A → System A → Option (System A)
  unfolding add_task shutdown deliver set_on_error take_turn end_task end_failure
  perform (submits grant t i) s = add_task s grant t i
  perform shuts s = let r = shutdown s.pool in deliver r.1 0 (record s { pool = r.0 })
  perform (registers handler) s = some (record s { pool = set_on_error s.pool handler })
  perform (turn i) s = at_worker s i (take_turn s i)
  perform (wake i) s = at_worker s i (rouse s i)
  perform (finish i err) s = at_worker s i (end_task s i err)
  perform (settles i recovered) s = at_worker s i (end_failure s i recovered)

  -- the system that `executor_thread_pool_new` makes
  unfoldable pub start : (ℕ → Bool) → ℕ → System A
  unfolding new
  start created size =
      let made = new created size in
      record {
        pool = made.0;
        workers = made.1;
        accepted = [];
        taken = [];
        finished = [];
        aborted = false;
      }

-- The systems that a pool can come to. Nothing happens behind the end of the process.
pub data Reaches {ℓ} {A : Type ℓ} (s : System A) : System A → Type ℓ where
  here : Reaches s s
  next :
      {t u : System A} (a : Action A)
      → Reaches s t
      → t.aborted ≡ false
      → perform a t ≡ some u
      → Reaches s u
