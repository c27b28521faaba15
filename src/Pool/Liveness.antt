-- ===== src/Pool/Liveness.antt =====
-- a.yanin/common/executor.thread-pool over all runs: while a task is queued,
-- some worker can act.
use posix_threads.Common.{
  ℕ, zero, suc, ◌<◌, ◌≡◌, refl, sym, ap, ◌∙◌, ◌⊎◌, inl, inr, Bool, true, false, Option, some, List,
  [], ◌∷◌, ◌++◌, map, arith, ◌==◌, Bool-cases, some_inj, length, get_elem?, set, length-append,
  length-map,
}
use mathlib.Core.Path.{subst}
use posix_threads.Pool.{
  Worker, Wake, is_running, serve, enter, settle, shutdown, set_on_error, launch, new,
}
use posix_threads.Pool.System.{
  System, Action, Reaches, here, next, sleeps, woken, any_worker, rouse, deliver, at_worker, change,
  take_turn, end_task, end_failure, add_task, perform, start,
}
use mathlib.Core.List.{append-nil}
use posix_threads.Pool.Queue.{Reaches-IsQueue}
use posix_threads.Pool.Workers.{
  count, running, lift_all, length-Risen, lift_all, length-Risen, any-get, rouse-Delivered,
  deliver-Delivered, at_worker-some, grown, halted, add_task-cases,
}
use posix_threads.Pool.Wakeups.{
  is_gone, awake, someone_awake, all_woken, any_gone-Risen, any_awake-Risen,
}
use posix_threads.Pool.Progress.{
  IsLive, Delivered-IsLive, take_turn-IsLive, end_task-IsLive, end_failure-IsLive, grown-IsLive,
  signal-IsLive,
}

module _ {ℓ} {A : Type ℓ} where
  add_task-IsLive :
      (s u : System A) (grant : Bool) (t : A) (i : ℕ)
      → add_task s grant t i ≡ some u
      → IsLive s
      → IsLive u
  add_task-IsLive s u grant t i h l = elim (add_task-cases s u grant t i h) [
    | inl same ↦ subst IsLive (sym same) l
    | inr (run, delivery) ↦
        let (no_gone, some_worker, cause) = l.staffed run in
        elim cause [
          | inl idle ↦
              signal-IsLive s u t i (rw (first_one idle) at delivery) no_gone some_worker run l
          | inr up ↦
              let d = deliver-Delivered _ i (grown s t) u delivery in
              grown-IsLive s u t d.workers d.only run (any_gone-Risen d.risen ∙ no_gone)
                (rw (length-Risen d.risen) some_worker) (any_awake-Risen d.risen up) l
        ]
  ]
    where
      first_one : length s.pool.tasks ≡ 0 → (length (s.pool.tasks ++ t ∷ []) == 1) ≡ true
      first_one idle = rw (length-append s.pool.tasks (t ∷ []), idle) refl

  shut-IsLive :
      (s u : System A) → deliver Wake.broadcast 0 (halted s) ≡ some u → IsLive s → IsLive u
  unfolding deliver
  shut-IsLive s u h l = subst IsLive (some_inj h) (record {
    begun = refl;
    staffed = λ run. absurd (ground (arith, run));
    draining = λ _. (all_woken s.workers, after (Bool-cases (is_running s.pool.state)));
  })
    where
      kept :
          (any_worker is_gone s.workers ≡ false) × (0 < length s.workers)
          → (any_worker is_gone (map woken s.workers) ≡ false) × (0 < length (map woken s.workers))
      kept (no_gone, some_worker) = (
        any_gone-Risen (lift_all s.workers) ∙ no_gone,
        rw (length-map s.workers woken) some_worker,
      )

      after :
          ((is_running s.pool.state ≡ true) ⊎ (is_running s.pool.state ≡ false))
          → (length s.pool.tasks ≡ 0)
            ⊎ ((any_worker is_gone (map woken s.workers) ≡ false)
                × (0 < length (map woken s.workers)))
      after (inl run) =
          let (no_gone, some_worker, cause) = l.staffed run in inr (kept (no_gone, some_worker))
      after (inr off) =
          let (no_sleep, cause) = l.draining off in
          elim cause [ inl idle ↦ inl idle | inr more ↦ inr (kept more) ]

  perform-IsLive : (a : Action A) (s u : System A) → perform a s ≡ some u → IsLive s → IsLive u
  unfolding perform shutdown set_on_error
  perform-IsLive (Action.submits grant t i) s u h l = add_task-IsLive s u grant t i h l
  perform-IsLive Action.shuts s u h l = shut-IsLive s u h l
  perform-IsLive (Action.registers handler) s u h l =
      subst IsLive (some_inj h)
        (record { begun = l.begun; staffed = l.staffed; draining = l.draining })
  perform-IsLive (Action.turn i) s u h l =
      let (w, at, e) = at_worker-some s u i (take_turn s i) h in take_turn-IsLive s u i w at e l
  perform-IsLive (Action.wake i) s u h l =
      let (w, at, e) = at_worker-some s u i (rouse s i) h in
      Delivered-IsLive s u (rouse-Delivered s u i w at e) l
  perform-IsLive (Action.finish i err) s u h l =
      let (w, at, e) = at_worker-some s u i (end_task s i err) h in
      end_task-IsLive s u i err w at e l
  perform-IsLive (Action.settles i recovered) s u h l =
      let (w, at, e) = at_worker-some s u i (end_failure s i recovered) h in
      end_failure-IsLive s u i recovered w at e l

  start-IsLive : (created : ℕ → Bool) (size : ℕ) → 0 < size → IsLive (start {A = A} created size)
  unfolding start new launch
  start-IsLive created size some_worker = elim (Bool-cases (launch {A = A} created 0 size).1) [
    | inl all ↦ rw all (record {
      begun = refl;
      staffed = λ _. (no_one is_gone refl 0 size, rw (full 0 size all) some_worker, inl refl);
      draining = λ off. absurd (ground (arith, off));
    })
    | inr failed ↦ rw failed (record {
      begun = refl;
      staffed = λ run. absurd (ground (arith, run));
      draining = λ _. (no_one sleeps refl 0 size, inl refl);
    })
  ]
    where
      no_one :
          (test : Worker A → Bool)
          → test Worker.spawned ≡ false
          → (i left : ℕ) → any_worker test (launch created i left).0 ≡ false
      no_one test h i zero = refl
      no_one test h i (suc left) = elim (Bool-cases (created i)) [
        | inl made ↦ rw made (ground (arith, h, no_one test h (suc i) left))
        | inr failed ↦ rw failed refl
      ]

      full :
          (i left : ℕ)
          → (launch {A = A} created i left).1 ≡ true
          → length (launch {A = A} created i left).0 ≡ left
      full i zero h = refl
      full i (suc left) h = elim (Bool-cases (created i)) [
        | inl made ↦ rw made (ap suc (full (suc i) left (rw (launch, made) at h)))
        | inr failed ↦ absurd (ground (arith, rw (launch, failed) at h))
      ]

  pub Reaches-IsLive :
      (created : ℕ → Bool) (size : ℕ) (s : System A)
      → 0 < size
      → Reaches (start created size) s
      → IsLive s
  Reaches-IsLive created size s some_worker here = start-IsLive created size some_worker
  Reaches-IsLive created size s some_worker (next {t = t} a r going e) =
      perform-IsLive a t s e (Reaches-IsLive created size t some_worker r)

  -- What workers do by themselves: a turn with the mutex, the end of a task, the end of a failure.
  abbrev pub is_work : Action A → Bool
  is_work (Action.turn i) = true
  is_work (Action.finish i err) = true
  is_work (Action.settles i recovered) = true
  is_work _ = false

  at_worker-eq-some :
      (s u : System A) (i : ℕ) (w : Worker A) (act : Worker A → Option (System A))
      → get_elem? s.workers i ≡ some w
      → act w ≡ some u
      → at_worker s i act ≡ some u
  at_worker-eq-some s u i w act at e = rw (at_worker, at) e

  -- a worker that is awake can act
  pub can_work :
      (s : System A) (i : ℕ) (w : Worker A)
      → get_elem? s.workers i ≡ some w
      → awake w ≡ true
      → (a : Action A) × (u : System A) × (is_work a ≡ true) × (perform a s ≡ some u)
  unfolding perform take_turn end_task end_failure settle
  can_work s i Worker.spawned at up = (
    Action.turn i,
    change s i (enter s.pool),
    refl,
    at_worker-eq-some s _ i Worker.spawned (take_turn s i) at refl,
  )
  can_work s i Worker.ready at up = (
    Action.turn i,
    change s i (serve s.pool),
    refl,
    at_worker-eq-some s _ i Worker.ready (take_turn s i) at refl,
  )
  can_work s i (Worker.busy t) at up = (
    Action.finish i false,
    record s { workers = set s.workers i Worker.ready; finished = t ∷ s.finished },
    refl,
    at_worker-eq-some s _ i (Worker.busy t) (end_task s i false) at refl,
  )
  can_work s i (Worker.failing t) at up = (
    Action.settles i false,
    record s { aborted = true },
    refl,
    at_worker-eq-some s _ i (Worker.failing t) (end_failure s i false) at (ground arith),
  )
  can_work s i Worker.dormant at up = absurd (ground (arith, up))
  can_work s i Worker.asleep at up = absurd (ground (arith, up))
  can_work s i Worker.gone at up = absurd (ground (arith, up))

  -- A live pool with a task has a worker awake.
  Live-awake_somewhere :
      (s : System A) → IsLive s → 0 < length s.pool.tasks → any_worker awake s.workers ≡ true
  Live-awake_somewhere s l waiting = elim (Bool-cases (is_running s.pool.state)) [
    | inl run ↦
        let (no_gone, some_worker, cause) = l.staffed run in
        elim cause [ inl idle ↦ absurd (omega (arith, waiting, idle)) | inr up ↦ up ]
    | inr off ↦
        let (no_sleep, cause) = l.draining off in
        elim cause [
          | inl idle ↦ absurd (omega (arith, waiting, idle))
          | inr (no_gone, some_worker) ↦ someone_awake s.workers some_worker no_sleep no_gone
        ]
  ]

  -- In every run of a pool of at least one worker, while there is a task in the queue, some worker is
  -- awake and can act: no schedule and no choice of the woken thread leaves a task to sleeping workers.
  pub queued_task_progress :
      (created : ℕ → Bool) (size : ℕ) (s : System A)
      → 0 < size
      → Reaches (start created size) s
      → 0 < length s.pool.tasks
      → (a : Action A) × (u : System A) × (is_work a ≡ true) × (perform a s ≡ some u)
  queued_task_progress created size s some_worker r waiting =
      let l = Reaches-IsLive created size s some_worker r in
      let (i, w, at, up) = any-get awake s.workers (Live-awake_somewhere s l waiting) in
      can_work s i w at up

  -- In every run of a pool of at least one worker, when all workers have ended, which is what
  -- `await_termination` waits for, the queue is empty and every task that `submit` has added has been
  -- run to its end, none more often than it was added.
  pub ended_all_done :
      (created : ℕ → Bool) (size : ℕ) (s : System A)
      → 0 < size
      → Reaches (start created size) s
      → any_worker awake s.workers ≡ false
      → any_worker sleeps s.workers ≡ false
      → (s.pool.tasks ≡ []) × ((test : A → Bool) → count test s.accepted ≡ count test s.finished)
  ended_all_done created size s some_worker r no_awake no_sleep =
      let q = Reaches-IsQueue created size s r in
      let empty = nothing_left s.pool.tasks refl in
      (
        empty,
        λ test.
            ap (count test) (q.fifo ∙ ap (λ ts. s.taken ++ ts) empty ∙ append-nil s.taken)
            ∙ q.once test
            ∙ rw (no_task s.workers no_awake no_sleep) (omega arith),
      )
    where
      nothing_left : (ts : List A) → s.pool.tasks ≡ ts → ts ≡ []
      nothing_left [] e = refl
      nothing_left (t ∷ ts) e = absurd (
          ground (
            arith,
            no_awake,
            Live-awake_somewhere s (Reaches-IsLive created size s some_worker r)
                (rw e (omega arith)),
          ))

      no_task :
          (ws : List (Worker A))
          → any_worker awake ws ≡ false
          → any_worker sleeps ws ≡ false
          → running ws ≡ []
      no_task [] no_awake no_sleep = refl
      no_task (Worker.gone ∷ ws) no_awake no_sleep = no_task ws no_awake no_sleep
      no_task (Worker.spawned ∷ ws) no_awake no_sleep = absurd (ground (arith, no_awake))
      no_task (Worker.dormant ∷ ws) no_awake no_sleep = absurd (ground (arith, no_sleep))
      no_task (Worker.ready ∷ ws) no_awake no_sleep = absurd (ground (arith, no_awake))
      no_task (Worker.asleep ∷ ws) no_awake no_sleep = absurd (ground (arith, no_sleep))
      no_task (Worker.busy t ∷ ws) no_awake no_sleep = absurd (ground (arith, no_awake))
      no_task (Worker.failing t ∷ ws) no_awake no_sleep = absurd (ground (arith, no_awake))
