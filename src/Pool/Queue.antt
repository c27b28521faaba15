-- ===== src/Pool/Queue.antt =====
-- The queue of a.yanin/common/executor.thread-pool over all runs: what becomes of the tasks.
use posix_threads.Common.{
  ℕ, zero, suc, ◌+◌, ◌≡◌, refl, sym, ap, ◌∙◌, inl, inr, Bool, true, false, not, ◌&&◌, some, List,
  [], ◌∷◌, ◌++◌, arith, ◌==◌, Bool-cases, some_inj, none-ne-some, length, get_elem?, set,
}
use mathlib.Core.Path.{subst}
use mathlib.Core.List.{append_assoc}
use posix_threads.Pool.{
  launch, new, dequeue, Pool, Worker, Wake, is_running, is_starting, serve, enter, shutdown,
  set_on_error, after_task,
}
use posix_threads.Pool.System.{
  System, Action, Reaches, here, next, held, rouse, change, take_turn, end_task, end_failure,
  add_task, perform, start,
}
use posix_threads.Pool.Workers.{
  count, count-append, running, count-set, running-Risen, Delivered, rouse-Delivered,
  deliver-Delivered, at_worker-some, halted, grown, add_task-cases, end_failure-cases,
}

module _ {ℓ} {A : Type ℓ} where
  -- The queue is first in, first out, and each task that a worker has taken is being run or done.
  pub record IsQueue (s : System A) : Type ℓ where
    pub fifo : s.accepted ≡ s.taken ++ s.pool.tasks
    pub once :
        (test : A → Bool)
        → count test s.taken ≡ count test s.finished + count test (running s.workers)

  deliver-IsQueue : (s u : System A) → Delivered s u → IsQueue s → IsQueue u
  deliver-IsQueue s u d q = subst IsQueue (sym d.only) (record {
    fifo = q.fifo;
    once = λ test.
        q.once test
        ∙ ap (λ ts. count test s.finished + count test ts) (sym (running-Risen d.risen));
  })

  -- the change of a worker, with the log of what has become of its task
  change-once :
      (s : System A) (i : ℕ) (old w : Worker A) (taken finished : List A)
      → get_elem? s.workers i ≡ some old
      → IsQueue s
      → ((test : A → Bool)
          → count test taken + count test s.finished + count test (held old)
            ≡ count test s.taken + count test finished + count test (held w))
      → (test : A → Bool)
      → count test taken ≡ count test finished + count test (running (set s.workers i w))
  change-once s i old w taken finished at q moved test =
      omega (arith, q.once test, count-set test s.workers i old w at, moved test)

  -- What a critical section of a worker does to the queue.
  record Served (p : Pool A) (r : Pool A × Worker A) : Type ℓ where
    same_state : r.0.state ≡ p.state
    queue : p.tasks ≡ held r.1 ++ r.0.tasks

  serve-Served : (p : Pool A) → Served p (serve p)
  unfolding serve
  serve-Served p = elim (Bool-cases (is_running p.state && length p.tasks == 0)) [
    | inl sleepy ↦ rw sleepy (record { same_state = refl; queue = refl })
    | inr no_sleep ↦ elim (Bool-cases (not (is_running p.state) && length p.tasks == 0)) [
      | inl over ↦ rw (no_sleep, over) (record { same_state = refl; queue = refl })
      | inr more ↦ rw (no_sleep, more) (dequeued p.tasks refl)
    ]
  ]
    where
      dequeued : (ts : List A) → p.tasks ≡ ts → Served p (dequeue p ts)
      dequeued [] e = record { same_state = refl; queue = refl }
      dequeued (t ∷ ts) e = record { same_state = refl; queue = e }

  enter-Served : (p : Pool A) → Served p (enter p)
  unfolding enter
  enter-Served p = elim (Bool-cases (is_starting p.state)) [
    | inl waits ↦ rw waits (record { same_state = refl; queue = refl })
    | inr begun ↦ rw begun (serve-Served p)
  ]

  turn-IsQueue :
      (s : System A) (i : ℕ) (old : Worker A) (r : Pool A × Worker A)
      → get_elem? s.workers i ≡ some old
      → held old ≡ []
      → Served s.pool r
      → IsQueue s
      → IsQueue (change s i r)
  turn-IsQueue s i old r at idle v q = record {
    fifo =
        q.fifo ∙ ap (λ ts. s.taken ++ ts) v.queue ∙ sym (append_assoc s.taken (held r.1) r.0.tasks);
    once =
        change-once s i old r.1 (s.taken ++ held r.1) s.finished at q
          (λ test. rw (idle, count-append test s.taken (held r.1)) (omega arith));
  }

  perform-turn-IsQueue :
      (s u : System A) (i : ℕ) (w : Worker A)
      → get_elem? s.workers i ≡ some w
      → take_turn s i w ≡ some u
      → IsQueue s
      → IsQueue u
  unfolding take_turn
  perform-turn-IsQueue s u i Worker.spawned at h q =
      subst IsQueue (some_inj h)
        (turn-IsQueue s i Worker.spawned (enter s.pool) at refl (enter-Served s.pool) q)
  perform-turn-IsQueue s u i Worker.ready at h q =
      subst IsQueue (some_inj h)
        (turn-IsQueue s i Worker.ready (serve s.pool) at refl (serve-Served s.pool) q)
  perform-turn-IsQueue s u i Worker.dormant at h q = absurd (none-ne-some h)
  perform-turn-IsQueue s u i Worker.asleep at h q = absurd (none-ne-some h)
  perform-turn-IsQueue s u i Worker.gone at h q = absurd (none-ne-some h)
  perform-turn-IsQueue s u i (Worker.busy t) at h q = absurd (none-ne-some h)
  perform-turn-IsQueue s u i (Worker.failing t) at h q = absurd (none-ne-some h)

  end_task-IsQueue :
      (s u : System A) (i : ℕ) (err : Bool) (w : Worker A)
      → get_elem? s.workers i ≡ some w
      → end_task s i err w ≡ some u
      → IsQueue s
      → IsQueue u
  unfolding end_task
  end_task-IsQueue s u i err (Worker.busy t) at h q = subst IsQueue (some_inj h) (record {
    fifo = q.fifo;
    once =
        change-once s i (Worker.busy t) (after_task err t) s.taken (t ∷ s.finished) at q
          (λ test. moved err test);
  })
    where
      moved :
          (err : Bool) (test : A → Bool)
          → count test s.taken + count test s.finished + count test (t ∷ [])
            ≡ count test s.taken
              + count test (t ∷ s.finished)
              + count test (held (after_task err t))
      moved true test = ground arith
      moved false test = ground arith
  end_task-IsQueue s u i err Worker.spawned at h q = absurd (none-ne-some h)
  end_task-IsQueue s u i err Worker.ready at h q = absurd (none-ne-some h)
  end_task-IsQueue s u i err Worker.dormant at h q = absurd (none-ne-some h)
  end_task-IsQueue s u i err Worker.asleep at h q = absurd (none-ne-some h)
  end_task-IsQueue s u i err Worker.gone at h q = absurd (none-ne-some h)
  end_task-IsQueue s u i err (Worker.failing t) at h q = absurd (none-ne-some h)

  end_failure-IsQueue :
      (s u : System A) (i : ℕ) (recovered : Bool) (w : Worker A)
      → get_elem? s.workers i ≡ some w
      → end_failure s i recovered w ≡ some u
      → IsQueue s
      → IsQueue u
  unfolding end_failure
  end_failure-IsQueue s u i recovered (Worker.failing t) at h q =
      elim (end_failure-cases s u i recovered t h) [
        | inl aborts ↦ subst IsQueue (sym aborts) (record { fifo = q.fifo; once = q.once })
        | inr settled ↦ subst IsQueue (sym settled) (record {
          fifo = q.fifo;
          once =
              change-once s i (Worker.failing t) Worker.ready s.taken s.finished at q
                (λ test. refl);
        })
      ]
  end_failure-IsQueue s u i recovered Worker.spawned at h q = absurd (none-ne-some h)
  end_failure-IsQueue s u i recovered Worker.ready at h q = absurd (none-ne-some h)
  end_failure-IsQueue s u i recovered Worker.dormant at h q = absurd (none-ne-some h)
  end_failure-IsQueue s u i recovered Worker.asleep at h q = absurd (none-ne-some h)
  end_failure-IsQueue s u i recovered Worker.gone at h q = absurd (none-ne-some h)
  end_failure-IsQueue s u i recovered (Worker.busy t) at h q = absurd (none-ne-some h)

  add_task-IsQueue :
      (s u : System A) (grant : Bool) (t : A) (i : ℕ)
      → add_task s grant t i ≡ some u
      → IsQueue s
      → IsQueue u
  add_task-IsQueue s u grant t i h q = elim (add_task-cases s u grant t i h) [
    | inl same ↦ subst IsQueue (sym same) q
    | inr (accepts, delivery) ↦
        deliver-IsQueue (grown s t) u (deliver-Delivered _ i (grown s t) u delivery) (record {
          fifo = ap (λ ts. ts ++ t ∷ []) q.fifo ∙ append_assoc s.taken s.pool.tasks (t ∷ []);
          once = q.once;
        })
  ]

  perform-IsQueue : (a : Action A) (s u : System A) → perform a s ≡ some u → IsQueue s → IsQueue u
  unfolding perform shutdown set_on_error
  perform-IsQueue (Action.submits grant t i) s u h q = add_task-IsQueue s u grant t i h q
  perform-IsQueue Action.shuts s u h q =
      deliver-IsQueue (halted s) u (deliver-Delivered Wake.broadcast 0 (halted s) u h)
        (record { fifo = q.fifo; once = q.once })
  perform-IsQueue (Action.registers handler) s u h q =
      subst IsQueue (some_inj h) (record { fifo = q.fifo; once = q.once })
  perform-IsQueue (Action.turn i) s u h q =
      let (w, at, e) = at_worker-some s u i (take_turn s i) h in perform-turn-IsQueue s u i w at e q
  perform-IsQueue (Action.wake i) s u h q =
      let (w, at, e) = at_worker-some s u i (rouse s i) h in
      deliver-IsQueue s u (rouse-Delivered s u i w at e) q
  perform-IsQueue (Action.finish i err) s u h q =
      let (w, at, e) = at_worker-some s u i (end_task s i err) h in
      end_task-IsQueue s u i err w at e q
  perform-IsQueue (Action.settles i recovered) s u h q =
      let (w, at, e) = at_worker-some s u i (end_failure s i recovered) h in
      end_failure-IsQueue s u i recovered w at e q

  start-IsQueue : (created : ℕ → Bool) (size : ℕ) → IsQueue (start created size)
  unfolding start new launch
  start-IsQueue created size = record {
    fifo = refl;
    once = λ test. omega (arith, ap (count test) (idle 0 size));
  }
    where
      idle : (i left : ℕ) → running (launch {A = A} created i left).0 ≡ []
      idle i zero = refl
      idle i (suc left) = elim (Bool-cases (created i)) [
        | inl made ↦ rw made (idle (suc i) left)
        | inr failed ↦ rw failed refl
      ]

  -- In every run of a pool, whatever threads do and however they are scheduled, the tasks that workers
  -- have taken followed by those in the queue are the tasks that `submit` has added, in that order; and
  -- by any test the tasks taken are as many as those done and those that workers run.
  pub Reaches-IsQueue :
      (created : ℕ → Bool) (size : ℕ) (s : System A) → Reaches (start created size) s → IsQueue s
  Reaches-IsQueue created size s here = start-IsQueue created size
  Reaches-IsQueue created size s (next {t = t} a r going e) =
      perform-IsQueue a t s e (Reaches-IsQueue created size t r)
