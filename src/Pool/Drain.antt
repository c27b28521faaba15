-- ===== src/Pool/Drain.antt =====
-- a.yanin/common/executor.thread-pool behind `shutdown`: the workers come to their end.
use posix_threads.Common.{
  ℕ, zero, suc, ◌+◌, ◌*◌, ◌≤◌, ◌<◌, ◌≡◌, refl, sym, ap, ◌⊎◌, inl, inr, Bool, true, false, some,
  List, [], ◌∷◌, arith, ◌==◌, if◌then◌else◌, Bool-cases, some_inj, none-ne-some, length, get_elem?,
  set,
}
use mathlib.Core.Path.{subst}
use posix_threads.Pool.{dequeue, Worker, is_running, serve, enter}
use posix_threads.Pool.System.{
  System, Action, Reaches, next, any_worker, change, take_turn, end_task, end_failure, perform,
  start,
}
use posix_threads.Pool.Workers.{any-get, count, at_worker-some, end_failure-cases}
use posix_threads.Pool.Wakeups.{awake}
use posix_threads.Pool.Progress.{IsLive}
use posix_threads.Pool.Liveness.{is_work, can_work, Reaches-IsLive, ended_all_done}

module _ {ℓ} {A : Type ℓ} where
  -- how many actions are before a worker, at most, not counting further tasks
  abbrev pub weight : Worker A → ℕ
  weight Worker.spawned = 1
  weight Worker.ready = 1
  weight (Worker.busy t) = 3
  weight (Worker.failing t) = 2
  weight _ = 0

  abbrev pub weights : List (Worker A) → ℕ
  weights [] = 0
  weights (w ∷ ws) = weight w + weights ws

  abbrev pub measure : System A → ℕ
  measure s = if s.aborted then 0 else 3 * length s.pool.tasks + weights s.workers

  weights-set :
      (ws : List (Worker A)) (i : ℕ) (old w : Worker A)
      → get_elem? ws i ≡ some old
      → weights (set ws i w) + weight old ≡ weights ws + weight w
  weights-set [] i old w at = absurd (none-ne-some at)
  weights-set (x ∷ ws) zero old w at = omega (arith, ap weight (some_inj at))
  weights-set (x ∷ ws) (suc i) old w at = omega (arith, weights-set ws i old w at)

  weights_le : (ws : List (Worker A)) → weights ws ≤ 3 * length ws
  weights_le [] = omega arith
  weights_le (w ∷ ws) = omega (arith, weights_le ws, small w)
    where
      small : (w : Worker A) → weight w ≤ 3
      small Worker.spawned = omega arith
      small Worker.dormant = omega arith
      small Worker.ready = omega arith
      small Worker.asleep = omega arith
      small Worker.gone = omega arith
      small (Worker.busy t) = omega arith
      small (Worker.failing t) = omega arith

  -- What a step of work does to a pool that does not run.
  record Lowered (s u : System A) : Type ℓ where
    off : is_running u.pool.state ≡ false
    lower : measure u < measure s

  serve-Lowered :
      (s u : System A) (i : ℕ) (old : Worker A)
      → get_elem? s.workers i ≡ some old
      → weight old ≡ 1
      → is_running s.pool.state ≡ false
      → s.aborted ≡ false
      → change s i (serve s.pool) ≡ u
      → Lowered s u
  unfolding serve
  serve-Lowered s u i old at one off going e = elim (Bool-cases (length s.pool.tasks == 0)) [
    | inl idle ↦ subst (Lowered s) (rw (serve, off, idle) at e) (record {
      off = off;
      lower = rw going (omega (arith, one, weights-set s.workers i old Worker.gone at));
    })
    | inr work ↦ subst (Lowered s) (rw (serve, off, work) at e) (dequeued s.pool.tasks refl work)
  ]
    where
      dequeued :
          (ts : List A)
          → s.pool.tasks ≡ ts
          → (length s.pool.tasks == 0) ≡ false
          → Lowered s (change s i (dequeue s.pool ts))
      dequeued [] e work = absurd (ground (arith, work, ap length e))
      dequeued (t ∷ ts) e work = record {
        off = off;
        lower =
            rw going
              (omega (arith, one, ap length e, weights-set s.workers i old (Worker.busy t) at));
      }

  take_turn-Lowered :
      (s u : System A) (i : ℕ) (w : Worker A)
      → get_elem? s.workers i ≡ some w
      → take_turn s i w ≡ some u
      → IsLive s
      → is_running s.pool.state ≡ false
      → s.aborted ≡ false
      → Lowered s u
  unfolding take_turn enter
  take_turn-Lowered s u i Worker.spawned at e l off going =
      serve-Lowered s u i Worker.spawned at refl off going
        (some_inj (rw (take_turn, enter, l.begun) at e))
  take_turn-Lowered s u i Worker.ready at e l off going =
      serve-Lowered s u i Worker.ready at refl off going (some_inj e)
  take_turn-Lowered s u i Worker.dormant at e l off going = absurd (none-ne-some e)
  take_turn-Lowered s u i Worker.asleep at e l off going = absurd (none-ne-some e)
  take_turn-Lowered s u i Worker.gone at e l off going = absurd (none-ne-some e)
  take_turn-Lowered s u i (Worker.busy t) at e l off going = absurd (none-ne-some e)
  take_turn-Lowered s u i (Worker.failing t) at e l off going = absurd (none-ne-some e)

  end_task-Lowered :
      (s u : System A) (i : ℕ) (err : Bool) (w : Worker A)
      → get_elem? s.workers i ≡ some w
      → end_task s i err w ≡ some u
      → is_running s.pool.state ≡ false
      → s.aborted ≡ false
      → Lowered s u
  unfolding end_task
  end_task-Lowered s u i true (Worker.busy t) at e off going =
      subst (Lowered s) (some_inj e) (record {
        off = off;
        lower =
            rw going (omega (arith, weights-set s.workers i (Worker.busy t) (Worker.failing t) at));
      })
  end_task-Lowered s u i false (Worker.busy t) at e off going =
      subst (Lowered s) (some_inj e) (record {
        off = off;
        lower = rw going (omega (arith, weights-set s.workers i (Worker.busy t) Worker.ready at));
      })
  end_task-Lowered s u i err Worker.spawned at e off going = absurd (none-ne-some e)
  end_task-Lowered s u i err Worker.dormant at e off going = absurd (none-ne-some e)
  end_task-Lowered s u i err Worker.ready at e off going = absurd (none-ne-some e)
  end_task-Lowered s u i err Worker.asleep at e off going = absurd (none-ne-some e)
  end_task-Lowered s u i err Worker.gone at e off going = absurd (none-ne-some e)
  end_task-Lowered s u i err (Worker.failing t) at e off going = absurd (none-ne-some e)

  end_failure-Lowered :
      (s u : System A) (i : ℕ) (recovered : Bool) (w : Worker A)
      → get_elem? s.workers i ≡ some w
      → end_failure s i recovered w ≡ some u
      → is_running s.pool.state ≡ false
      → s.aborted ≡ false
      → Lowered s u
  unfolding end_failure
  end_failure-Lowered s u i recovered (Worker.failing t) at e off going =
      let change = weights-set s.workers i (Worker.failing t) Worker.ready at in
      elim (end_failure-cases s u i recovered t e) [
        | inl aborts ↦
            subst (Lowered s) (sym aborts)
              (record { off = off; lower = rw going (omega (arith, change)) })
        | inr settled ↦
            subst (Lowered s) (sym settled)
              (record { off = off; lower = rw going (omega (arith, change)) })
      ]
  end_failure-Lowered s u i recovered Worker.spawned at e off going = absurd (none-ne-some e)
  end_failure-Lowered s u i recovered Worker.dormant at e off going = absurd (none-ne-some e)
  end_failure-Lowered s u i recovered Worker.ready at e off going = absurd (none-ne-some e)
  end_failure-Lowered s u i recovered Worker.asleep at e off going = absurd (none-ne-some e)
  end_failure-Lowered s u i recovered Worker.gone at e off going = absurd (none-ne-some e)
  end_failure-Lowered s u i recovered (Worker.busy t) at e off going = absurd (none-ne-some e)

  work-Lowered :
      (a : Action A) (s u : System A)
      → is_work a ≡ true
      → perform a s ≡ some u
      → IsLive s
      → is_running s.pool.state ≡ false
      → s.aborted ≡ false
      → Lowered s u
  unfolding perform
  work-Lowered (Action.turn i) s u work h l off going =
      let (w, at, e) = at_worker-some s u i (take_turn s i) h in
      take_turn-Lowered s u i w at e l off going
  work-Lowered (Action.finish i err) s u work h l off going =
      let (w, at, e) = at_worker-some s u i (end_task s i err) h in
      end_task-Lowered s u i err w at e off going
  work-Lowered (Action.settles i recovered) s u work h l off going =
      let (w, at, e) = at_worker-some s u i (end_failure s i recovered) h in
      end_failure-Lowered s u i recovered w at e off going
  work-Lowered (Action.submits grant t i) s u work h l off going = absurd (ground (arith, work))
  work-Lowered Action.shuts s u work h l off going = absurd (ground (arith, work))
  work-Lowered (Action.registers handler) s u work h l off going = absurd (ground (arith, work))
  work-Lowered (Action.wake i) s u work h l off going = absurd (ground (arith, work))

  -- `n` steps of work in a row
  pub data Works (s : System A) : ℕ → System A → Type ℓ where
    nothing : Works s zero s
    more :
        {n : ℕ} {t u : System A} (a : Action A)
        → Works s n t
        → t.aborted ≡ false
        → is_work a ≡ true
        → perform a t ≡ some u
        → Works s (suc n) u

  module _ (created : ℕ → Bool) (size : ℕ) (s : System A) (some_worker : 0 < size)
      (r : Reaches (start created size) s) (off : is_running s.pool.state ≡ false) where
    Works-Reaches : (n : ℕ) (u : System A) → Works s n u → Reaches (start created size) u
    Works-Reaches zero u nothing = r
    Works-Reaches (suc n) u (more {t = t} a w going work h) = next a (Works-Reaches n t w) going h

    Works-measure :
        (n : ℕ) (u : System A)
        → Works s n u
        → (is_running u.pool.state ≡ false) × (n + measure u ≤ measure s)
    Works-measure zero u nothing = (off, omega arith)
    Works-measure (suc n) u (more {t = t} a w going work h) =
        let (still, bound) = Works-measure n t w in
        let l = Reaches-IsLive created size t some_worker (Works-Reaches n t w) in
        let lowered = work-Lowered a t u work h l still going in
        (lowered.off, omega (arith, lowered.lower, bound))

    one_more :
        (n : ℕ) (u : System A)
        → Works s n u
        → u.aborted ≡ false
        → any_worker awake u.workers ≡ true
        → (v : System A) × Works s (suc n) v × (measure v < measure u)
    one_more n u w going up =
        let (i, x, at, wakeful) = any-get awake u.workers up in
        let (a, v, work, h) = can_work u i x at wakeful in
        let l = Reaches-IsLive created size u some_worker (Works-Reaches n u w) in
        (
          v,
          more a w going work h,
          (work-Lowered a u v work h l (Works-measure n u w).0 going).lower,
        )

    abbrev Ending : Type ℓ
    Ending =
        (m : ℕ) × (v : System A) × Works s m v
        × ((v.aborted ≡ true) ⊎ (any_worker awake v.workers ≡ false))

    -- the rest of a run, until no worker can act
    finishing : (fuel n : ℕ) (u : System A) → Works s n u → measure u < fuel → Ending
    finishing zero n u w enough = absurd (omega arith)
    finishing (suc fuel) n u w enough = elim (Bool-cases u.aborted) [
      | inl over ↦ (n, u, w, inl over)
      | inr going ↦ elim (Bool-cases (any_worker awake u.workers)) [
        | inr ended ↦ (n, u, w, inr ended)
        | inl up ↦
            let (v, w', lower) = one_more n u w going up in
            finishing fuel (suc n) v w' (omega (arith, lower, enough))
      ]
    ]

    -- Of a pool of at least one worker that has been shut down: every run of its workers has at most
    -- three steps for each task in the queue and each worker; there is a run that ends the process by an
    -- error without a handler, or in which all workers end; and in each in which they do the queue is
    -- empty and every task that `submit` has added has been run.
    pub shutdown_drains :
        ((n : ℕ) (u : System A) → Works s n u → n ≤ 3 * (length s.pool.tasks + length s.workers))
        × ((m : ℕ) × (v : System A) × Works s m v
            × ((v.aborted ≡ true) ⊎ (any_worker awake v.workers ≡ false)))
        × ((n : ℕ) (u : System A)
            → Works s n u
            → any_worker awake u.workers ≡ false
            → (u.pool.tasks ≡ [])
              × ((test : A → Bool) → count test u.accepted ≡ count test u.finished))
    shutdown_drains = (
      (λ n u w. omega (arith, (Works-measure n u w).1, weights_le s.workers, at_most)),
      finishing (suc (measure s)) zero s nothing (omega arith),
      λ n u w ended.
          let l = Reaches-IsLive created size u some_worker (Works-Reaches n u w) in
          ended_all_done created size u some_worker (Works-Reaches n u w) ended
            (l.draining (Works-measure n u w).0).0,
    )
      where
        at_most : measure s ≤ 3 * length s.pool.tasks + weights s.workers
        at_most = elim (Bool-cases s.aborted) [
          | inl over ↦ rw over (omega arith)
          | inr going ↦ rw going (omega arith)
        ]
