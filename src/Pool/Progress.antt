-- ===== src/Pool/Progress.antt =====
-- What each action of a thread does to the liveness of a.yanin/common/executor.thread-pool.
use posix_threads.Common.{
  ℕ, ◌<◌, ◌≡◌, refl, sym, inl, inr, Bool, true, false, some, List, arith, Bool-cases, some_inj,
  none-ne-some, length, get_elem?, set, length-set,
}
use mathlib.Core.Path.{subst}
use posix_threads.Pool.{Worker, Wake, is_running, enter}
use posix_threads.Pool.System.{
  System, sleeps, woken, any_worker, rouse, deliver, take_turn, end_task, end_failure,
}
use posix_threads.Pool.Workers.{
  failing_set, passing_set, Delivered, at_worker-some, grown, end_failure-cases,
}
use posix_threads.Pool.Wakeups.{
  is_gone, awake, Live, someone_awake, Live-Risen, Live-awake, serve-Live,
}

module _ {ℓ} {A : Type ℓ} where
  abbrev pub IsLive : System A → Type ℓ
  IsLive s = Live s.pool s.workers

  pub Delivered-IsLive : (s u : System A) → Delivered s u → IsLive s → IsLive u
  Delivered-IsLive s u d l =
      subst IsLive (sym d.only) (Live-Risen s.pool s.workers d.workers d.risen l)

  pub take_turn-IsLive :
      (s u : System A) (i : ℕ) (w : Worker A)
      → get_elem? s.workers i ≡ some w
      → take_turn s i w ≡ some u
      → IsLive s
      → IsLive u
  unfolding take_turn enter
  take_turn-IsLive s u i Worker.spawned at h l =
      subst IsLive (some_inj (rw (take_turn, enter, l.begun) at h))
        (serve-Live s.pool s.workers i Worker.spawned at l)
  take_turn-IsLive s u i Worker.ready at h l =
      subst IsLive (some_inj h) (serve-Live s.pool s.workers i Worker.ready at l)
  take_turn-IsLive s u i Worker.dormant at h l = absurd (none-ne-some h)
  take_turn-IsLive s u i Worker.asleep at h l = absurd (none-ne-some h)
  take_turn-IsLive s u i Worker.gone at h l = absurd (none-ne-some h)
  take_turn-IsLive s u i (Worker.busy t) at h l = absurd (none-ne-some h)
  take_turn-IsLive s u i (Worker.failing t) at h l = absurd (none-ne-some h)

  -- the worker stays awake
  stays :
      (s : System A) (i : ℕ) (old w : Worker A)
      → get_elem? s.workers i ≡ some old
      → sleeps w ≡ false
      → is_gone w ≡ false
      → IsLive s
      → Live s.pool (set s.workers i w)
  stays s i old w at no_nap no_end l =
      Live-awake s.pool s.pool s.workers i old w at no_nap no_end refl (λ idle. idle) l

  pub end_task-IsLive :
      (s u : System A) (i : ℕ) (err : Bool) (w : Worker A)
      → get_elem? s.workers i ≡ some w
      → end_task s i err w ≡ some u
      → IsLive s
      → IsLive u
  unfolding end_task
  end_task-IsLive s u i true (Worker.busy t) at h l =
      subst IsLive (some_inj h) (stays s i (Worker.busy t) (Worker.failing t) at refl refl l)
  end_task-IsLive s u i false (Worker.busy t) at h l =
      subst IsLive (some_inj h) (stays s i (Worker.busy t) Worker.ready at refl refl l)
  end_task-IsLive s u i err Worker.spawned at h l = absurd (none-ne-some h)
  end_task-IsLive s u i err Worker.ready at h l = absurd (none-ne-some h)
  end_task-IsLive s u i err Worker.dormant at h l = absurd (none-ne-some h)
  end_task-IsLive s u i err Worker.asleep at h l = absurd (none-ne-some h)
  end_task-IsLive s u i err Worker.gone at h l = absurd (none-ne-some h)
  end_task-IsLive s u i err (Worker.failing t) at h l = absurd (none-ne-some h)

  pub end_failure-IsLive :
      (s u : System A) (i : ℕ) (recovered : Bool) (w : Worker A)
      → get_elem? s.workers i ≡ some w
      → end_failure s i recovered w ≡ some u
      → IsLive s
      → IsLive u
  unfolding end_failure
  end_failure-IsLive s u i recovered (Worker.failing t) at h l =
      elim (end_failure-cases s u i recovered t h) [
        | inl aborts ↦ subst IsLive (sym aborts) l
        | inr settled ↦
            subst IsLive (sym settled) (stays s i (Worker.failing t) Worker.ready at refl refl l)
      ]
  end_failure-IsLive s u i recovered Worker.spawned at h l = absurd (none-ne-some h)
  end_failure-IsLive s u i recovered Worker.ready at h l = absurd (none-ne-some h)
  end_failure-IsLive s u i recovered Worker.dormant at h l = absurd (none-ne-some h)
  end_failure-IsLive s u i recovered Worker.asleep at h l = absurd (none-ne-some h)
  end_failure-IsLive s u i recovered Worker.gone at h l = absurd (none-ne-some h)
  end_failure-IsLive s u i recovered (Worker.busy t) at h l = absurd (none-ne-some h)

  -- The pool runs on with one more task, and somebody is awake.
  pub grown-IsLive :
      (s u : System A) (t : A) (ws : List (Worker A))
      → u ≡ record (grown s t) { workers = ws }
      → is_running s.pool.state ≡ true
      → any_worker is_gone ws ≡ false
      → 0 < length ws
      → any_worker awake ws ≡ true
      → IsLive s
      → IsLive u
  grown-IsLive s u t ws only run no_gone some_worker up l = subst IsLive (sym only) (record {
    begun = l.begun;
    staffed = λ _. (no_gone, some_worker, inr up);
    draining = λ off. absurd (ground (arith, run, off));
  })

  -- a new task at the head of the queue comes with a signal
  pub signal-IsLive :
      (s u : System A) (t : A) (i : ℕ)
      → deliver Wake.signal i (grown s t) ≡ some u
      → any_worker is_gone s.workers ≡ false
      → 0 < length s.workers
      → is_running s.pool.state ≡ true
      → IsLive s
      → IsLive u
  unfolding deliver
  signal-IsLive s u t i h no_gone some_worker run l =
      elim (Bool-cases (any_worker sleeps s.workers)) [
        | inl some_sleeps ↦
            let (w, at, r) =
              at_worker-some (grown s t) u i (rouse (grown s t) i)
                (rw (deliver, some_sleeps) at h) in
            elim (Bool-cases (sleeps w)) [
              | inl naps ↦
                  grown-IsLive s u t (set s.workers i (woken w)) (sym (some_inj (rw naps at r))) run
                    (none_gone w at naps) (rw (length-set s.workers i (woken w)) some_worker)
                    (passing_set awake s.workers i w (woken w) at (risen w naps)) l
              | inr up ↦ absurd (none-ne-some (rw up at r))
            ]
        | inr none_sleeps ↦
            grown-IsLive s u t s.workers (sym (some_inj (rw (deliver, none_sleeps) at h))) run
              no_gone some_worker (someone_awake s.workers some_worker none_sleeps no_gone) l
      ]
    where
      risen : (w : Worker A) → sleeps w ≡ true → awake (woken w) ≡ true
      risen Worker.dormant naps = refl
      risen Worker.asleep naps = refl
      risen Worker.spawned naps = absurd (ground (arith, naps))
      risen Worker.ready naps = absurd (ground (arith, naps))
      risen Worker.gone naps = absurd (ground (arith, naps))
      risen (Worker.busy x) naps = absurd (ground (arith, naps))
      risen (Worker.failing x) naps = absurd (ground (arith, naps))

      none_gone :
          (w : Worker A)
          → get_elem? s.workers i ≡ some w
          → sleeps w ≡ true
          → any_worker is_gone (set s.workers i (woken w)) ≡ false
      none_gone w at naps =
          failing_set is_gone s.workers i (woken w) (ground (arith, risen w naps)) no_gone
