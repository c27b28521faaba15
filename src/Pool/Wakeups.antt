-- ===== src/Pool/Wakeups.antt =====
-- The condition variable of a.yanin/common/executor.thread-pool: no wakeup is lost.
use posix_threads.Common.{
  ℕ, ◌<◌, ◌≡◌, refl, sym, ap, ◌∙◌, ◌⊎◌, inl, inr, Bool, true, false, not, ◌&&◌, ◌||◌, some, List,
  [], ◌∷◌, map, arith, ◌==◌, Bool-cases, length, get_elem?, set, length-set,
}
use posix_threads.Pool.{dequeue, Pool, Worker, is_running, is_starting, serve}
use posix_threads.Pool.System.{sleeps, woken, any_worker}
use posix_threads.Pool.Workers.{passing_set, failing_set, Risen, nil, keep, lift, length-Risen}

module _ {ℓ} {A : Type ℓ} where
  abbrev pub is_gone : Worker A → Bool
  is_gone Worker.gone = true
  is_gone _ = false

  -- The worker neither waits at the condition variable nor has ended.
  abbrev pub awake : Worker A → Bool
  awake w = not (sleeps w) && not (is_gone w)

  -- While the pool runs, no worker has ended, and one is awake if there are tasks; behind that nobody
  -- waits, and no worker has ended while there are tasks.
  pub record Live (p : Pool A) (ws : List (Worker A)) : Type ℓ where
    pub begun : is_starting p.state ≡ false
    pub staffed :
        is_running p.state ≡ true
        → (any_worker is_gone ws ≡ false)
          × (0 < length ws)
          × ((length p.tasks ≡ 0) ⊎ (any_worker awake ws ≡ true))
    pub draining :
        is_running p.state ≡ false
        → (any_worker sleeps ws ≡ false)
          × ((length p.tasks ≡ 0) ⊎ ((any_worker is_gone ws ≡ false) × (0 < length ws)))

  gone-woken : (w : Worker A) → is_gone (woken w) ≡ is_gone w
  gone-woken Worker.spawned = refl
  gone-woken Worker.dormant = refl
  gone-woken Worker.ready = refl
  gone-woken Worker.asleep = refl
  gone-woken Worker.gone = refl
  gone-woken (Worker.busy t) = refl
  gone-woken (Worker.failing t) = refl

  sleeps-woken : (w : Worker A) → sleeps (woken w) ≡ false
  sleeps-woken Worker.spawned = refl
  sleeps-woken Worker.dormant = refl
  sleeps-woken Worker.ready = refl
  sleeps-woken Worker.asleep = refl
  sleeps-woken Worker.gone = refl
  sleeps-woken (Worker.busy t) = refl
  sleeps-woken (Worker.failing t) = refl

  pub any_gone-Risen :
      {ws us : List (Worker A)} → Risen ws us → any_worker is_gone us ≡ any_worker is_gone ws
  any_gone-Risen nil = refl
  any_gone-Risen (keep w r) = ap (λ b. is_gone w || b) (any_gone-Risen r)
  any_gone-Risen (lift w r) = rw (gone-woken w) (ap (λ b. is_gone w || b) (any_gone-Risen r))

  pub any_sleeps-Risen :
      {ws us : List (Worker A)}
      → Risen ws us
      → any_worker sleeps ws ≡ false
      → any_worker sleeps us ≡ false
  any_sleeps-Risen nil h = refl
  any_sleeps-Risen (keep w r) h = ground (arith, h, any_sleeps-Risen r (ground (arith, h)))
  any_sleeps-Risen (lift w r) h = rw (sleeps-woken w) (any_sleeps-Risen r (ground (arith, h)))

  pub any_awake-Risen :
      {ws us : List (Worker A)}
      → Risen ws us
      → any_worker awake ws ≡ true
      → any_worker awake us ≡ true
  any_awake-Risen nil h = h
  any_awake-Risen (keep w r) h = elim (Bool-cases (awake w)) [
    | inl up ↦ rw up refl
    | inr down ↦ ground (arith, down, any_awake-Risen r (ground (arith, h, down)))
  ]
  any_awake-Risen (lift w r) h = elim (Bool-cases (awake w)) [
    | inl up ↦ rw (sleeps-woken w, gone-woken w) (ground (arith, up))
    | inr down ↦ ground (arith, any_awake-Risen r (ground (arith, h, down)))
  ]

  pub all_woken : (ws : List (Worker A)) → any_worker sleeps (map woken ws) ≡ false
  all_woken [] = refl
  all_woken (w ∷ ws) = rw (sleeps-woken w) (all_woken ws)

  -- If nobody waits and nobody has ended, somebody is awake.
  pub someone_awake :
      (ws : List (Worker A))
      → 0 < length ws
      → any_worker sleeps ws ≡ false
      → any_worker is_gone ws ≡ false
      → any_worker awake ws ≡ true
  someone_awake [] some_worker no_sleep no_gone = absurd (omega arith)
  someone_awake (w ∷ ws) some_worker no_sleep no_gone = ground (arith, no_sleep, no_gone)

  pub Live-Risen : (p : Pool A) (ws us : List (Worker A)) → Risen ws us → Live p ws → Live p us
  Live-Risen p ws us r l = record {
    begun = l.begun;
    staffed = λ run.
        let (no_gone, some_worker, cause) = l.staffed run in
        (
          any_gone-Risen r ∙ no_gone,
          rw (length-Risen r) some_worker,
          elim cause [ inl idle ↦ inl idle | inr up ↦ inr (any_awake-Risen r up) ],
        );
    draining = λ off.
        let (no_sleep, cause) = l.draining off in
        (
          any_sleeps-Risen r no_sleep,
          elim cause [
            | inl idle ↦ inl idle
            | inr (no_gone, some_worker) ↦
                inr (any_gone-Risen r ∙ no_gone, rw (length-Risen r) some_worker)
          ],
        );
  }

  -- A worker that is awake behind its action keeps the pool live.
  pub Live-awake :
      (p q : Pool A) (ws : List (Worker A)) (i : ℕ) (old w : Worker A)
      → get_elem? ws i ≡ some old
      → sleeps w ≡ false
      → is_gone w ≡ false
      → q.state ≡ p.state
      → (length p.tasks ≡ 0 → length q.tasks ≡ 0)
      → Live p ws
      → Live q (set ws i w)
  Live-awake p q ws i old w at no_nap no_end same fewer l = record {
    begun = ap is_starting same ∙ l.begun;
    staffed = λ run.
        let (no_gone, some_worker, cause) = l.staffed (ap is_running (sym same) ∙ run) in
        (
          failing_set is_gone ws i w no_end no_gone,
          rw (length-set ws i w) some_worker,
          inr (passing_set awake ws i old w at (ground (arith, no_nap, no_end))),
        );
    draining = λ off.
        let (no_sleep, cause) = l.draining (ap is_running (sym same) ∙ off) in
        (
          failing_set sleeps ws i w no_nap no_sleep,
          elim cause [
            | inl idle ↦ inl (fewer idle)
            | inr (no_gone, some_worker) ↦
                inr (failing_set is_gone ws i w no_end no_gone, rw (length-set ws i w) some_worker)
          ],
        );
  }

  -- a round of a worker's loop
  pub serve-Live :
      (p : Pool A) (ws : List (Worker A)) (i : ℕ) (old : Worker A)
      → get_elem? ws i ≡ some old
      → Live p ws
      → Live (serve p).0 (set ws i (serve p).1)
  unfolding serve
  serve-Live p ws i old at l = elim (Bool-cases (is_running p.state)) [
    | inl run ↦ elim (Bool-cases (length p.tasks == 0)) [
      | inl idle ↦ rw (run, idle) (naps run idle)
      | inr work ↦ rw (run, work) (works p.tasks refl work)
    ]
    | inr off ↦ elim (Bool-cases (length p.tasks == 0)) [
      | inl idle ↦ rw (off, idle) (ends off idle)
      | inr work ↦ rw (off, work) (works p.tasks refl work)
    ]
  ]
    where
      none_left : (length p.tasks == 0) ≡ true → length p.tasks ≡ 0
      none_left idle = ground (arith, idle)

      naps :
          is_running p.state ≡ true → (length p.tasks == 0) ≡ true → Live p (set ws i Worker.asleep)
      naps run idle =
          let (no_gone, some_worker, cause) = l.staffed run in
          record {
            begun = l.begun;
            staffed = λ _. (
              failing_set is_gone ws i Worker.asleep refl no_gone,
              rw (length-set ws i Worker.asleep) some_worker,
              inl (none_left idle),
            );
            draining = λ off. absurd (ground (arith, run, off));
          }

      ends :
          is_running p.state ≡ false → (length p.tasks == 0) ≡ true → Live p (set ws i Worker.gone)
      ends off idle =
          let (no_sleep, cause) = l.draining off in
          record {
            begun = l.begun;
            staffed = λ run. absurd (ground (arith, run, off));
            draining =
                λ _. (failing_set sleeps ws i Worker.gone refl no_sleep, inl (none_left idle));
          }

      works :
          (ts : List A)
          → p.tasks ≡ ts
          → (length p.tasks == 0) ≡ false
          → Live (dequeue p ts).0 (set ws i (dequeue p ts).1)
      works [] e work = absurd (ground (arith, work, ap length e))
      works (t ∷ ts) e work =
          Live-awake p (record p { tasks = ts }) ws i old (Worker.busy t) at refl refl refl
            (λ idle. absurd (ground (arith, work, idle))) l
