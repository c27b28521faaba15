-- ===== src/Pool/Workers.antt =====
-- The list of the workers of a.yanin/common/executor.thread-pool, when one of them changes or wakes.
use posix_threads.Common.{
  ℕ, zero, suc, ◌+◌, ◌≡◌, refl, sym, ap, ◌∙◌, ◌⊎◌, inl, inr, Bool, true, false, ◌&&◌, ◌||◌, Option,
  some, List, [], ◌∷◌, ◌++◌, map, arith, ◌==◌, if◌then◌else◌, Bool-cases, Option-cases, some_inj,
  none-ne-some, length, get_elem?, set,
}
use mathlib.Core.Path.{subst}
use mathlib.Core.List.{append-nil}
use posix_threads.Pool.{submit, settle, is_running, Worker, PoolState, Wake}
use posix_threads.Pool.System.{
  System, sleeps, woken, any_worker, held, rouse, deliver, at_worker, add_task, end_failure,
}

module _ {ℓ} {A : Type ℓ} where
  abbrev pub count : (A → Bool) → List A → ℕ
  count test [] = 0
  count test (x ∷ xs) = let rest = count test xs in if test x then suc rest else rest

  pub count-append :
      (test : A → Bool) (xs ys : List A) → count test (xs ++ ys) ≡ count test xs + count test ys
  count-append test [] ys = omega arith
  count-append test (x ∷ xs) ys = ground (arith, count-append test xs ys)

  -- all tasks that the workers run
  abbrev pub running : List (Worker A) → List A
  running [] = []
  running (w ∷ ws) = held w ++ running ws

  pub count-set :
      (test : A → Bool) (ws : List (Worker A)) (i : ℕ) (old w : Worker A)
      → get_elem? ws i ≡ some old
      → count test (running (set ws i w)) + count test (held old)
        ≡ count test (running ws) + count test (held w)
  count-set test [] i old w at = absurd (none-ne-some at)
  count-set test (x ∷ ws) zero old w at =
      rw
        (
          count-append test (held w) (running ws),
          count-append test (held x) (running ws),
          some_inj at,
        )
        (omega arith)
  count-set test (x ∷ ws) (suc i) old w at =
      rw
        (count-append test (held x) (running (set ws i w)), count-append test (held x) (running ws))
        (omega (arith, count-set test ws i old w at))

  pub passing_set :
      (test : Worker A → Bool) (ws : List (Worker A)) (i : ℕ) (old w : Worker A)
      → get_elem? ws i ≡ some old
      → test w ≡ true
      → any_worker test (set ws i w) ≡ true
  passing_set test [] i old w at h = absurd (none-ne-some at)
  passing_set test (x ∷ ws) zero old w at h = rw h refl
  passing_set test (x ∷ ws) (suc i) old w at h = ground (arith, passing_set test ws i old w at h)

  pub failing_set :
      (test : Worker A → Bool) (ws : List (Worker A)) (i : ℕ) (w : Worker A)
      → test w ≡ false
      → any_worker test ws ≡ false
      → any_worker test (set ws i w) ≡ false
  failing_set test [] i w h none_of = refl
  failing_set test (x ∷ ws) zero w h none_of = ground (arith, h, none_of)
  failing_set test (x ∷ ws) (suc i) w h none_of =
      ground (arith, failing_set test ws i w h (ground (arith, none_of)))

  pub same_set :
      (test : Worker A → Bool) (ws : List (Worker A)) (i : ℕ) (old w : Worker A)
      → get_elem? ws i ≡ some old
      → test w ≡ test old
      → any_worker test (set ws i w) ≡ any_worker test ws
  same_set test [] i old w at h = refl
  same_set test (x ∷ ws) zero old w at h =
      ap (λ b. b || any_worker test ws) (h ∙ sym (ap test (some_inj at)))
  same_set test (x ∷ ws) (suc i) old w at h = ap (λ b. test x || b) (same_set test ws i old w at h)

  -- a worker that passes a test
  pub any-get :
      (test : Worker A → Bool) (ws : List (Worker A))
      → any_worker test ws ≡ true
      → (i : ℕ) × (w : Worker A) × (get_elem? ws i ≡ some w) × (test w ≡ true)
  any-get test [] h = absurd (ground (arith, h))
  any-get test (x ∷ ws) h = elim (Bool-cases (test x)) [
    | inl here ↦ (0, x, refl, here)
    | inr other ↦
        let (i, w, at, passes) = any-get test ws (ground (arith, h, other)) in
        (suc i, w, at, passes)
  ]

  pub get-any :
      (test : Worker A → Bool) (ws : List (Worker A)) (i : ℕ) (w : Worker A)
      → get_elem? ws i ≡ some w
      → test w ≡ true
      → any_worker test ws ≡ true
  get-any test [] i w at h = absurd (none-ne-some at)
  get-any test (x ∷ ws) zero w at h = ap (λ b. b || any_worker test ws) (ap test (some_inj at) ∙ h)
  get-any test (x ∷ ws) (suc i) w at h = ground (arith, get-any test ws i w at h)

  -- Some workers of the first list have been woken in the second.
  pub data Risen : List (Worker A) → List (Worker A) → Type ℓ where
    nil : Risen [] []
    keep : {ws us : List (Worker A)} (w : Worker A) → Risen ws us → Risen (w ∷ ws) (w ∷ us)
    lift : {ws us : List (Worker A)} (w : Worker A) → Risen ws us → Risen (w ∷ ws) (woken w ∷ us)

  pub keep_all : (ws : List (Worker A)) → Risen ws ws
  keep_all [] = nil
  keep_all (w ∷ ws) = keep w (keep_all ws)

  pub lift_all : (ws : List (Worker A)) → Risen ws (map woken ws)
  lift_all [] = nil
  lift_all (w ∷ ws) = lift w (lift_all ws)

  pub lift_one :
      (ws : List (Worker A)) (i : ℕ) (w : Worker A)
      → get_elem? ws i ≡ some w
      → Risen ws (set ws i (woken w))
  lift_one [] i w at = nil
  lift_one (x ∷ ws) zero w at =
      subst (λ y. Risen (x ∷ ws) (woken y ∷ ws)) (some_inj at) (lift x (keep_all ws))
  lift_one (x ∷ ws) (suc i) w at = keep x (lift_one ws i w at)

  held-woken : (w : Worker A) → held (woken w) ≡ held w
  held-woken Worker.spawned = refl
  held-woken Worker.dormant = refl
  held-woken Worker.ready = refl
  held-woken Worker.asleep = refl
  held-woken Worker.gone = refl
  held-woken (Worker.busy t) = refl
  held-woken (Worker.failing t) = refl

  pub running-Risen : {ws us : List (Worker A)} → Risen ws us → running us ≡ running ws
  running-Risen nil = refl
  running-Risen (keep w r) = ap (λ ts. held w ++ ts) (running-Risen r)
  running-Risen (lift {us = us} w r) =
      ap (λ h. h ++ running us) (held-woken w) ∙ ap (λ ts. held w ++ ts) (running-Risen r)

  pub length-Risen : {ws us : List (Worker A)} → Risen ws us → length us ≡ length ws
  length-Risen nil = refl
  length-Risen (keep w r) = ap suc (length-Risen r)
  length-Risen (lift w r) = ap suc (length-Risen r)

  -- what an action on a worker found
  pub at_worker-some :
      (s u : System A) (i : ℕ) (act : Worker A → Option (System A))
      → at_worker s i act ≡ some u
      → (w : Worker A) × (get_elem? s.workers i ≡ some w) × (act w ≡ some u)
  at_worker-some s u i act h = elim (Option-cases (get_elem? s.workers i)) [
    | inl missing ↦ absurd (none-ne-some (rw (at_worker, missing) at h))
    | inr (w, at) ↦ (w, at, rw (at_worker, at) at h)
  ]

  -- a waking changes workers only
  pub record Delivered (s u : System A) : Type ℓ where
    pub workers : List (Worker A)
    pub only : u ≡ record s { workers = workers }
    pub risen : Risen s.workers workers

  pub rouse-Delivered :
      (s u : System A) (i : ℕ) (w : Worker A)
      → get_elem? s.workers i ≡ some w
      → rouse s i w ≡ some u
      → Delivered s u
  rouse-Delivered s u i w at h = elim (Bool-cases (sleeps w)) [
    | inl yes_sleeps ↦ record {
      workers = set s.workers i (woken w);
      only = sym (some_inj (rw yes_sleeps at h));
      risen = lift_one s.workers i w at;
    }
    | inr awake ↦ absurd (none-ne-some (rw awake at h))
  ]

  pub deliver-Delivered :
      (whom : Wake) (i : ℕ) (s u : System A) → deliver whom i s ≡ some u → Delivered s u
  unfolding deliver
  deliver-Delivered Wake.nobody i s u h = record {
    workers = s.workers;
    only = sym (some_inj h);
    risen = keep_all s.workers;
  }
  deliver-Delivered Wake.broadcast i s u h = record {
    workers = map woken s.workers;
    only = sym (some_inj h);
    risen = lift_all s.workers;
  }
  deliver-Delivered Wake.signal i s u h = elim (Bool-cases (any_worker sleeps s.workers)) [
    | inl some_sleeps ↦
        let (w, at, r) = at_worker-some s u i (rouse s i) (rw some_sleeps at h) in
        rouse-Delivered s u i w at r
    | inr none_sleeps ↦ record {
      workers = s.workers;
      only = sym (some_inj (rw none_sleeps at h));
      risen = keep_all s.workers;
    }
  ]

  abbrev pub grown : System A → A → System A
  grown s t = record s {
    pool = record s.pool { tasks = s.pool.tasks ++ t ∷ [] };
    accepted = s.accepted ++ t ∷ [];
  }

  abbrev pub halted : System A → System A
  halted s = record s { pool = record s.pool { state = PoolState.stopping } }

  -- `submit` changes nothing, or adds the task to the queue of a running pool.
  pub add_task-cases :
      (s u : System A) (grant : Bool) (t : A) (i : ℕ)
      → add_task s grant t i ≡ some u
      → (u ≡ s)
        ⊎ ((is_running s.pool.state ≡ true)
            × (deliver
                  (if length (s.pool.tasks ++ t ∷ []) == 1 then Wake.signal else Wake.nobody)
                  i
                  (grown s t)
                ≡ some u))
  unfolding add_task submit
  add_task-cases s u grant t i h = elim (Bool-cases (is_running s.pool.state)) [
    | inr shut ↦ inl (unchanged (rw (add_task, submit, shut, deliver) at h))
    | inl accepts ↦ elim (Bool-cases grant) [
      | inr refused ↦ inl (unchanged (rw (add_task, submit, accepts, refused, deliver) at h))
      | inl granted ↦ inr (accepts, rw (add_task, submit, accepts, granted) at h)
    ]
  ]
    where
      unchanged :
          Path (Option (System A)) (some (record s { accepted = s.accepted ++ [] })) (some u)
          → u ≡ s
      unchanged e = sym (some_inj e) ∙ ap (λ ts. record s { accepted = ts }) (append-nil s.accepted)

  -- a failure ends the process or leaves the worker ready
  pub end_failure-cases :
      (s u : System A) (i : ℕ) (recovered : Bool) (t : A)
      → end_failure s i recovered (Worker.failing t) ≡ some u
      → (u ≡ record s { aborted = true })
        ⊎ (u ≡ record s { workers = set s.workers i Worker.ready })
  unfolding end_failure settle
  end_failure-cases s u i recovered t h = elim (Bool-cases (s.pool.on_error && recovered)) [
    | inl settled ↦ inr (sym (some_inj (rw (end_failure, settle, settled) at h)))
    | inr aborts ↦ inl (sym (some_inj (rw (end_failure, settle, aborts) at h)))
  ]
