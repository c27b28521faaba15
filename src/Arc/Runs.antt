-- ===== src/Arc/Runs.antt =====
-- All runs of the threads that hold references to one object of a.yanin/common/memory.arc.
use posix_threads.Common.{
  ℕ, ◌+◌, ◌-◌, ◌%◌, ◌^◌, ◌<◌, ◌≡◌, refl, sym, ap, ◌∙◌, ◌≢◌, Bool, true, false, Option, none, some,
  List, [], ◌∷◌, arith, ℕ_discrete, if◌then◌else◌, lt→ltb, le→leb, Outcome, done, ◌>>=◌, done_inj,
}
use mathlib.Core.Path.{subst}
use posix_threads.Arc.{Arc, new, share, release, destroy, get}

-- The memory of the arc, how many references threads hold, how many threads have given up the last one
-- and are about to free the object, and what `free_cb` has been called with.
pub record World {ℓ} (A : Type ℓ) : Type ℓ where
  pub cell : Option (Arc A)
  pub owners : ℕ
  pub leaving : ℕ
  pub freed : List A

pub data Action : Type 0 where
  shares gets releases destroys : Action

module _ {ℓ} {A : Type ℓ} where
  abbrev given_up : World A → Bool × Option (Arc A) → World A
  given_up w (last, cell) = record w {
    cell = cell;
    owners = w.owners - 1;
    leaving = if last then w.leaving + 1 else w.leaving;
  }

  unfoldable pub perform : Action → World A → Outcome (World A)
  unfolding share get release destroy
  perform shares w = share w.cell >>= λ cell. done (record w { cell = cell; owners = w.owners + 1 })
  perform gets w = get w.cell >>= λ object. done w
  perform releases w = release w.cell >>= λ r. done (given_up w r)
  perform destroys w = destroy w.cell >>= λ (object, cell).
      done (record w { cell = cell; leaving = w.leaving - 1; freed = object ∷ w.freed })

  -- A thread uses only a reference that it holds, and there are fewer than 2^63 references.
  abbrev pub IsAllowed : World A → Action → Type 0
  IsAllowed w shares = (0 < w.owners) × (w.owners + 1 < 2 ^ 63)
  IsAllowed w gets = 0 < w.owners
  IsAllowed w releases = 0 < w.owners
  IsAllowed w destroys = 0 < w.leaving

  pub data Reaches (w : World A) : World A → Type ℓ where
    here : Reaches w w
    next :
        {u v : World A} (a : Action)
        → Reaches w u
        → IsAllowed u a
        → perform a u ≡ done v
        → Reaches w v

  unfoldable pub start : A → World A
  unfolding new
  start object = record { cell = some (new object); owners = 1; leaving = 0; freed = [] }

  -- While references are held, the count is their number and the object is there; then one thread
  -- frees the object; then it has been freed, once.
  pub data Phase (object : A) (w : World A) : Type ℓ where
    shared :
        0 < w.owners
        → w.owners < 2 ^ 63
        → w.leaving ≡ 0
        → w.freed ≡ []
        → w.cell ≡ some (record { ref_count = w.owners; object = object })
        → Phase object w
    last_left :
        w.owners ≡ 0
        → w.leaving ≡ 1
        → w.freed ≡ []
        → w.cell ≡ some (record { ref_count = 0; object = object })
        → Phase object w
    over : w.owners ≡ 0 → w.leaving ≡ 0 → w.freed ≡ object ∷ [] → w.cell ≡ none → Phase object w

  share-Phase :
      (object : A) (w : World A)
      → Phase object w
      → IsAllowed w shares
      → (v : World A) × (perform shares w ≡ done v) × Phase object v
  unfolding perform share
  share-Phase object w (shared some_owner few none_leaves unfreed cell) (held, room) = (
    record w {
      cell = some (record { ref_count = w.owners + 1; object = object });
      owners = w.owners + 1;
    },
    ap (λ c. share c >>= λ cell. done (record w { cell = cell; owners = w.owners + 1 })) cell
        ∙ rw (le→leb 1 w.owners held) (
            ap
              (λ n. done (record w {
                cell = some (record { ref_count = n; object = object });
                owners = w.owners + 1;
              }))
              fits),
    shared (omega arith) room none_leaves unfreed refl,
  )
    where
      fits : (w.owners + 1) % 2 ^ 64 ≡ w.owners + 1
      fits = omega (arith, room)
  share-Phase object w (last_left no_owner one_leaves unfreed cell) (held, room) =
      absurd (omega arith)
  share-Phase object w (over no_owner none_leaves freed cell) (held, room) = absurd (omega arith)

  gets-Phase :
      (object : A) (w : World A)
      → Phase object w
      → IsAllowed w gets
      → (v : World A) × (perform gets w ≡ done v) × Phase object v
  unfolding perform get
  gets-Phase object w (shared some_owner few none_leaves unfreed cell) held = (
    w,
    ap (λ c. get c >>= λ object. done w) cell
        ∙ rw (lt→ltb 0 w.owners held, lt→ltb w.owners (2 ^ 63) few) refl,
    shared some_owner few none_leaves unfreed cell,
  )
  gets-Phase object w (last_left no_owner one_leaves unfreed cell) held = absurd (omega arith)
  gets-Phase object w (over no_owner none_leaves freed cell) held = absurd (omega arith)

  releases-Phase :
      (object : A) (w : World A)
      → Phase object w
      → IsAllowed w releases
      → (v : World A) × (perform releases w ≡ done v) × Phase object v
  unfolding perform release
  releases-Phase object w (shared some_owner few none_leaves unfreed cell) held =
      elim (ℕ_discrete w.owners 1) [
        | yes one ↦ (
          given_up w (true, some (record { ref_count = 0; object = object })),
          ap (λ c. release c >>= λ r. done (given_up w r)) cell
              ∙ ap
                  (λ n. release (some (record { ref_count = n; object = object })) >>= λ r.
                    done (given_up w r))
                  one,
          last_left (omega arith) (omega arith) unfreed refl,
        )
        | no more ↦ (
          given_up w (false, some (record { ref_count = w.owners - 1; object = object })),
          ap (λ c. release c >>= λ r. done (given_up w r)) cell
              ∙ rw (lt→ltb 1 w.owners (omega arith), lt→ltb w.owners (2 ^ 63) few)
                  (ap
                    (λ n.
                      done (given_up w (false, some (record { ref_count = n; object = object }))))
                    (less more)),
          shared (omega arith) (omega arith) none_leaves unfreed refl,
        )
      ]
    where
      less : w.owners ≢ 1 → (w.owners + 2 ^ 64 - 1) % 2 ^ 64 ≡ w.owners - 1
      less more = omega (arith, few, some_owner)
  releases-Phase object w (last_left no_owner one_leaves unfreed cell) held = absurd (omega arith)
  releases-Phase object w (over no_owner none_leaves freed cell) held = absurd (omega arith)

  destroys-Phase :
      (object : A) (w : World A)
      → Phase object w
      → IsAllowed w destroys
      → (v : World A) × (perform destroys w ≡ done v) × Phase object v
  unfolding perform destroy
  destroys-Phase object w (shared some_owner few none_leaves unfreed cell) left =
      absurd (omega arith)
  destroys-Phase object w (last_left no_owner one_leaves unfreed cell) left = (
    record w { cell = none; leaving = w.leaving - 1; freed = object ∷ w.freed },
    ap
        (λ c. destroy c >>= λ (object, cell).
          done (record w { cell = cell; leaving = w.leaving - 1; freed = object ∷ w.freed }))
        cell,
    over no_owner (omega arith) (ap (λ l. object ∷ l) unfreed) refl,
  )
  destroys-Phase object w (over no_owner none_leaves freed cell) left = absurd (omega arith)

  perform-Phase :
      (object : A) (a : Action) (w : World A)
      → Phase object w
      → IsAllowed w a
      → (v : World A) × (perform a w ≡ done v) × Phase object v
  perform-Phase object shares w p allowed = share-Phase object w p allowed
  perform-Phase object gets w p allowed = gets-Phase object w p allowed
  perform-Phase object releases w p allowed = releases-Phase object w p allowed
  perform-Phase object destroys w p allowed = destroys-Phase object w p allowed

  -- In every run of threads that use only references that they hold, of which there are fewer than 2^63:
  -- the count is the number of references and the object is there while there are any; behind the last
  -- one exactly one thread frees the object, with the pointer that the arc was made for, and nobody
  -- frees it again; and no call stops at an assertion or uses memory that has been freed.
  pub Reaches-Phase :
      (object : A) (w : World A)
      → Reaches (start object) w
      → Phase object w × ((a : Action) → IsAllowed w a → (v : World A) × (perform a w ≡ done v))
  unfolding start
  Reaches-Phase object w r =
      let p = phase w r in
      (p, λ a allowed. let (v, run, after) = perform-Phase object a w p allowed in (v, run))
    where
      phase : (w : World A) → Reaches (start object) w → Phase object w
      phase w here = shared (omega arith) (omega arith) refl refl refl
      phase w (next {u = u} a r allowed e) =
          let (v, run, after) = perform-Phase object a u (phase u r) allowed in
          subst (Phase object) (done_inj (sym run ∙ e)) after
