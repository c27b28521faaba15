-- ===== src/Arc/Tests.antt =====
-- A run of a.yanin/common/memory.arc with two references.
use posix_threads.Common.{ℕ, ◌≡◌, refl, none, [], ◌∷◌, arith, done}
use posix_threads.Arc.Runs.{
  World, Action, perform, IsAllowed, Reaches, here, next, start, Phase, Reaches-Phase,
}

abbrev freed_once : World ℕ
freed_once = record { cell = none; owners = 0; leaving = 0; freed = 7 ∷ [] }

freed_once-Reaches : Reaches (start 7) freed_once
unfolding start perform
freed_once-Reaches =
    next Action.destroys
      (next Action.releases
        (next Action.releases
          (next Action.gets (next Action.shares here (omega arith, omega arith) refl) (omega arith)
            refl)
          (omega arith) refl)
        (omega arith) refl)
      (omega arith) refl

Reaches-Phase_example :
    Phase 7 freed_once
    × ((a : Action) → IsAllowed freed_once a → (v : World ℕ) × (perform a freed_once ≡ done v))
Reaches-Phase_example = Reaches-Phase 7 freed_once freed_once-Reaches
