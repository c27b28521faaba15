-- ===== src/Pool/Single.antt =====
-- a.yanin/common/executor.single/src/single.c: the executor that runs a task in the thread that submits
-- it.
use posix_threads.Common.{
  ◌≡◌, refl, Bool, true, false, not, ◌&&◌, Option, none, some, List, [], ◌∷◌, if◌then◌else◌,
}
use posix_threads.Pool.{Submission}

-- `executor_single_t`; of `on_error` it matters whether it is set.
pub record Single : Type 0 where
  pub on_error : Bool
  pub shut : Bool

unfoldable pub new : Single
new = record { on_error = false; shut = false }

-- `task` is what the task does, and `err` whether it answers an error; `recovered` tells whether the
-- callback answers none. `none` is the end of the process by `log_abort`.
unfoldable pub submit {ℓ} :
    {S : Type ℓ} → (S → S) → Bool → Bool → Single → S → Option (Submission × S)
submit task err recovered self s =
    if self.shut
    then some (Submission.dropped, s)
    else if err && not (self.on_error && recovered)
    then none
    else some (Submission.submitted, task s)

unfoldable pub shutdown : Single → Single
shutdown self = record self { shut = true }

unfoldable pub set_on_error : Single → Bool → Single
set_on_error self handler = record self { on_error = handler }

-- tasks that succeed, one behind the other
abbrev run_all {ℓ} : {S : Type ℓ} → Single → List (S → S) → S → Option S
run_all self [] s = some s
run_all self (task ∷ more) s = elim (submit task false false self s) [
  | none ↦ none
  | some (answer, t) ↦ run_all self more t
]

-- A new executor runs its tasks in order, and behind `shutdown` it drops them all.
runs_in_order {ℓ} : {S : Type ℓ} (f g : S → S) (s : S) → run_all new (f ∷ g ∷ []) s ≡ some (g (f s))
unfolding submit new
runs_in_order f g s = refl

drops_behind_shutdown {ℓ} :
    {S : Type ℓ} (self : Single) (tasks : List (S → S)) (s : S)
    → run_all (shutdown self) tasks s ≡ some s
unfolding submit shutdown
drops_behind_shutdown self [] s = refl
drops_behind_shutdown self (task ∷ more) s = drops_behind_shutdown self more s
