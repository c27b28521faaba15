-- ===== src/Slab/Tests.antt =====
-- Runs of a.yanin/common/collections.slab with nodes of eight bytes.
use posix_threads.Common.{
  ℕ, zero, suc, ◌≡◌, refl, true, none, some, List, [], ◌∷◌, assertion, Outcome, done, stop, ◌>>=◌,
}
use posix_threads.Vec.{Allocator, copy_slots}
use posix_threads.Slab.{Slab, new, append, add_after, move_to_end, remove, iter_next}

abbrev always : Allocator
always n = true

-- the slab with some values
abbrev fill : List ℕ → Slab ℕ → Outcome (Slab ℕ)
fill [] s = done s
fill (x ∷ xs) s = append always 8 s x >>= λ (code, t, index). fill xs t

abbrev three : Outcome (Slab ℕ)
three = fill (70 ∷ 80 ∷ 90 ∷ []) new

-- the indices from one on, as `iter_next` gives them
abbrev indices : ℕ → Slab ℕ → ℕ → Outcome (List ℕ)
indices zero s current = done []
indices (suc fuel) s current = iter_next 9 s current >>= λ (found, next). elim found [
  | none ↦ done []
  | some i ↦ indices fuel s next >>= λ rest. done (i ∷ rest)
]

appends_in_order : (three >>= λ s. indices 9 s s.head) ≡ done (1 ∷ 2 ∷ 3 ∷ [])
unfolding new append iter_next copy_slots
appends_in_order = refl

moves_the_first_to_the_end :
    (three >>= λ s. move_to_end s 1 >>= λ t. indices 9 t t.head) ≡ done (2 ∷ 3 ∷ 1 ∷ [])
unfolding new append move_to_end iter_next copy_slots
moves_the_first_to_the_end = refl

adds_behind_the_first :
    (three >>= λ s. add_after always 8 s 1 75 >>= λ (code, t, index). indices 9 t t.head)
    ≡ done (1 ∷ 4 ∷ 2 ∷ 3 ∷ [])
unfolding new append add_after iter_next copy_slots
adds_behind_the_first = refl

removes_the_second : (three >>= λ s. remove s 2 >>= λ t. indices 9 t t.head) ≡ done (1 ∷ 3 ∷ [])
unfolding new append remove iter_next copy_slots
removes_the_second = refl

-- A slab that has become empty and whose vector is full takes no value any more.
emptied_slab_stops :
    (fill (70 ∷ []) new >>= λ s. remove s 1 >>= λ t. append always 8 t 71) ≡ stop assertion
unfolding new append remove copy_slots
emptied_slab_stops = refl
