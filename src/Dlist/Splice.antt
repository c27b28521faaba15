-- ===== src/Dlist/Splice.antt =====
-- `splice` of a.yanin/common/collections.dlist: a node goes in between two chains.
use posix_threads.Common.{◌≡◌, refl, ap, ◌∙◌, ◌⊎◌, inl, inr, ne→==_false, done}
use posix_threads.Dlist.Nodes.{Ptr, Heap}
use posix_threads.Dlist.{unless_null, unlink_prev, splice}
use posix_threads.Dlist.Chain.{Cells, first, last}
use posix_threads.Dlist.Updates.{Valid, next_to, prev_to}
use posix_threads.Dlist.Trio.{Placed, Trio, step_left, step_right}
use posix_threads.Dlist.Links.{
  unlink_prev-eq-done, LastNode, left_node, right_node, right-Valid, link_left, link_right,
}

module _ {ℓ} {A : Type ℓ} (h : Heap A) (p : Ptr) (v : A) (xs ys : Cells A)
    (placed : Placed p xs ys) where
  -- The first node of the right chain is cut off from the left chain.
  cut :
      (g : Heap A)
      → Trio h p v xs ys (first 0 ys) (last 0 xs) 0 0 g
      → (k : Heap A) × (after : Ptr) × (before : Ptr) × (unless_null
            (first 0 ys)
            (unlink_prev (first 0 ys))
            g
          ≡ done k)
        × Trio h p v xs ys after before 0 0 k
  cut g t = elim (right_node h p v xs ys placed (first 0 ys) (last 0 xs) 0 0 g t) [
    | inl none_right ↦ (g, first 0 ys, last 0 xs, rw (ap (first 0) none_right) refl, t)
    | inr r ↦
        let next = first 0 ys in
        let s = step_left h p v xs ys placed next (last 0 xs) 0 0 r.it.next g t in
        let q =
          step_right h p v xs ys placed r.it.next (last 0 xs) 0 0 0
            (next_to (last 0 xs) r.it.next g) s in
        let from : (r.it.prev ≡ 0) ⊎ LastNode g r.it.prev next =
          rw r.comes (elim (left_node h p v xs ys placed next (last 0 xs) 0 0 g t) [
            | inl none_left ↦ inl (ap (last 0) none_left)
            | inr l ↦ inr l
          ]) in
        let valid : Valid (next_to r.it.prev r.it.next g) next = rw r.comes (
          right-Valid h p v xs ys placed r.it.next (last 0 xs) 0 0 (next_to (last 0 xs) r.it.next g)
            s) in
        (
          prev_to next 0 (next_to (last 0 xs) r.it.next g),
          r.it.next,
          0,
          rw (ne→==_false next 0 r.filled) (
              unlink_prev-eq-done g next r.it r.filled r.here r.onward from valid
              ∙ ap (λ b. done (prev_to next 0 (next_to b r.it.next g))) r.comes),
          q,
        )
  ]

  pub splice-Trio :
      (g : Heap A)
      → Trio h p v xs ys (first 0 ys) (last 0 xs) 0 0 g
      → (k : Heap A) × (splice g p (last 0 xs) (first 0 ys) ≡ done k)
        × Trio h p v xs ys p p (last 0 xs) (first 0 ys) k
  unfolding splice
  splice-Trio g t =
      let (g₁, after, before, run₁, t₁) = cut g t in
      let (g₂, run₂, t₂) = link_left h p v xs ys placed after before 0 0 g₁ t₁ in
      let (g₃, run₃, t₃) = link_right h p v xs ys placed p before (last 0 xs) 0 g₂ t₂ in
      (g₃, rw (run₁) (rw (run₂) run₃), t₃)
