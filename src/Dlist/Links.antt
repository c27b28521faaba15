-- ===== src/Dlist/Links.antt =====
-- `link`, `unlink_prev` and `unlink_both` of a.yanin/common/collections.dlist around a node between two
-- chains.
use posix_threads.Common.{
  ◌≡◌, refl, sym, ap, ◌∙◌, ◌≢◌, ◌⊎◌, inl, inr, false, not, ◌&&◌, some, [], ◌∷◌, arith, ◌==◌, ==_iff,
  ne→==_false, Outcome, done, ◌>>=◌, assert,
}
use posix_threads.Dlist.Nodes.{Ptr, Node, node, Heap, write, load, set_prev}
use posix_threads.Dlist.{unless_null, link, bypass, unlink_prev, unlink_both}
use posix_threads.Dlist.Chain.{Cells, first, last, Chain, Apart}
use posix_threads.Dlist.Updates.{
  Valid, next_to, prev_to, load-eq-done, set_next-eq-done, set_prev-eq-done, set_prev-filled,
  next_to-null,
}
use posix_threads.Dlist.Trio.{
  Placed, Trio, step_left, step_right, step_mid, step_mid_next, step_mid_prev,
}

module _ {ℓ} {A : Type ℓ} where
  pub write-here : (h : Heap A) (p : Ptr) (n : Node A) → write h p (some n) p ≡ some n
  unfolding write
  write-here h p n = rw ((==_iff p p).1 refl) refl

  pub write-apart :
      (h : Heap A) (p : Ptr) (n : Node A) (a : Ptr) → a ≢ p → write h p (some n) a ≡ h a
  unfolding write
  write-apart h p n a other = rw (ne→==_false a p other) refl

  pub link-eq-done :
      (h : Heap A) (p q : Ptr)
      → (p ≢ 0) ⊎ (q ≢ 0)
      → Valid h p
      → Valid (next_to p q h) q
      → link p q h ≡ done (prev_to q p (next_to p q h))
  unfolding link
  link-eq-done h p q some_node left right =
      let not_both : (p == 0 && q == 0) ≡ false = ground arith in
      rw (not_both, set_next-eq-done h p q left) (set_prev-eq-done (next_to p q h) q p right)

  -- The last node of a chain leads to what follows it.
  pub record LastNode (g : Heap A) (p after : Ptr) : Type ℓ where
    pub filled : p ≢ 0
    pub it : Node A
    pub here : g p ≡ some it
    pub leads : it.next ≡ after

  pub last_node :
      (g : Heap A) (before after : Ptr) (xs : Cells A)
      → Apart xs
      → Chain g before xs after
      → ((xs ≡ []) ⊎ LastNode g (last before xs) after)
  last_node g before after [] apart c = inl refl
  last_node g before after ((p, v) ∷ []) (filled, out, apart) (here, c) =
      inr (record { filled = filled; it = node v before after; here = here; leads = refl })
  last_node g before after ((p, v) ∷ (q, w) ∷ xs) (filled, out, apart) (here, c) =
      elim (last_node g p after ((q, w) ∷ xs) apart c) [
        | inl none_left ↦ absurd (cc none_left)
        | inr l ↦ inr l
      ]

  -- The first node of a chain comes from what precedes it, and does not lead to itself.
  pub record FirstNode (g : Heap A) (p before : Ptr) : Type ℓ where
    pub filled : p ≢ 0
    pub it : Node A
    pub here : g p ≡ some it
    pub comes : it.prev ≡ before
    pub onward : it.next ≢ p

  pub first_node :
      (g : Heap A) (before : Ptr) (ys : Cells A)
      → Apart ys
      → Chain g before ys 0
      → ((ys ≡ []) ⊎ FirstNode g (first 0 ys) before)
  first_node g before [] apart c = inl refl
  first_node g before ((p, v) ∷ []) (filled, out, apart) (here, c) = inr (record {
    filled = filled;
    it = node v before 0;
    here = here;
    comes = refl;
    onward = λ e. filled (sym e);
  })
  first_node g before ((p, v) ∷ (q, w) ∷ ys) (filled, out, apart) (here, c) = inr (record {
    filled = filled;
    it = node v before q;
    here = here;
    comes = refl;
    onward = λ e. absurd (cc (rw ((==_iff p q).1 (sym e)) at out));
  })

  bypass-eq-done :
      (g : Heap A) (after : Ptr) (n : Node A)
      → (n.prev ≡ 0) ⊎ LastNode g n.prev after
      → unless_null n.prev (bypass after n) g ≡ done (next_to n.prev n.next g)
  unfolding bypass next_to
  bypass-eq-done g after n (inl null) = rw (null) (ap done (sym (next_to-null g 0 n.next refl)))
  bypass-eq-done g after n (inr l) =
      rw (ne→==_false n.prev 0 l.filled, l.here, (==_iff l.it.next after).1 l.leads) refl

  pub unlink_prev-eq-done :
      (g : Heap A) (p : Ptr) (n : Node A)
      → p ≢ 0
      → g p ≡ some n
      → n.next ≢ p
      → (n.prev ≡ 0) ⊎ LastNode g n.prev p
      → Valid (next_to n.prev n.next g) p
      → unlink_prev p g ≡ done (prev_to p 0 (next_to n.prev n.next g))
  unfolding unlink_prev
  unlink_prev-eq-done g p n filled here onward from valid =
      ap (λ x. x >>= rest) (load-eq-done g p n filled here)
      ∙ ap (λ b. assert (not b) >>= λ _. cut n) (ne→==_false n.next p onward)
      ∙ ap (λ x. x >>= set_prev p 0) (bypass-eq-done g p n from)
      ∙ set_prev-filled (next_to n.prev n.next g) p 0 filled valid
    where
      cut : Node A → Outcome (Heap A)
      cut m = unless_null m.prev (bypass p m) g >>= set_prev p 0

      rest : Node A → Outcome (Heap A)
      rest m = assert (not (m.next == p)) >>= λ _. cut m

  module _ (h : Heap A) (p : Ptr) (v : A) (xs ys : Cells A) (placed : Placed p xs ys) where
    pub left_node :
        (after before m n : Ptr) (g : Heap A)
        → Trio h p v xs ys after before m n g
        → ((xs ≡ []) ⊎ LastNode g (last 0 xs) after)
    left_node after before m n g t = last_node g 0 after xs placed.left_apart t.left

    pub right_node :
        (after before m n : Ptr) (g : Heap A)
        → Trio h p v xs ys after before m n g
        → ((ys ≡ []) ⊎ FirstNode g (first 0 ys) before)
    right_node after before m n g t = first_node g before ys placed.right_apart t.right

    pub left-Valid :
        (after before m n : Ptr) (g : Heap A)
        → Trio h p v xs ys after before m n g
        → Valid g (last 0 xs)
    left-Valid after before m n g t = elim (left_node after before m n g t) [
      | inl none_left ↦ inl (ap (last 0) none_left)
      | inr l ↦ inr (l.filled, l.it, l.here)
    ]

    pub right-Valid :
        (after before m n : Ptr) (g : Heap A)
        → Trio h p v xs ys after before m n g
        → Valid g (first 0 ys)
    right-Valid after before m n g t = elim (right_node after before m n g t) [
      | inl none_left ↦ inl (ap (first 0) none_left)
      | inr l ↦ inr (l.filled, l.it, l.here)
    ]

    pub mid-Valid :
        (after before m n : Ptr) (g : Heap A) → Trio h p v xs ys after before m n g → Valid g p
    mid-Valid after before m n g t = inr (placed.filled, node v m n, t.mid)

    -- The node is linked to the left chain.
    pub link_left :
        (after before m n : Ptr) (g : Heap A)
        → Trio h p v xs ys after before m n g
        → (k : Heap A) × (link (last 0 xs) p g ≡ done k) × Trio h p v xs ys p before (last 0 xs) n k
    link_left after before m n g t =
        let s = step_left h p v xs ys placed after before m n p g t in
        let r =
          step_mid_prev h p v xs ys placed p before m n (last 0 xs) (next_to (last 0 xs) p g) s in
        (
          prev_to p (last 0 xs) (next_to (last 0 xs) p g),
          link-eq-done g (last 0 xs) p (inr placed.filled) (left-Valid after before m n g t)
              (mid-Valid p before m n (next_to (last 0 xs) p g) s),
          r,
        )

    -- The node is linked to the right chain.
    pub link_right :
        (after before m n : Ptr) (g : Heap A)
        → Trio h p v xs ys after before m n g
        → (k : Heap A) × (link p (first 0 ys) g ≡ done k)
          × Trio h p v xs ys after p m (first 0 ys) k
    link_right after before m n g t =
        let s = step_mid_next h p v xs ys placed after before m n (first 0 ys) g t in
        let r =
          step_right h p v xs ys placed after before m (first 0 ys) p (next_to p (first 0 ys) g)
            s in
        (
          prev_to (first 0 ys) p (next_to p (first 0 ys) g),
          link-eq-done g p (first 0 ys) (inl placed.filled) (mid-Valid after before m n g t)
              (right-Valid after before m (first 0 ys) (next_to p (first 0 ys) g) s),
          r,
        )

    -- The node is taken out from between the chains.
    pub unlink_both-Trio :
        (g : Heap A)
        → Trio h p v xs ys p p (last 0 xs) (first 0 ys) g
        → (k : Heap A) × (unlink_both p g ≡ done k)
          × Trio h p v xs ys (first 0 ys) (last 0 xs) 0 0 k
    unfolding unlink_both
    unlink_both-Trio g t =
        let l = last 0 xs in
        let r = first 0 ys in
        let s = step_left h p v xs ys placed p p l r r g t in
        let g₁ = next_to l r g in
        let q = step_right h p v xs ys placed r p l r l g₁ s in
        let g₂ = prev_to r l g₁ in
        let freed = write g₂ p (some (node v 0 0)) in
        (
          freed,
          rw (load-eq-done g p (node v l r) placed.filled t.mid) (
              ap (λ x. x >>= rest) (set_next-eq-done g l r (left-Valid p p l r g t))
              ∙ ap (λ x. x >>= finish) (set_prev-eq-done g₁ r l (right-Valid r p l r g₁ s))
              ∙ ap (λ x. x >>= λ n. done (write g₂ p (some (node n.value 0 0))))
                  (load-eq-done g₂ p (node v l r) placed.filled q.mid)),
          step_mid h p v xs ys placed r l l r 0 0 g₂ freed q (write-here g₂ p (node v 0 0))
              (write-apart g₂ p (node v 0 0)),
        )
      where
        finish : Heap A → Outcome (Heap A)
        finish k = do m ← load k p; done (write k p (some (node m.value 0 0)))

        rest : Heap A → Outcome (Heap A)
        rest g = unless_null (first 0 ys) (set_prev (first 0 ys) (last 0 xs)) g >>= finish
