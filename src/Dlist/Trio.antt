-- ===== src/Dlist/Trio.antt =====
-- A node of a.yanin/common/collections.dlist between two chains, and what a write to one of the pointers
-- around it does.
use posix_threads.Common.{
  ◌≡◌, refl, sym, ap, ◌∙◌, ◌≢◌, ◌⊎◌, inl, inr, true, false, some, [], ◌∷◌, arith,
}
use mathlib.Core.Path.{subst}
use posix_threads.Dlist.Nodes.{Ptr, node, Heap}
use posix_threads.Dlist.Chain.{Cells, first, last, has, Chain, Apart, frame}
use posix_threads.Dlist.Updates.{
  next_to, prev_to, next_to-here, prev_to-here, next_to-apart, prev_to-apart, next_to-null,
  prev_to-null,
}

module _ {ℓ} {A : Type ℓ} where
  -- The addresses of the node and of the cells around it differ.
  pub record Placed (p : Ptr) (xs ys : Cells A) : Type ℓ where
    pub filled : p ≢ 0
    pub left_apart : Apart xs
    pub right_apart : Apart ys
    pub disjoint : (a : Ptr) → has a xs ≡ true → has a ys ≡ false
    pub not_left : has p xs ≡ false
    pub not_right : has p ys ≡ false

  -- In `g`, the left chain leads to `after`, the right chain comes from `before`, the node points to `m`
  -- and `n`, and nothing else differs from `h`.
  pub record Trio (h : Heap A) (p : Ptr) (v : A) (xs ys : Cells A) (after before m n : Ptr)
      (g : Heap A) : Type ℓ where
    pub left : Chain g 0 xs after
    pub right : Chain g before ys 0
    pub mid : g p ≡ some (node v m n)
    pub spared : (a : Ptr) → has a xs ≡ false → has a ys ≡ false → a ≢ p → g a ≡ h a

  has-last : (p : Ptr) (v : A) (xs : Cells A) → has (last p xs) ((p, v) ∷ xs) ≡ true
  has-last p v [] = ground arith
  has-last p v ((q, w) ∷ xs) = ground (arith, has-last q w xs)

  pub last-cases :
      (xs : Cells A) → Apart xs → ((xs ≡ []) ⊎ ((last 0 xs ≢ 0) × (has (last 0 xs) xs ≡ true)))
  last-cases [] apart = inl refl
  last-cases ((p, v) ∷ []) (filled, out, apart) = inr (filled, ground arith)
  last-cases ((p, v) ∷ (q, w) ∷ xs) (filled, out, apart) = elim (last-cases ((q, w) ∷ xs) apart) [
    | inl none_left ↦ absurd (cc none_left)
    | inr (nonzero, inside) ↦ inr (nonzero, ground (arith, inside))
  ]

  pub first-cases :
      (ys : Cells A) → Apart ys → ((ys ≡ []) ⊎ ((first 0 ys ≢ 0) × (has (first 0 ys) ys ≡ true)))
  first-cases [] apart = inl refl
  first-cases ((p, v) ∷ ys) (filled, out, apart) = inr (filled, ground arith)

  -- The last node of a chain leads to another address.
  pub end_next :
      (g : Heap A) (before after q : Ptr) (xs : Cells A)
      → Apart xs
      → Chain g before xs after
      → Chain (next_to (last before xs) q g) before xs q
  end_next g before after q [] apart c = tt
  end_next g before after q ((p, v) ∷ []) (filled, out, apart) (here, c) =
      (next_to-here g p q (node v before after) filled here, tt)
  end_next g before after q ((p, v) ∷ (r, w) ∷ xs) (filled, out, apart) (here, c) = (
    next_to-apart g (last r xs) q p (λ e. absurd (ground (arith, has-last r w xs))) ∙ here,
    end_next g p after q ((r, w) ∷ xs) apart c,
  )

  pub start_prev :
      (g : Heap A) (before after q : Ptr) (ys : Cells A)
      → Apart ys
      → Chain g before ys after
      → Chain (prev_to (first 0 ys) q g) q ys after
  start_prev g before after q [] apart c = tt
  start_prev g before after q ((p, v) ∷ ys) (filled, out, apart) (here, c) = (
    prev_to-here g p q (node v before (first after ys)) filled here,
    frame g (prev_to p q g) p after ys c
        (λ a inside. prev_to-apart g p q a (λ e. absurd (ground (arith, ap (λ b. has b ys) e)))),
  )

  module _ (h : Heap A) (p : Ptr) (v : A) (xs ys : Cells A) (placed : Placed p xs ys) where
    pub step_left :
        (after before m n q : Ptr) (g : Heap A)
        → Trio h p v xs ys after before m n g
        → Trio h p v xs ys q before m n (next_to (last 0 xs) q g)
    step_left after before m n q g t = elim (last-cases xs placed.left_apart) [
      | inl none_left ↦
          let null : last 0 xs ≡ 0 = ap (last 0) none_left in
          rw (next_to-null g (last 0 xs) q null) (record {
            left = subst (λ cs. Chain g 0 cs q) (sym none_left) tt;
            right = t.right;
            mid = t.mid;
            spared = t.spared;
          })
      | inr (nonzero, inside) ↦ record {
        left = end_next g 0 after q xs placed.left_apart t.left;
        right = frame g (next_to (last 0 xs) q g) before 0 ys t.right (λ a here.
            next_to-apart g (last 0 xs) q a (λ e.
              absurd (ground (arith, placed.disjoint (last 0 xs) inside, ap (λ b. has b ys) e))));
        mid =
            next_to-apart g (last 0 xs) q p
              (λ e. absurd (ground (arith, placed.not_left, ap (λ b. has b xs) e)))
            ∙ t.mid;
        spared = λ a no_left no_right other.
            next_to-apart g (last 0 xs) q a (λ e. absurd (ground (arith, ap (λ b. has b xs) e)))
            ∙ t.spared a no_left no_right other;
      }
    ]

    pub step_right :
        (after before m n q : Ptr) (g : Heap A)
        → Trio h p v xs ys after before m n g
        → Trio h p v xs ys after q m n (prev_to (first 0 ys) q g)
    step_right after before m n q g t = elim (first-cases ys placed.right_apart) [
      | inl none_left ↦
          let null : first 0 ys ≡ 0 = ap (first 0) none_left in
          rw (prev_to-null g (first 0 ys) q null) (record {
            left = t.left;
            right = subst (λ cs. Chain g q cs 0) (sym none_left) tt;
            mid = t.mid;
            spared = t.spared;
          })
      | inr (nonzero, inside) ↦ record {
        left = frame g (prev_to (first 0 ys) q g) 0 after xs t.left (λ a here.
            prev_to-apart g (first 0 ys) q a
              (λ e. absurd (ground (arith, placed.disjoint a here, ap (λ b. has b ys) e))));
        right = start_prev g before 0 q ys placed.right_apart t.right;
        mid =
            prev_to-apart g (first 0 ys) q p
              (λ e. absurd (ground (arith, placed.not_right, ap (λ b. has b ys) e)))
            ∙ t.mid;
        spared = λ a no_left no_right other.
            prev_to-apart g (first 0 ys) q a (λ e. absurd (ground (arith, ap (λ b. has b ys) e)))
            ∙ t.spared a no_left no_right other;
      }
    ]

    -- a write to the node itself
    pub step_mid :
        (after before m n m' n' : Ptr) (g k : Heap A)
        → Trio h p v xs ys after before m n g
        → k p ≡ some (node v m' n')
        → ((a : Ptr) → a ≢ p → k a ≡ g a)
        → Trio h p v xs ys after before m' n' k
    step_mid after before m n m' n' g k t here same = record {
      left = frame g k 0 after xs t.left (λ a inside.
          same a (λ e. absurd (ground (arith, placed.not_left, ap (λ b. has b xs) e))));
      right = frame g k before 0 ys t.right (λ a inside.
          same a (λ e. absurd (ground (arith, placed.not_right, ap (λ b. has b ys) e))));
      mid = here;
      spared = λ a no_left no_right other. same a other ∙ t.spared a no_left no_right other;
    }

    pub step_mid_next :
        (after before m n q : Ptr) (g : Heap A)
        → Trio h p v xs ys after before m n g
        → Trio h p v xs ys after before m q (next_to p q g)
    step_mid_next after before m n q g t =
        step_mid after before m n m q g (next_to p q g) t
          (next_to-here g p q (node v m n) placed.filled t.mid) (next_to-apart g p q)

    pub step_mid_prev :
        (after before m n q : Ptr) (g : Heap A)
        → Trio h p v xs ys after before m n g
        → Trio h p v xs ys after before q n (prev_to p q g)
    step_mid_prev after before m n q g t =
        step_mid after before m n q n g (prev_to p q g) t
          (prev_to-here g p q (node v m n) placed.filled t.mid) (prev_to-apart g p q)
