-- ===== src/Dlist/Chain.antt =====
-- Chains of nodes: what a.yanin/common/collections.dlist keeps between two pointers.
use posix_threads.Common.{
  ◌≡◌, refl, ◌∙◌, ◌≢◌, Bool, true, false, ◌||◌, some, List, [], ◌∷◌, ◌++◌, arith, ◌==◌,
}
use posix_threads.Dlist.Nodes.{Ptr, node, Heap}

-- what a list stands for: the address and the value of each node, in order
abbrev pub Cells {ℓ} : Type ℓ → Type ℓ
Cells A = List (Ptr × A)

module _ {ℓ} {A : Type ℓ} where
  -- the first address of the cells, or `after` if there are none
  abbrev pub first : Ptr → Cells A → Ptr
  first after [] = after
  first after ((p, v) ∷ xs) = p

  -- the last address of the cells, or `before` if there are none
  abbrev pub last : Ptr → Cells A → Ptr
  last before [] = before
  last before ((p, v) ∷ xs) = last p xs

  abbrev pub has : Ptr → Cells A → Bool
  has a [] = false
  has a ((p, v) ∷ xs) = (a == p) || has a xs

  -- Each cell is a node whose pointers lead to its neighbours, from `before` to `after`.
  abbrev pub Chain : Heap A → Ptr → Cells A → Ptr → Type ℓ
  Chain h before [] after = Unit
  Chain h before ((p, v) ∷ xs) after =
      (h p ≡ some (node v before (first after xs))) × Chain h p xs after

  -- The addresses differ, and none is `NULL`.
  abbrev pub Apart : Cells A → Type 0
  Apart [] = Unit
  Apart ((p, v) ∷ xs) = (p ≢ 0) × (has p xs ≡ false) × Apart xs

  pub first-append :
      (after : Ptr) (xs ys : Cells A) → first after (xs ++ ys) ≡ first (first after ys) xs
  first-append after [] ys = refl
  first-append after (x ∷ xs) ys = refl

  pub last-append :
      (before : Ptr) (xs ys : Cells A) → last before (xs ++ ys) ≡ last (last before xs) ys
  last-append before [] ys = refl
  last-append before (x ∷ xs) ys = last-append x.0 xs ys

  pub has-append : (a : Ptr) (xs ys : Cells A) → has a (xs ++ ys) ≡ (has a xs || has a ys)
  has-append a [] ys = refl
  has-append a (x ∷ xs) ys = ground (arith, has-append a xs ys)

  pub split :
      (h : Heap A) (before after : Ptr) (xs ys : Cells A)
      → Chain h before (xs ++ ys) after
      → Chain h before xs (first after ys) × Chain h (last before xs) ys after
  split h before after [] ys c = (tt, c)
  split h before after ((p, v) ∷ xs) ys (here, rest) =
      let (left, right) = split h p after xs ys rest in
      ((rw (first-append after xs ys) at here, left), right)

  pub join :
      (h : Heap A) (before after : Ptr) (xs ys : Cells A)
      → Chain h before xs (first after ys)
      → Chain h (last before xs) ys after
      → Chain h before (xs ++ ys) after
  join h before after [] ys c d = d
  join h before after ((p, v) ∷ xs) ys (here, rest) d =
      (rw (first-append after xs ys) here, join h p after xs ys rest d)

  -- A chain survives a change that spares its nodes.
  pub frame :
      (h g : Heap A) (before after : Ptr) (xs : Cells A)
      → Chain h before xs after
      → ((a : Ptr) → has a xs ≡ true → g a ≡ h a)
      → Chain g before xs after
  frame h g before after [] c same = tt
  frame h g before after ((p, v) ∷ xs) (here, rest) same =
      (same p (ground arith) ∙ here, frame h g p after xs rest (λ a i. same a (ground arith)))
