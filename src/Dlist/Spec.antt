-- ===== src/Dlist/Spec.antt =====
-- When the heap holds the list of a.yanin/common/collections.dlist with certain cells, and the walk of
-- `contains` through it.
use posix_threads.Common.{
  ℕ, zero, suc, ◌+◌, ◌^◌, ◌<◌, ◌≡◌, refl, sym, ap, ◌∙◌, ◌≢◌, inl, inr, true, false, none, [], ◌∷◌,
  ◌++◌, arith, ℕ_discrete, ==_iff, Bool-cases, ne→==_false, none-ne-some, length, done,
}
use posix_threads.Dlist.Nodes.{Ptr, Heap}
use posix_threads.Dlist.{Dlist, walk, contains}
use posix_threads.Dlist.Chain.{Cells, first, last, has, Chain, Apart, has-append}
use posix_threads.Dlist.Updates.{load-eq-done}
use posix_threads.Dlist.Trio.{Placed}

module _ {ℓ} {A : Type ℓ} where
  -- The list has the cells, in order.
  pub record IsDlist (h : Heap A) (l : Dlist) (cells : Cells A) : Type ℓ where
    pub chain : Chain h 0 cells 0
    pub apart : Apart cells
    pub head_first : l.head ≡ first 0 cells
    pub end_last : l.end ≡ last 0 cells
    pub counted : l.len ≡ length cells
    pub small : length cells < 2 ^ 64

  pub Apart-left : (xs ys : Cells A) → Apart (xs ++ ys) → Apart xs
  Apart-left [] ys apart = tt
  Apart-left ((p, v) ∷ xs) ys (filled, out, apart) =
      (filled, ground (arith, has-append p xs ys), Apart-left xs ys apart)

  pub Apart-right : (xs ys : Cells A) → Apart (xs ++ ys) → Apart ys
  Apart-right [] ys apart = apart
  Apart-right ((p, v) ∷ xs) ys (filled, out, apart) = Apart-right xs ys apart

  pub disjoint :
      (xs ys : Cells A) → Apart (xs ++ ys) → (a : Ptr) → has a xs ≡ true → has a ys ≡ false
  disjoint [] ys apart a inside = absurd (ground arith)
  disjoint ((p, v) ∷ xs) ys (filled, out, apart) a inside = elim (ℕ_discrete a p) [
    | yes same ↦ ground (arith, has-append p xs ys, ap (λ b. has b ys) same)
    | no other ↦ disjoint xs ys apart a (ground (arith, ne→==_false a p other))
  ]

  pub Apart-append :
      (xs ys : Cells A)
      → Apart xs
      → Apart ys
      → ((a : Ptr) → has a xs ≡ true → has a ys ≡ false)
      → Apart (xs ++ ys)
  Apart-append [] ys left right sep = right
  Apart-append ((p, v) ∷ xs) ys (filled, out, apart) right sep = (
    filled,
    ground (arith, has-append p xs ys, sep p (ground arith)),
    Apart-append xs ys apart right (λ a inside. sep a (ground arith)),
  )

  pub Placed-cells :
      (p : Ptr) (v : A) (xs ys : Cells A) → Apart (xs ++ (p, v) ∷ ys) → Placed p xs ys
  Placed-cells p v xs ys apart =
      let (filled, out, rest) = Apart-right xs ((p, v) ∷ ys) apart in
      let sep = disjoint xs ((p, v) ∷ ys) apart in
      record {
        filled = filled;
        left_apart = Apart-left xs ((p, v) ∷ ys) apart;
        right_apart = rest;
        disjoint = λ a inside. ground (arith, sep a inside);
        not_left = elim (Bool-cases (has p xs)) [
          | inl inside ↦ absurd (ground (arith, sep p inside))
          | inr outside ↦ outside
        ];
        not_right = out;
      }

  pub Placed-Apart :
      (p : Ptr) (v : A) (xs ys : Cells A) → Placed p xs ys → Apart (xs ++ (p, v) ∷ ys)
  Placed-Apart p v xs ys s =
      Apart-append xs ((p, v) ∷ ys) s.left_apart (s.filled, s.not_right, s.right_apart)
        (λ a inside. elim (ℕ_discrete a p) [
          | yes same ↦ absurd (ground (arith, s.not_left, ap (λ b. has b xs) same))
          | no other ↦ ground (arith, ne→==_false a p other, s.disjoint a inside)
        ])

  -- An address without a node is not in the chain.
  pub has-fresh :
      (h : Heap A) (before after a : Ptr) (cells : Cells A)
      → Chain h before cells after
      → h a ≡ none
      → has a cells ≡ false
  has-fresh h before after a [] c unused = refl
  has-fresh h before after a ((p, v) ∷ cells) (here, c) unused = elim (ℕ_discrete a p) [
    | yes same ↦ absurd (none-ne-some (sym unused ∙ ap h same ∙ here))
    | no other ↦ ground (arith, ne→==_false a p other, has-fresh h p after a cells c unused)
  ]

  walk-Chain :
      (fuel : ℕ) (h : Heap A) (before target : Ptr) (cells : Cells A)
      → length cells < fuel
      → Apart cells
      → Chain h before cells 0
      → walk fuel h (first 0 cells) target ≡ done (has target cells)
  unfolding walk
  walk-Chain zero h before target cells enough apart c = absurd (omega arith)
  walk-Chain (suc fuel) h before target [] enough apart c = refl
  walk-Chain (suc fuel) h before target ((p, v) ∷ cells) enough (filled, out, apart) (here, c) =
      elim (ℕ_discrete p target) [
        | yes same ↦
            rw (ne→==_false p 0 filled, (==_iff p target).1 same, (==_iff target p).1 (sym same))
              refl
        | no other ↦
            rw
              (
                ne→==_false p 0 filled,
                ne→==_false p target other,
                ne→==_false target p (λ e. other (sym e)),
                load-eq-done h p _ filled here,
              )
              (walk-Chain fuel h p target cells (omega arith) apart c)
      ]

  -- `contains` tells whether an address is one of the cells.
  pub contains-eq-done :
      (h : Heap A) (l : Dlist) (target : Ptr) (cells : Cells A)
      → target ≢ 0
      → Chain h 0 cells 0
      → Apart cells
      → l.head ≡ first 0 cells
      → l.len ≡ length cells
      → contains h l target ≡ done (has target cells)
  unfolding contains
  contains-eq-done h l target cells filled c apart head_first counted =
      rw (ne→==_false target 0 filled, head_first)
        (walk-Chain (l.len + 1) h 0 target cells (omega (arith, counted)) apart c)
