-- ===== src/Dlist/Whole.antt =====
-- a.yanin/common/collections.dlist: `concat` and `free`, which take whole lists.
use posix_threads.Common.{
  ℕ, zero, suc, ◌+◌, ◌^◌, ◌<◌, ◌≡◌, refl, sym, ap, ◌∙◌, ◌≢◌, inl, inr, true, false, none, [], ◌∷◌,
  ◌++◌, arith, ℕ_discrete, if◌then◌else◌, ==_iff, ne→==_false, length, length-append, done, ◌>>=◌,
}
use mathlib.Core.List.{append-nil}
use mathlib.Core.Path.{subst}
use posix_threads.Vec.{u64}
use posix_threads.Dlist.Nodes.{Ptr, node, Heap, write, load}
use posix_threads.Dlist.{Dlist, link, concat, free_nodes, free}
use posix_threads.Dlist.Chain.{Cells, first, last, has, Chain, Apart, join, frame, last-append}
use posix_threads.Dlist.Updates.{
  load-eq-done, Valid, next_to, prev_to, next_to-apart, prev_to-apart,
}
use posix_threads.Dlist.Trio.{last-cases, end_next, start_prev}
use posix_threads.Dlist.Links.{link-eq-done, last_node}
use posix_threads.Dlist.Spec.{IsDlist, Apart-append}
use posix_threads.Dlist.Pluck.{cleared, emptied}

module _ {ℓ} {A : Type ℓ} where
  -- Two chains whose ends have been linked.
  module _ (h : Heap A) (xs ys : Cells A) (left_apart : Apart xs) (right_apart : Apart ys) where
    linked-Chain :
        ((a : Ptr) → has a xs ≡ true → has a ys ≡ false)
        → has (last 0 xs) xs ≡ true
        → has (first 0 ys) ys ≡ true
        → Chain h 0 xs 0
        → Chain h 0 ys 0
        → Chain
            (prev_to (first 0 ys) (last 0 xs) (next_to (last 0 xs) (first 0 ys) h))
            0
            (xs ++ ys)
            0
    linked-Chain sep last_in first_in left right =
        let g = next_to (last 0 xs) (first 0 ys) h in
        let k = prev_to (first 0 ys) (last 0 xs) g in
        join k 0 0 xs ys
          (frame g k 0 (first 0 ys) xs (end_next h 0 0 (first 0 ys) xs left_apart left) (λ a inside.
            prev_to-apart g (first 0 ys) (last 0 xs) a
              (λ e. absurd (ground (arith, sep a inside, first_in, ap (λ b. has b ys) e)))))
          (start_prev g 0 0 (last 0 xs) ys right_apart (
            frame h g 0 0 ys right (λ a inside. next_to-apart h (last 0 xs) (first 0 ys) a (λ e.
              absurd (ground (arith, sep (last 0 xs) last_in, inside, ap (λ b. has b ys) e))))))

    linked-elsewhere :
        has (last 0 xs) xs ≡ true
        → has (first 0 ys) ys ≡ true
        → (a : Ptr) → has a xs ≡ false
        → has a ys ≡ false
        → prev_to (first 0 ys) (last 0 xs) (next_to (last 0 xs) (first 0 ys) h) a ≡ h a
    linked-elsewhere last_in first_in a no_left no_right =
        prev_to-apart (next_to (last 0 xs) (first 0 ys) h) (first 0 ys) (last 0 xs) a
          (λ e. absurd (ground (arith, no_right, first_in, ap (λ b. has b ys) e)))
        ∙ next_to-apart h (last 0 xs) (first 0 ys) a
            (λ e. absurd (ground (arith, no_left, last_in, ap (λ b. has b xs) e)))

  freed_all :
      (fuel : ℕ) (h : Heap A) (before : Ptr) (cells : Cells A)
      → length cells < fuel
      → Apart cells
      → Chain h before cells 0
      → (g : Heap A) × (free_nodes fuel h (first 0 cells) ≡ done g)
        × ((a : Ptr) → has a cells ≡ true → g a ≡ none)
        × ((a : Ptr) → has a cells ≡ false → g a ≡ h a)
  unfolding free_nodes
  freed_all zero h before cells enough apart c = absurd (omega arith)
  freed_all (suc fuel) h before [] enough apart c =
      (h, refl, (λ a inside. absurd (ground (arith, inside))), λ a out. refl)
  freed_all (suc fuel) h before ((p, v) ∷ cells) enough (filled, out, apart) (here, c) =
      let kept = frame h (write h p none) p 0 cells c (λ a inside.
        cleared h p a (λ e. absurd (ground (arith, out, inside, ap (λ b. has b cells) e)))) in
      let (g, run, gone, same) = freed_all fuel (write h p none) p cells (omega arith) apart kept in
      (
        g,
        ap (λ b. if b then done h else (load h p >>= λ n. free_nodes fuel (write h p none) n.next))
              (ne→==_false p 0 filled)
            ∙ ap (λ x. x >>= λ n. free_nodes fuel (write h p none) n.next)
                (load-eq-done h p (node v before (first 0 cells)) filled here)
            ∙ run,
        (λ a inside. elim (ℕ_discrete a p) [
          | yes e ↦ same a (ap (λ b. has b cells) e ∙ out) ∙ ap (write h p none) e ∙ emptied h p
          | no other ↦ gone a (ground (arith, inside, ne→==_false a p other))
        ]),
        λ a outside.
            same a (ground (arith, outside))
            ∙ cleared h p a (λ e. absurd (ground (arith, outside, (==_iff a p).1 e))),
      )

  -- `free` of a list frees every node of it, and leaves what is no node of it as it was.
  pub free-empties :
      (h : Heap A) (l : Dlist) (cells : Cells A)
      → IsDlist h l cells
      → (g : Heap A) × (free h l ≡ done g)
        × ((a : Ptr) → has a cells ≡ true → g a ≡ none)
        × ((a : Ptr) → has a cells ≡ false → g a ≡ h a)
  unfolding free
  free-empties h l cells it =
      let (g, run, gone, same) =
        freed_all (l.len + 1) h 0 cells (omega (arith, it.counted)) it.apart it.chain in
      (g, ap (free_nodes (l.len + 1) h) it.head_first ∙ run, gone, same)

  -- What `concat` leaves.
  pub record Joined (h : Heap A) (xs ys : Cells A) (g : Heap A) (l : Dlist) : Type ℓ where
    pub holds : IsDlist g l (xs ++ ys)
    pub elsewhere : (a : Ptr) → has a xs ≡ false → has a ys ≡ false → g a ≡ h a

  module _ (h : Heap A) (self other : Dlist) where
    concat-filled :
        (x : Ptr × A) (xs : Cells A) (y : Ptr × A) (ys : Cells A)
        → IsDlist h self (x ∷ xs)
        → IsDlist h other (y ∷ ys)
        → Apart ((x ∷ xs) ++ y ∷ ys)
        → ((a : Ptr) → has a (x ∷ xs) ≡ true → has a (y ∷ ys) ≡ false)
        → length ((x ∷ xs) ++ y ∷ ys) < 2 ^ 64
        → (g : Heap A) × (l : Dlist) × (concat h self other ≡ done (g, l))
          × Joined h (x ∷ xs) (y ∷ ys) g l
    unfolding concat
    concat-filled x xs y ys left right apart sep room =
        let cs = x ∷ xs in
        let ds = y ∷ ys in
        let last_in : has (last 0 cs) cs ≡ true = has-last cs left.apart (λ n. absurd (cc n)) in
        let first_in : has (first 0 ds) ds ≡ true = ground (arith, (==_iff y.0 y.0).1 refl) in
        let total = length-append cs ds in
        (
          prev_to (first 0 ds) (last 0 cs) (next_to (last 0 cs) (first 0 ds) h),
          both,
          rw
              (
                ne→==_false other.len 0 (omega (arith, right.counted)),
                ne→==_false self.len 0 (omega (arith, left.counted)),
                left.end_last,
                right.head_first,
              )
              (ap (λ z. z >>= λ g. done (g, both))
                (run left.apart left.chain right.apart right.chain sep last_in first_in)),
          record {
            holds = record {
              chain =
                  linked-Chain h cs ds left.apart right.apart sep last_in first_in left.chain
                    right.chain;
              apart = apart;
              head_first = left.head_first;
              end_last = right.end_last ∙ sym (last-append 0 cs ds);
              counted = omega (arith, left.counted, right.counted, total, room);
              small = room;
            };
            elsewhere = linked-elsewhere h cs ds left.apart right.apart last_in first_in;
          },
        )
      where
        both : Dlist
        both = record { head = self.head; end = other.end; len = u64 (self.len + other.len) }

        has-last : (zs : Cells A) → Apart zs → zs ≢ [] → has (last 0 zs) zs ≡ true
        has-last zs a some_cell = elim (last-cases zs a) [
          | inl e ↦ absurd (some_cell e)
          | inr (nonzero, inside) ↦ inside
        ]

        valid : (zs : Cells A) → Apart zs → Chain h 0 zs 0 → zs ≢ [] → Valid h (last 0 zs)
        valid zs a c some_cell = elim (last_node h 0 0 zs a c) [
          | inl e ↦ absurd (some_cell e)
          | inr n ↦ inr (n.filled, n.it, n.here)
        ]

        run :
            Apart (x ∷ xs)
            → Chain h 0 (x ∷ xs) 0
            → Apart (y ∷ ys)
            → Chain h 0 (y ∷ ys) 0
            → ((a : Ptr) → has a (x ∷ xs) ≡ true → has a (y ∷ ys) ≡ false)
            → has (last 0 (x ∷ xs)) (x ∷ xs) ≡ true
            → has (first 0 (y ∷ ys)) (y ∷ ys) ≡ true
            → link (last 0 (x ∷ xs)) (first 0 (y ∷ ys)) h
              ≡ done (
                  prev_to
                    (first 0 (y ∷ ys))
                    (last 0 (x ∷ xs))
                    (next_to (last 0 (x ∷ xs)) (first 0 (y ∷ ys)) h))
        run a c (filled, out, b) (here, d) sep last_in first_in =
            link-eq-done h (last 0 (x ∷ xs)) y.0 (inr filled)
              (valid (x ∷ xs) a c (λ n. absurd (cc n)))
              (inr (
                filled,
                node y.1 0 (first 0 ys),
                next_to-apart h (last 0 (x ∷ xs)) y.0 y.0 (λ e. absurd (
                      ground (
                        arith,
                        sep (last 0 (x ∷ xs)) last_in,
                        first_in,
                        ap (λ z. has z (y ∷ ys)) e,
                      )))
                    ∙ here,
              ))

    -- `concat` of two lists without a common node gives the list of the cells of the first and then of the
    -- second, and leaves what is no node of them as it was; the length must fit.
    pub concat-Joined :
        (xs ys : Cells A)
        → IsDlist h self xs
        → IsDlist h other ys
        → ((a : Ptr) → has a xs ≡ true → has a ys ≡ false)
        → length (xs ++ ys) < 2 ^ 64
        → (g : Heap A) × (l : Dlist) × (concat h self other ≡ done (g, l)) × Joined h xs ys g l
    unfolding concat
    concat-Joined xs [] left right sep room = (
      h,
      self,
      rw (right.counted) refl,
      record {
        holds = subst (λ cs. IsDlist h self cs) (sym (append-nil xs)) left;
        elsewhere = λ a b c. refl;
      },
    )
    concat-Joined [] (y ∷ ys) left right sep room = (
      h,
      other,
      rw (ne→==_false other.len 0 (omega (arith, right.counted)), left.counted) refl,
      record { holds = right; elsewhere = λ a b c. refl },
    )
    concat-Joined (x ∷ xs) (y ∷ ys) left right sep room =
        concat-filled x xs y ys left right
          (Apart-append (x ∷ xs) (y ∷ ys) left.apart right.apart sep) sep room
