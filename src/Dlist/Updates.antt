-- ===== src/Dlist/Updates.antt =====
-- The writes through pointers of a.yanin/common/collections.dlist, as total functions on the heap.
use posix_threads.Common.{
  ◌≡◌, refl, sym, ap, ◌∙◌, ◌≢◌, ◌⊎◌, inl, inr, Option, none, some, arith, ◌==◌, if◌then◌else◌,
  ==_iff, ne→==_false, done,
}
use posix_threads.Dlist.Nodes.{Ptr, Node, node, Heap, write, load, set_next, set_prev}
use posix_threads.Dlist.{unless_null}

module _ {ℓ} {A : Type ℓ} where
  -- `p` is `NULL` or names a node.
  abbrev pub Valid : Heap A → Ptr → Type ℓ
  Valid h p = (p ≡ 0) ⊎ ((p ≢ 0) × (n : Node A) × (h p ≡ some n))

  abbrev retarget : (Node A → Node A) → Option (Node A) → Option (Node A)
  retarget f none = none
  retarget f (some n) = some (f n)

  -- `p->next = q` and `p->prev = q`, unless `p` is `NULL`
  unfoldable pub next_to : Ptr → Ptr → Heap A → Heap A
  unfolding write
  next_to p q h = if p == 0 then h else write h p (retarget (λ n. node n.value n.prev q) (h p))

  unfoldable pub prev_to : Ptr → Ptr → Heap A → Heap A
  unfolding write
  prev_to p q h = if p == 0 then h else write h p (retarget (λ n. node n.value q n.next) (h p))

  pub load-eq-done : (h : Heap A) (p : Ptr) (n : Node A) → p ≢ 0 → h p ≡ some n → load h p ≡ done n
  unfolding load
  load-eq-done h p n filled here = rw (ne→==_false p 0 filled, here) refl

  pub set_next-eq-done :
      (h : Heap A) (p q : Ptr) → Valid h p → unless_null p (set_next p q) h ≡ done (next_to p q h)
  unfolding set_next next_to
  set_next-eq-done h p q (inl null) = rw null refl
  set_next-eq-done h p q (inr (filled, n, here)) =
      rw (ne→==_false p 0 filled, load-eq-done h p n filled here, here) refl

  pub set_prev-eq-done :
      (h : Heap A) (p q : Ptr) → Valid h p → unless_null p (set_prev p q) h ≡ done (prev_to p q h)
  unfolding set_prev prev_to
  set_prev-eq-done h p q (inl null) = rw null refl
  set_prev-eq-done h p q (inr (filled, n, here)) =
      rw (ne→==_false p 0 filled, load-eq-done h p n filled here, here) refl

  -- the write without the test for `NULL`
  pub set_prev-filled :
      (h : Heap A) (p q : Ptr) → p ≢ 0 → Valid h p → set_prev p q h ≡ done (prev_to p q h)
  set_prev-filled h p q filled valid =
      sym (ap (λ b. if b then done h else set_prev p q h) (ne→==_false p 0 filled))
      ∙ set_prev-eq-done h p q valid

  pub next_to-here :
      (h : Heap A) (p q : Ptr) (n : Node A)
      → p ≢ 0
      → h p ≡ some n
      → next_to p q h p ≡ some (node n.value n.prev q)
  unfolding next_to write
  next_to-here h p q n filled here = rw (ne→==_false p 0 filled, (==_iff p p).1 refl, here) refl

  pub prev_to-here :
      (h : Heap A) (p q : Ptr) (n : Node A)
      → p ≢ 0
      → h p ≡ some n
      → prev_to p q h p ≡ some (node n.value q n.next)
  unfolding prev_to write
  prev_to-here h p q n filled here = rw (ne→==_false p 0 filled, (==_iff p p).1 refl, here) refl

  pub next_to-apart : (h : Heap A) (p q a : Ptr) → a ≢ p → next_to p q h a ≡ h a
  unfolding next_to write
  next_to-apart h p q a other = ground arith

  pub prev_to-apart : (h : Heap A) (p q a : Ptr) → a ≢ p → prev_to p q h a ≡ h a
  unfolding prev_to write
  prev_to-apart h p q a other = ground arith

  pub next_to-null : (h : Heap A) (p q : Ptr) → p ≡ 0 → next_to p q h ≡ h
  unfolding next_to
  next_to-null h p q null = rw null refl

  pub prev_to-null : (h : Heap A) (p q : Ptr) → p ≡ 0 → prev_to p q h ≡ h
  unfolding prev_to
  prev_to-null h p q null = rw null refl
