-- ===== src/Dlist/Nodes.antt =====
-- The nodes of a.yanin/common/collections.dlist, dlist.h, at their addresses; 0 is `NULL`.
use posix_threads.Common.{
  ℕ, Option, none, some, ◌==◌, if◌then◌else◌, out_of_bounds, Outcome, done, stop, ◌>>=◌,
}

abbrev pub Ptr : Type 0
Ptr = ℕ

-- `node_t`
pub record Node {ℓ} (A : Type ℓ) : Type ℓ where
  pub value : A
  pub prev : Ptr
  pub next : Ptr

abbrev pub node {ℓ} : {A : Type ℓ} → A → Ptr → Ptr → Node A
node v p q = record { value = v; prev = p; next = q }

-- `none` is memory that holds no node.
abbrev pub Heap {ℓ} : Type ℓ → Type ℓ
Heap A = Ptr → Option (Node A)

module _ {ℓ} {A : Type ℓ} where
  unfoldable pub write : Heap A → Ptr → Option (Node A) → Heap A
  write h p c a = if a == p then c else h a

  -- `*p`
  unfoldable pub load : Heap A → Ptr → Outcome (Node A)
  load h p =
      if p == 0
      then stop out_of_bounds
      else elim (h p) [ none ↦ stop out_of_bounds | some n ↦ done n ]

  -- `p->next = q`
  unfoldable pub set_next : Ptr → Ptr → Heap A → Outcome (Heap A)
  set_next p q h = do n ← load h p; done (write h p (some (node n.value n.prev q)))

  -- `p->prev = q`
  unfoldable pub set_prev : Ptr → Ptr → Heap A → Outcome (Heap A)
  set_prev p q h = do n ← load h p; done (write h p (some (node n.value q n.next)))
