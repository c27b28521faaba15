-- ===== src/Dlist.antt =====
-- a.yanin/common/collections.dlist/include/common/collections/dlist.h: the doubly linked list. The list
-- itself is a value; its nodes are in the heap. Each walk takes fuel, one unit for each node and one
-- for the end.
pub mod Nodes
pub mod Moves
pub mod Chain
pub mod Updates
pub mod Trio
pub mod Spec
pub mod Links
pub mod Splice
pub mod Insert
pub mod Pluck
pub mod Whole
pub mod Tests
use posix_threads.Common.{
  ℕ, zero, suc, ◌+◌, ◌-◌, ◌*◌, ◌/◌, ◌%◌, ◌^◌, ◌≤◌, ◌<◌, min, max, ◌≡◌, refl, sym, ap, ◌∙◌, ◌≢◌, ◌↔◌,
  ◌⊎◌, inl, inr, Bool, true, false, not, ◌&&◌, ◌||◌, Option, none, some, List, [], ◌∷◌, ◌++◌, map,
  arith, dec_lt, dec_le, ℕ_discrete, ltb, leb, ◌==◌, if◌then◌else◌, ltb→lt, lt→ltb, leb→le, ==_iff,
  Bool-cases, Option-cases, le→leb, le→ltb_false, lt→leb_false, ne→==_false, some_inj, none-ne-some,
  get_elem?-set_self, get_elem?-set_ne, out_of_fuel, length, get_elem?, set, length-append,
  length-set, get_or, take, drop, replicate, length-take, length-drop, length-replicate, length-map,
  take-take, take_all, Fault, assertion, out_of_bounds, Outcome, done, stop, ◌>>=◌, ◌>>◌, assert,
  ErrorCode, is_ok,
}
use posix_threads.Vec.{u64}
use posix_threads.Dlist.Nodes.{Ptr, Node, node, Heap, write, load, set_next, set_prev}

-- `DLIST_TYPE`
pub record Dlist : Type 0 where
  pub head : Ptr
  pub end : Ptr
  pub len : ℕ

unfoldable pub new : Dlist
new = record { head = 0; end = 0; len = 0 }

-- `if (p != NULL)` before a statement
abbrev pub unless_null {ℓ} : {B : Type ℓ} → Ptr → (B → Outcome B) → B → Outcome B
unless_null p act h = if p == 0 then done h else act h

module _ {ℓ} {A : Type ℓ} where
  -- the loop of `contains`
  unfoldable pub walk : ℕ → Heap A → Ptr → Ptr → Outcome Bool
  walk zero h n target = stop out_of_fuel
  walk (suc fuel) h n target =
      if n == 0
      then done false
      else if n == target
      then done true
      else do c ← load h n; walk fuel h c.next target

  unfoldable pub contains : Heap A → Dlist → Ptr → Outcome Bool
  unfolding walk
  contains h self target = do assert (not (target == 0)); walk (self.len + 1) h self.head target

  unfoldable pub link : Ptr → Ptr → Heap A → Outcome (Heap A)
  unfolding set_next set_prev
  link prev next h = do
    assert (not (prev == 0 && next == 0))
    g ← unless_null prev (set_next prev next) h
    unless_null next (set_prev next prev) g

  -- `next->prev->next = next->next`
  unfoldable pub bypass : Ptr → Node A → Heap A → Outcome (Heap A)
  unfolding load set_next
  bypass next n h = do p ← load h n.prev; assert (p.next == next); set_next n.prev n.next h

  unfoldable pub unlink_prev : Ptr → Heap A → Outcome (Heap A)
  unfolding bypass set_prev load
  unlink_prev next h = do
    n ← load h next
    assert (not (n.next == next))
    g ← unless_null n.prev (bypass next n) h
    set_prev next 0 g

  unfoldable pub unlink_both : Ptr → Heap A → Outcome (Heap A)
  unfolding set_next set_prev load
  unlink_both p h = do
    n ← load h p
    g ← unless_null n.prev (set_next n.prev n.next) h
    k ← unless_null n.next (set_prev n.next n.prev) g
    m ← load k p
    done (write k p (some (node m.value 0 0)))

  -- the node behind `prev`, which must be in the list, or the first one
  unfoldable pub successor : Heap A → Dlist → Ptr → Outcome Ptr
  unfolding contains load
  successor h self prev =
      if prev == 0
      then done self.head
      else do found ← contains h self prev; assert found; n ← load h prev; done n.next

  -- the writes of `insert_after`, once `fresh` has been allocated and `next` is known
  unfoldable pub splice : Heap A → Ptr → Ptr → Ptr → Outcome (Heap A)
  unfolding unlink_prev link
  splice h fresh prev next = do
    g ← unless_null next (unlink_prev next) h
    k ← link prev fresh g
    link fresh next k

  -- `fresh` is what `malloc` answers.
  unfoldable pub insert_after :
      Ptr → Heap A → Dlist → A → Ptr → Outcome (ErrorCode × Heap A × Dlist)
  unfolding successor splice
  insert_after fresh h self value prev =
      if fresh == 0 then done (ErrorCode.memory_allocation_failure, h, self) else do
        let grown = write h fresh (some (node value 0 0))
        next ← successor grown self prev
        g ← splice grown fresh prev next
        done (
          ErrorCode.ok,
          g,
          record {
            head = if prev == 0 then fresh else self.head;
            end = if next == 0 then fresh else self.end;
            len = u64 (self.len + 1);
          },
        )

  unfoldable pub append : Ptr → Heap A → Dlist → A → Outcome (ErrorCode × Heap A × Dlist)
  unfolding insert_after
  append fresh h self value = insert_after fresh h self value self.end

  unfoldable pub insert_before :
      Ptr → Heap A → Dlist → A → Ptr → Outcome (ErrorCode × Heap A × Dlist)
  unfolding append insert_after load
  insert_before fresh h self value next =
      if next == 0
      then append fresh h self value
      else do n ← load h next; insert_after fresh h self value n.prev

  -- `head` and `end` of `pluck`, moved off the node that leaves
  unfoldable pub detach : Heap A → Dlist → Ptr → Outcome Dlist
  unfolding load
  detach h self p = do
    n ← load h p
    done (record self {
      head = if p == self.head then n.next else self.head;
      end = if p == self.end then n.prev else self.end;
    })

  unfoldable pub pluck : Heap A → Dlist → Ptr → Outcome (Heap A × Dlist × Dlist)
  unfolding contains detach unlink_both
  pluck h self p = do
    found ← contains h self p
    assert found
    shorter ← detach h self p
    g ← unlink_both p h
    let rest = record shorter { len = u64 (self.len + 2 ^ 64 - 1) }
    still ← contains g rest p
    assert (not still)
    done (g, rest, record { head = p; end = p; len = 1 })

  unfoldable pub remove : Heap A → Dlist → Ptr → Outcome (A × Heap A × Dlist)
  unfolding contains pluck load
  remove h self p = do
    found ← contains h self p
    assert found
    (g, rest, out) ← pluck h self p
    n ← load g p
    done (n.value, write g p none, rest)

  -- the loop of `free`
  unfoldable pub free_nodes : ℕ → Heap A → Ptr → Outcome (Heap A)
  unfolding load
  free_nodes zero h p = stop out_of_fuel
  free_nodes (suc fuel) h p =
      if p == 0 then done h else do n ← load h p; free_nodes fuel (write h p none) n.next

  unfoldable pub free : Heap A → Dlist → Outcome (Heap A)
  unfolding free_nodes
  free h self = free_nodes (self.len + 1) h self.head

  unfoldable pub next : Heap A → Ptr → Outcome Ptr
  unfolding load
  next h p = if p == 0 then done 0 else (load h p >>= λ n. done n.next)

  unfoldable pub prev : Heap A → Ptr → Outcome Ptr
  unfolding load
  prev h p = if p == 0 then done 0 else (load h p >>= λ n. done n.prev)

  unfoldable pub get : Heap A → Ptr → Outcome A
  unfolding load
  get h p = do assert (not (p == 0)); n ← load h p; done n.value

  unfoldable pub concat : Heap A → Dlist → Dlist → Outcome (Heap A × Dlist)
  unfolding link
  concat h self other =
      if other.len == 0 then done (h, self) else if self.len == 0 then done (h, other) else do
        g ← link self.end other.head h
        done (g, record { head = self.head; end = other.end; len = u64 (self.len + other.len) })
