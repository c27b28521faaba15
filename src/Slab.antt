-- ===== src/Slab.antt =====
-- a.yanin/common/collections.slab/include/collections/slab.h: a list whose nodes are slots of a vector.
-- An index is a slot's number plus one, and 0 is no node.
pub mod Tests
use posix_threads.Common.{
  ℕ, zero, suc, ◌+◌, ◌-◌, ◌*◌, ◌/◌, ◌%◌, ◌^◌, ◌≤◌, ◌<◌, min, max, ◌≡◌, refl, sym, ap, ◌∙◌, ◌≢◌, ◌↔◌,
  ◌⊎◌, inl, inr, Bool, true, false, not, ◌&&◌, ◌||◌, Option, none, some, List, [], ◌∷◌, ◌++◌, map,
  arith, dec_lt, dec_le, ℕ_discrete, ltb, leb, ◌==◌, if◌then◌else◌, ltb→lt, lt→ltb, leb→le, ==_iff,
  Bool-cases, Option-cases, le→leb, le→ltb_false, lt→leb_false, ne→==_false, some_inj, none-ne-some,
  get_elem?-set_self, get_elem?-set_ne, out_of_fuel, length, get_elem?, set, length-append,
  length-set, get_or, take, drop, replicate, length-take, length-drop, length-replicate, length-map,
  take-take, take_all, Fault, assertion, out_of_bounds, Outcome, done, stop, ◌>>=◌, ◌>>◌, assert,
  ErrorCode, is_ok,
}
use posix_threads.Vec.{Vec, Allocator, u64, push, write}
use posix_threads.Vec as Vecs

-- `SLAB_NODE_TYPE`
pub record SlabNode {ℓ} (A : Type ℓ) : Type ℓ where
  pub value : A
  pub occupied : Bool
  pub next : ℕ
  pub prev : ℕ

-- `SLAB_TYPE`
pub record Slab {ℓ} (A : Type ℓ) : Type ℓ where
  pub storage : Vec (SlabNode A)
  pub capacity : ℕ
  pub len : ℕ
  pub max_index : ℕ
  pub head : ℕ
  pub end : ℕ

module _ {ℓ} {A : Type ℓ} where
  unfoldable pub new_bounded : ℕ → Slab A
  unfolding Vecs.new
  new_bounded max_index = record {
    storage = Vecs.new;
    capacity = 0;
    len = 0;
    max_index = max_index;
    head = 0;
    end = 0;
  }

  unfoldable pub new : Slab A
  unfolding new_bounded
  new = new_bounded (2 ^ 64 - 1)

  unfoldable pub free : Slab A → Slab A
  unfolding Vecs.free
  free self = record self { storage = Vecs.free self.storage }

  unfoldable pub check_bounds : Slab A → ℕ → Bool
  check_bounds self index = ltb 0 index && leb index self.capacity && leb index self.storage.len

  abbrev filled : Option (Option (SlabNode A)) → Outcome (SlabNode A)
  filled (some (some n)) = done n
  filled _ = stop out_of_bounds

  unfoldable pub get_node : Slab A → ℕ → Outcome (SlabNode A)
  unfolding check_bounds Vecs.get
  get_node self index = do
    assert (check_bounds self index)
    filled (Vecs.get self.storage (index - 1))

  -- a write through the pointer of `get_node_mut`
  unfoldable pub set_node : Slab A → ℕ → (SlabNode A → SlabNode A) → Outcome (Slab A)
  unfolding get_node write
  set_node self index change = do
    n ← get_node self index
    storage ← write self.storage (index - 1) (change n)
    done (record self { storage = storage })

  -- the same if the index is not 0
  abbrev set_if : Slab A → ℕ → (SlabNode A → SlabNode A) → Outcome (Slab A)
  set_if self index change = if index == 0 then done self else set_node self index change

  unfoldable pub get : Slab A → ℕ → Outcome A
  unfolding get_node
  get self index = do n ← get_node self index; done n.value

  unfoldable pub move_to_end : Slab A → ℕ → Outcome (Slab A)
  unfolding check_bounds get_node set_node
  move_to_end self index = do
    assert (check_bounds self index)
    if leb self.len 1 || index == self.end then done self else do
      node ← get_node self index
      head ←
          (if index == self.head
            then (get_node self self.head >>= λ n. done n.next)
            else done self.head)
      s₁ ← set_if (record self { head = head }) node.prev (λ n. record n { next = node.next })
      s₂ ← set_if s₁ node.next (λ n. record n { prev = node.prev })
      s₃ ← set_node s₂ index (λ n. record n { prev = self.end })
      last ← get_node s₃ self.end
      s₄ ← set_node s₃ index (λ n. record n { next = last.next })
      s₅ ← set_node s₄ self.end (λ n. record n { next = index })
      done (record s₅ { end = index })

  unfoldable pub remove : Slab A → ℕ → Outcome (Slab A)
  unfolding check_bounds move_to_end get_node set_node
  remove self index = do
    assert (check_bounds self index)
    moved ← move_to_end self index
    last ← get_node moved moved.end
    assert last.occupied
    s ← set_node moved moved.end (λ n. record n { occupied = false })
    done (record s { end = last.prev; len = u64 (s.len + 2 ^ 64 - 1) })

  -- The loop of `iter_next` on `current`: the index that it finds, and where it goes on.
  unfoldable pub iter_next : ℕ → Slab A → ℕ → Outcome (Option ℕ × ℕ)
  unfolding get_node
  iter_next zero self current = stop out_of_fuel
  iter_next (suc fuel) self current = if current == 0 then done (none, 0) else do
    next ← (if current == self.end then done 0 else (get_node self current >>= λ n. done n.next))
    n ← get_node self current
    if n.occupied then done (some current, next) else iter_next fuel self next

module _ {ℓ} {A : Type ℓ} (grant : Allocator) (size : ℕ) where
  -- the end of `append`, from where the node has been written
  unfoldable pub attach : Slab A → ℕ → Outcome (ErrorCode × Slab A × ℕ)
  unfolding set_node
  attach self node_index = do
    let grown = record self {
      capacity = if leb self.capacity self.len then self.storage.capacity else self.capacity;
    }
    s ← set_if grown self.end (λ n. record n { next = node_index })
    done (
      ErrorCode.ok,
      record s {
        end = node_index;
        len = u64 (s.len + 1);
        head = if s.head == 0 then node_index else s.head;
      },
      node_index,
    )

  -- the branch of `append` that takes a free node
  unfoldable pub reuse : Slab A → A → Outcome (ErrorCode × Slab A × ℕ)
  unfolding get_node set_node attach
  reuse self value = do
    last ← get_node self self.end
    assert (not (last.next == 0))
    n ← get_node self last.next
    assert (not n.occupied)
    s ← set_node self last.next (λ n. record n { value = value; prev = self.end; occupied = true })
    attach s last.next

  unfoldable pub append : Slab A → A → Outcome (ErrorCode × Slab A × ℕ)
  unfolding push reuse attach
  append self value =
      if ltb self.storage.len self.capacity || leb self.capacity self.len
      then (if not (self.max_index == 2 ^ 64 - 1) && self.storage.len == u64 (self.max_index + 1)
          then done (ErrorCode.overflow, self, 0)
          else do
            (code, storage) ←
                push grant size self.storage
                  (record { value = value; occupied = true; next = 0; prev = self.end })
            if is_ok code
                then attach (record self { storage = storage }) storage.len
                else done (code, record self { storage = storage }, 0))
      else reuse self value

  unfoldable pub add_after : Slab A → ℕ → A → Outcome (ErrorCode × Slab A × ℕ)
  unfolding check_bounds append get_node set_node
  add_after self prev_index value = do
    assert (check_bounds self prev_index)
    (code, s, node_index) ← append self value
    if not (is_ok code) then done (code, s, 0) else do
      node ← get_node s node_index
      prev ← get_node s prev_index
      if prev_index == node.prev then done (ErrorCode.ok, s, 0) else do
        s₁ ← set_node (record s { end = node.prev }) prev.next (λ n. record n { prev = node_index })
        node₁ ← get_node s₁ node_index
        s₂ ← set_node s₁ node₁.prev (λ n. record n { next = node₁.next })
        prev₂ ← get_node s₂ prev_index
        s₃ ← set_node s₂ node_index (λ n. record n { next = prev₂.next })
        s₄ ← set_node s₃ prev_index (λ n. record n { next = node_index })
        s₅ ← set_node s₄ node_index (λ n. record n { prev = prev_index })
        done (ErrorCode.ok, s₅, node_index)
