-- ===== src/Hash.antt =====
-- a.yanin/common/collections.hash/include/common/collections/hash.h: the hash table with open
-- addressing and double hashing. A slot that was never used has no key and no value that is read.
pub mod Bytes
pub mod Counts
pub mod Pairs
pub mod Apart
pub mod Refill
pub mod Others
pub mod Maps
pub mod Updates
pub mod Steps
pub mod Index
pub mod Lookup
pub mod Invariant
pub mod Insertion
pub mod Removal
pub mod Tests
use posix_threads.Common.{
  out_of_fuel, ℕ, zero, suc, ◌+◌, ◌-◌, ◌*◌, ◌/◌, ◌%◌, ◌^◌, Bool, true, false, not, Option, none,
  some, List, [], ◌∷◌, ltb, leb, ◌==◌, if◌then◌else◌, get_elem?, set, take, replicate, assertion,
  out_of_bounds, Outcome, done, stop, ◌>>=◌, ◌>>◌, assert, ErrorCode, is_ok,
}
use posix_threads.Vec.{Allocator, u64}

-- `element_state_t`, with the key and the value of the slot
pub data Slot {ℓ κ} (K : Type ℓ) (V : Type κ) : Type (ℓ ⊔ κ) where
  free : Slot K V
  deleted : K → V → Slot K V
  occupied : K → V → Slot K V

pub record Hash {ℓ κ} (K : Type ℓ) (V : Type κ) : Type (ℓ ⊔ κ) where
  pub storage : List (Slot K V)
  pub capacity : ℕ
  pub len : ℕ
  pub non_free_entries : ℕ
  pub rehashing : Bool

-- The quotient of the two numbers is at least 1/2.
unfoldable pub should_rehash : ℕ → ℕ → Outcome Bool
should_rehash non_free_entries capacity = do
  assert (ltb 0 capacity)
  done (leb capacity (2 * non_free_entries))

-- `offset`, which is 0 before the first collision
abbrev pub next_offset : ℕ → ℕ → ℕ → ℕ
next_offset capacity second offset =
    if not (offset == 0) then offset else if second % capacity == 0 then 1 else second % capacity

module _ {ℓ κ} {K : Type ℓ} {V : Type κ} where
  -- a fresh storage, which is being filled
  abbrev pub empty_map : ℕ → Hash K V
  empty_map capacity = record {
    storage = replicate capacity Slot.free;
    capacity = capacity;
    len = 0;
    non_free_entries = 0;
    rehashing = true;
  }

  -- a table before its first allocation
  abbrev pub unallocated : Hash K V
  unallocated = record {
    storage = [];
    capacity = 0;
    len = 0;
    non_free_entries = 0;
    rehashing = false;
  }

  abbrev pub value_in : Option (Slot K V) → Option V
  value_in (some (Slot.occupied k v)) = some v
  value_in _ = none

  -- the part of `remove` behind the search
  abbrev pub remove_slot : Hash K V → ℕ → Option (Slot K V) → ErrorCode × Hash K V × Option (K × V)
  remove_slot h pos (some (Slot.occupied k v)) = (
    ErrorCode.ok,
    record h { storage = set h.storage pos (Slot.deleted k v); len = u64 (h.len + 2 ^ 64 - 1) },
    some (k, v),
  )
  remove_slot h pos _ = (ErrorCode.not_found, h, none)

  -- `free` leaves the count of used slots as it is.
  unfoldable pub free_storage : Hash K V → Hash K V
  free_storage h = record h { storage = []; len = 0; capacity = 0 }

  -- `for_each`, with a callback that changes its opaque data and may stop
  unfoldable pub for_each_slot {ι} : {S : Type ι} → (K → V → S → S × Bool) → List (Slot K V) → S → S
  for_each_slot callback [] data_of = data_of
  for_each_slot callback (Slot.occupied k v ∷ slots) data_of =
      let (next, halt) = callback k v data_of in
      if halt then next else for_each_slot callback slots next
  for_each_slot callback (_ ∷ slots) data_of = for_each_slot callback slots data_of

  unfoldable pub for_each {ι} : {S : Type ι} → Hash K V → (K → V → S → S × Bool) → S → S
  unfolding for_each_slot
  for_each h callback data_of = for_each_slot callback (take h.capacity h.storage) data_of

module _ {ℓ κ} {K : Type ℓ} {V : Type κ} (eq : K → K → Bool) where
  -- the three tests that break the loop of `index_for_key`
  unfoldable pub ends_probe : K → Bool → Slot K V → Bool
  ends_probe key skip_deleted Slot.free = true
  ends_probe key skip_deleted (Slot.deleted k v) = not skip_deleted
  ends_probe key skip_deleted (Slot.occupied k v) = eq key k

  -- the loop; `second` is the answer of the secondary hasher, which is asked at the first collision
  unfoldable pub probe : ℕ → Hash K V → K → ℕ → Bool → ℕ → ℕ → Outcome ℕ
  unfolding ends_probe
  probe zero h key second skip index offset = stop out_of_fuel
  probe (suc fuel) h key second skip index offset = elim (get_elem? h.storage index) [
    | none ↦ stop out_of_bounds
    | some slot ↦ elim (ends_probe key skip slot) [
      | true ↦ done index
      | false ↦
          let next = next_offset h.capacity second offset in
          probe fuel h key second skip (u64 (index + next) % h.capacity) next
    ]
  ]

-- The hashers, with their opaque data, and the comparison.
pub record Hashers {ℓ} (K : Type ℓ) : Type ℓ where
  pub primary : K → ℕ
  pub secondary : K → ℕ
  pub eq : K → K → Bool

module _ {ℓ κ} {K : Type ℓ} {V : Type κ} (hashers : Hashers K) where
  -- Without capacity the remainder is that of a division by 0.
  unfoldable pub index_for_key : Hash K V → K → Bool → Outcome ℕ
  unfolding probe
  index_for_key h key skip_deleted =
      if h.capacity == 0
      then stop out_of_bounds
      else probe hashers.eq h.capacity h key (hashers.secondary key) skip_deleted
          (hashers.primary key % h.capacity) 0

  -- the part of `insert` behind the call of `rehash`
  unfoldable pub store : Hash K V → K → V → Outcome (Hash K V)
  unfolding index_for_key
  store h key value = do
    pos ← index_for_key h key false
    done (record h {
      storage = set h.storage pos (Slot.occupied key value);
      len = u64 (h.len + 1);
      non_free_entries = u64 (h.non_free_entries + 1);
    })

  -- `insert` while `rehashing`: another `rehash` stops at its assertion.
  unfoldable pub reinsert : Hash K V → K → V → Outcome (Hash K V)
  unfolding should_rehash store
  reinsert h key value = do
    full ← should_rehash h.non_free_entries h.capacity
    assert (not full)
    store h key value

  unfoldable pub reinsert_all : List (Slot K V) → Hash K V → Outcome (Hash K V)
  unfolding reinsert
  reinsert_all [] h = done h
  reinsert_all (Slot.free ∷ slots) h = reinsert_all slots h
  reinsert_all (Slot.deleted k v ∷ slots) h = reinsert_all slots h
  reinsert_all (Slot.occupied k v ∷ slots) h = reinsert h k v >>= reinsert_all slots

  unfoldable pub remove : Hash K V → K → Outcome (ErrorCode × Hash K V × Option (K × V))
  unfolding index_for_key
  remove h key = do
    pos ← index_for_key h key true
    done (remove_slot h pos (get_elem? h.storage pos))

  -- `get`, and the value behind its pointer
  unfoldable pub get : Hash K V → K → Outcome (Option V)
  unfolding index_for_key
  get h key = do pos ← index_for_key h key true; done (value_in (get_elem? h.storage pos))

-- the capacity that `rehash` asks for
abbrev pub enlarged : ℕ → ℕ
enlarged capacity = if u64 (capacity * 2) == 0 then 8 else u64 (capacity * 2)

-- `calloc` is asked for slots of `size` bytes.
module _ {ℓ κ} {K : Type ℓ} {V : Type κ} (hashers : Hashers K) (grant : Allocator) (size : ℕ) where
  unfoldable pub rehash : Hash K V → Outcome (ErrorCode × Hash K V)
  unfolding reinsert_all
  rehash h = do
    assert (not h.rehashing)
    let new_capacity = enlarged h.capacity
    if grant (new_capacity * size)
        then (reinsert_all hashers (take h.capacity h.storage) (empty_map new_capacity) >>= λ g.
            done (ErrorCode.ok, record g { rehashing = false }))
        else done (ErrorCode.memory_allocation_failure, h)

  unfoldable pub new : Outcome (ErrorCode × Hash K V)
  unfolding rehash
  new = rehash unallocated

  unfoldable pub insert : Hash K V → K → V → Outcome (ErrorCode × Hash K V)
  unfolding should_rehash rehash store
  insert h key value = do
    full ← should_rehash h.non_free_entries h.capacity
    (code, g) ← (if full then rehash h else done (ErrorCode.ok, h))
    if is_ok code then (store hashers g key value >>= λ u. done (code, u)) else done (code, g)
