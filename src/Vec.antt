-- ===== src/Vec.antt =====
-- a.yanin/common/collections.vec/include/common/collections/vec.h: the growing array.
-- The storage is a list of slots, `none` being a slot that has not been written or is torn.
pub mod Slots
pub mod Shift
pub mod Grow
pub mod Edit
pub mod Tests
unfoldable pub use Slots.{resize_slots, fetch, put, torn, copy_slots, move_bytes}
use posix_threads.Common.{
  ℕ, zero, suc, ◌+◌, ◌-◌, ◌*◌, ◌/◌, ◌%◌, ◌^◌, List, [], ◌∷◌, ◌++◌, Option, none, some, Bool, true,
  false, not, ltb, leb, ◌==◌, if◌then◌else◌, take, drop, set, get_elem?, length, Outcome, done,
  stop, out_of_bounds, assert, ◌>>=◌, ◌>>◌, ErrorCode, is_ok,
}

-- arithmetic in `size_t`
abbrev pub u64 : ℕ → ℕ
u64 n = n % 2 ^ 64

pub record Vec {ℓ} (A : Type ℓ) : Type ℓ where
  pub storage : List (Option A)
  pub capacity : ℕ
  pub len : ℕ

-- `realloc` and `malloc`: whether a request for so many bytes is granted.
abbrev pub Allocator : Type 0
Allocator = ℕ → Bool

module _ {ℓ} {A : Type ℓ} where
  unfoldable pub new : Vec A
  new = record { storage = []; capacity = 0; len = 0 }

  -- `free(NULL)` is skipped: without storage the fields keep their values.
  unfoldable pub free : Vec A → Vec A
  free v = if length v.storage == 0 then v else record { storage = []; capacity = 0; len = 0 }

  unfoldable pub from_raw : List (Option A) → ℕ → ℕ → Outcome (Vec A)
  from_raw buf capacity len = do
    assert (if capacity == 0 then length buf == 0 else not (length buf == 0))
    assert (leb len capacity)
    done (record { storage = buf; capacity = capacity; len = len })

  -- the writes of `insert`, after the capacity has been seen to
  unfoldable pub shift_in : Vec A → ℕ → A → Outcome (Vec A)
  shift_in v pos value = do
    written ←
        (copy_slots (pos + 1) pos (v.len - pos) v.storage >>= λ moved.
        put pos (some value ∷ []) moved)
    done (record { storage = written; capacity = v.capacity; len = u64 (v.len + 1) })

  unfoldable pub remove : Vec A → ℕ → Outcome (Vec A)
  remove v pos = do
    assert (ltb pos v.len)
    moved ← copy_slots pos (pos + 1) (v.len - pos - 1) v.storage
    done (record { storage = moved; capacity = v.capacity; len = v.len - 1 })

  unfoldable pub set_len : Vec A → ℕ → Outcome (Vec A)
  set_len v new_len = do assert (leb new_len v.capacity); done (record v { len = new_len })

  unfoldable pub clear : Vec A → Outcome (Vec A)
  unfolding set_len
  clear v = set_len v 0

  -- The pointer that `get` returns is `NULL` or names the slot `pos`, whose content it gives.
  unfoldable pub get : Vec A → ℕ → Option (Option A)
  get v pos = if leb v.len pos then none else get_elem? v.storage pos

  -- a write through the pointer of `get_mut`
  unfoldable pub write : Vec A → ℕ → A → Outcome (Vec A)
  write v pos value =
      if leb v.len pos
      then stop out_of_bounds
      else (put pos (some value ∷ []) v.storage >>= λ s. done (record v { storage = s }))

  -- The callback gets each element in turn; what it leaves in the slot is `f` of it.
  map_first : ℕ → (A → A) → List (Option A) → List (Option A)
  map_first zero f s = s
  map_first (suc n) f [] = []
  map_first (suc n) f (none ∷ s) = none ∷ map_first n f s
  map_first (suc n) f (some a ∷ s) = some (f a) ∷ map_first n f s

  unfoldable pub for_each : Vec A → (A → A) → Vec A
  unfolding map_first
  for_each v f = record v { storage = map_first v.len f v.storage }

-- `sizeof(VEC_ELEMENT_TYPE)` is `size`.
module _ {ℓ} {A : Type ℓ} (size : ℕ) where
  -- The source is `start + end`, and the byte count has no `sizeof`.
  unfoldable pub remove_slice : Vec A → ℕ → ℕ → Outcome (Vec A)
  unfolding move_bytes
  remove_slice v start end = do
    assert (ltb start end)
    let stop_at = if ltb v.len end then v.len else end
    let count = u64 (stop_at + 2 ^ 64 - start)
    moved ← move_bytes size start (start + stop_at) count v.storage v.storage
    done (record v { storage = moved; len = u64 (v.len + 2 ^ 64 - count) })

module _ {ℓ} {A : Type ℓ} (grant : Allocator) (size : ℕ) where
  unfoldable pub resize : Vec A → ℕ → Outcome (ErrorCode × Vec A)
  unfolding free resize_slots
  resize v new_capacity = do
    assert (leb v.len new_capacity)
    if new_capacity == 0
        then done (ErrorCode.ok, free v)
        else if v.capacity == new_capacity
        then done (ErrorCode.ok, v)
        else if grant (u64 (new_capacity * size))
        then done (
          ErrorCode.ok,
          record {
            storage = resize_slots (u64 (new_capacity * size) / size) v.storage;
            capacity = new_capacity;
            len = v.len;
          },
        )
        else done (ErrorCode.memory_allocation_failure, v)

  unfoldable pub enlarge : Vec A → Outcome (ErrorCode × Vec A)
  unfolding resize
  enlarge v = resize v (if v.capacity == 0 then 1 else u64 (v.capacity * 2))

  unfoldable pub insert : Vec A → ℕ → A → Outcome (ErrorCode × Vec A)
  unfolding enlarge shift_in
  insert v pos value = do
    assert (leb pos v.len)
    (code, w) ← (if leb v.capacity v.len then enlarge v else done (ErrorCode.ok, v))
    if is_ok code then (shift_in w pos value >>= λ u. done (code, u)) else done (code, w)

  unfoldable pub push : Vec A → A → Outcome (ErrorCode × Vec A)
  unfolding insert
  push v value = insert v v.len value

  -- The byte count of this `memmove` is `other->len`, with no `sizeof`.
  unfoldable pub append : Vec A → Vec A → Outcome (ErrorCode × Vec A)
  unfolding resize move_bytes
  append v other = do
    let new_len = u64 (v.len + other.len)
    (code, w) ← (if leb v.capacity new_len then resize v new_len else done (ErrorCode.ok, v))
    if is_ok code
        then (move_bytes size v.len 0 other.len other.storage w.storage >>= λ s.
            done (code, record w { storage = s; len = new_len }))
        else done (code, w)

  -- Here the new length counts bytes.
  unfoldable pub append_slice : Vec A → List (Option A) → ℕ → Outcome (ErrorCode × Vec A)
  unfolding resize move_bytes
  append_slice v begin count = do
    let bytes = u64 (count * size)
    let new_len = u64 (v.len + bytes)
    (code, w) ← (if leb v.capacity new_len then resize v new_len else done (ErrorCode.ok, v))
    if is_ok code
        then (move_bytes size v.len 0 bytes begin w.storage >>= λ s.
            done (code, record w { storage = s; len = new_len }))
        else done (code, w)

  unfoldable pub clone : Vec A → Outcome (ErrorCode × Vec A)
  unfolding new free resize copy_slots
  clone v = do
    (code, fresh) ← resize new v.len
    if is_ok code
        then (fetch 0 v.len v.storage >>= λ xs.
            put 0 xs fresh.storage >>= λ s. done (code, record fresh { storage = s; len = v.len }))
        else done (code, free fresh)
