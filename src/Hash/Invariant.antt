-- ===== src/Hash/Invariant.antt =====
-- a.yanin/common/collections.hash/include/common/collections/hash.h: the invariant of the table, which
-- `new`, `insert`, `rehash` and `remove` keep.
use posix_threads.Common.{
  ℕ, zero, suc, ◌+◌, ◌*◌, ◌%◌, ◌^◌, ◌≤◌, ◌<◌, ◌≡◌, refl, sym, ◌∙◌, Bool, false, List, [], ◌∷◌,
  arith, lt→ltb, lt→leb_false, length, length-set, done,
}
use posix_threads.Vec.{u64}
use posix_threads.Hash.{
  Slot, Hash, Hashers, should_rehash, index_for_key, store, reinsert, reinsert_all,
}
use posix_threads.Hash.Steps.{power_of_two}
use posix_threads.Hash.Index.{Found, index_for_key-Found}
use posix_threads.Hash.Lookup.{stored}
use posix_threads.Hash.Counts.{used, live, used-set, free_slot}

power_positive : (k : ℕ) → 0 < power_of_two k
power_positive zero = omega arith
power_positive (suc k) = omega (arith, power_positive k)

-- Each answer of the secondary hasher is odd.
abbrev pub IsOdd {ℓ} : {K : Type ℓ} → Hashers K → Type ℓ
IsOdd {K = K} hashers = (key : K) → hashers.secondary key % 2 ≡ 1

module _ {ℓ κ} {K : Type ℓ} {V : Type κ} where
  -- The capacity is a power of two, and the storage has that many slots, of which at most
  -- `non_free_entries` are in use.
  pub record IsTable (h : Hash K V) : Type (ℓ ⊔ κ) where
    pub exponent : ℕ
    pub power : h.capacity ≡ power_of_two (suc exponent)
    pub slots : h.capacity ≡ length h.storage
    pub small : h.capacity < 2 ^ 63
    pub counted : used h.storage ≤ h.non_free_entries

  -- At most half of the slots are in use, and no `rehash` is going on.
  pub record IsSparse (h : Hash K V) : Type (ℓ ⊔ κ) where
    pub table : IsTable h
    pub half : 2 * h.non_free_entries ≤ h.capacity
    pub calm : h.rehashing ≡ false

  pub IsTable-positive : (h : Hash K V) → IsTable h → 1 < h.capacity
  IsTable-positive h t = omega (arith, t.power, power_positive t.exponent)

  pub spare_slot : (h : Hash K V) → IsSparse h → h.non_free_entries < h.capacity
  spare_slot h s = omega (arith, s.half, IsTable-positive h s.table)

  even_capacity : (h : Hash K V) → IsTable h → (n : ℕ) × (h.capacity ≡ 2 * n)
  even_capacity h t = (power_of_two t.exponent, t.power)

  -- One slot more is counted, and the table is sparse but for its flag.
  pub record IsGrown (h : Hash K V) (u : Hash K V) : Type (ℓ ⊔ κ) where
    pub table : IsTable u
    pub half : 2 * u.non_free_entries ≤ u.capacity
    pub one_more : u.non_free_entries ≡ h.non_free_entries + 1
    pub same_capacity : u.capacity ≡ h.capacity
    pub same_flag : u.rehashing ≡ h.rehashing

module _ {ℓ κ} {K : Type ℓ} {V : Type κ} (hashers : Hashers K) (odd : IsOdd hashers) where
  -- With a slot to spare, `index_for_key` has a result.
  pub index-Found :
      (h : Hash K V) (key : K) (skip : Bool)
      → IsTable h
      → h.non_free_entries < h.capacity
      → Found hashers.eq h key skip (index_for_key hashers h key skip)
  index-Found h key skip t spare =
      let (i, free) = free_slot h.storage (omega (arith, t.counted, t.slots)) in
      index_for_key-Found hashers h key skip t.exponent i t.power t.slots t.small (odd key) free

  pub store-IsGrown :
      (h : Hash K V) (key : K) (value : V)
      → IsTable h
      → 2 * h.non_free_entries < h.capacity
      → (pos : ℕ) × (index_for_key hashers h key false ≡ done pos)
        × (store hashers h key value ≡ done (stored key value h pos))
        × IsGrown h (stored key value h pos)
  unfolding store
  store-IsGrown h key value t room =
      let (pos, found, e) = index-Found h key false t (omega arith) in
      let (n, even) = even_capacity h t in
      let exact : u64 (h.non_free_entries + 1) ≡ h.non_free_entries + 1 = omega (arith, t.small) in
      (
        pos,
        found,
        rw found refl,
        record {
          table = record {
            exponent = t.exponent;
            power = t.power;
            slots = t.slots ∙ sym (length-set h.storage pos (Slot.occupied key value));
            small = t.small;
            counted =
                rw exact
                  (omega (arith, used-set h.storage pos (Slot.occupied key value), t.counted));
          };
          half = rw exact (omega (arith, even));
          one_more = exact;
          same_capacity = refl;
          same_flag = refl;
        },
      )

  -- While a table is filled that has room for all pairs, no assertion fails.
  pub reinsert_all-IsTable :
      (slots : List (Slot K V)) (h : Hash K V)
      → IsTable h
      → 2 * (h.non_free_entries + live slots) ≤ h.capacity
      → (u : Hash K V) × (reinsert_all hashers slots h ≡ done u)
        × IsTable u
        × (u.non_free_entries ≡ h.non_free_entries + live slots)
        × (u.capacity ≡ h.capacity)
  unfolding reinsert_all reinsert should_rehash
  reinsert_all-IsTable [] h t room = (h, refl, t, omega arith, refl)
  reinsert_all-IsTable (Slot.free ∷ slots) h t room = reinsert_all-IsTable slots h t room
  reinsert_all-IsTable (Slot.deleted k v ∷ slots) h t room = reinsert_all-IsTable slots h t room
  reinsert_all-IsTable (Slot.occupied k v ∷ slots) h t room =
      let (pos, found, run, s) = store-IsGrown h k v t (omega arith) in
      let (u, rest, table, count, size) =
        reinsert_all-IsTable slots (stored k v h pos) s.table
          (omega (arith, s.one_more, s.same_capacity)) in
      (
        u,
        rw
            (
              lt→ltb 0 h.capacity (omega arith),
              lt→leb_false (2 * h.non_free_entries) h.capacity (omega arith),
              run,
              rest,
            )
            refl,
        table,
        omega (arith, count, s.one_more),
        size ∙ s.same_capacity,
      )
