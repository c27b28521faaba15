-- ===== src/Hash/Counts.antt =====
-- a.yanin/common/collections.hash/include/common/collections/hash.h: how many slots of a storage are in
-- use, which bounds `non_free_entries` from below.
use posix_threads.Common.{
  ℕ, zero, suc, ◌≤◌, ◌<◌, ◌≡◌, refl, ap, some, List, [], ◌∷◌, arith, length, get_elem?, set,
  replicate,
}
use posix_threads.Hash.{Slot}

module _ {ℓ κ} {K : Type ℓ} {V : Type κ} where
  -- the slots that are not free
  abbrev pub used : List (Slot K V) → ℕ
  used [] = 0
  used (Slot.free ∷ slots) = used slots
  used (Slot.deleted k v ∷ slots) = suc (used slots)
  used (Slot.occupied k v ∷ slots) = suc (used slots)

  -- the slots that `rehash` inserts again
  abbrev pub live : List (Slot K V) → ℕ
  live [] = 0
  live (Slot.free ∷ slots) = live slots
  live (Slot.deleted k v ∷ slots) = live slots
  live (Slot.occupied k v ∷ slots) = suc (live slots)

  pub live-le-used : (slots : List (Slot K V)) → live slots ≤ used slots
  live-le-used [] = omega arith
  live-le-used (Slot.free ∷ slots) = live-le-used slots
  live-le-used (Slot.deleted k v ∷ slots) = omega (arith, live-le-used slots)
  live-le-used (Slot.occupied k v ∷ slots) = omega (arith, live-le-used slots)

  pub used-set :
      (slots : List (Slot K V)) (i : ℕ) (slot : Slot K V)
      → used (set slots i slot) ≤ suc (used slots)
  used-set [] i slot = omega arith
  used-set (Slot.free ∷ slots) zero Slot.free = omega arith
  used-set (Slot.free ∷ slots) zero (Slot.deleted k v) = omega arith
  used-set (Slot.free ∷ slots) zero (Slot.occupied k v) = omega arith
  used-set (Slot.deleted a b ∷ slots) zero Slot.free = omega arith
  used-set (Slot.deleted a b ∷ slots) zero (Slot.deleted k v) = omega arith
  used-set (Slot.deleted a b ∷ slots) zero (Slot.occupied k v) = omega arith
  used-set (Slot.occupied a b ∷ slots) zero Slot.free = omega arith
  used-set (Slot.occupied a b ∷ slots) zero (Slot.deleted k v) = omega arith
  used-set (Slot.occupied a b ∷ slots) zero (Slot.occupied k v) = omega arith
  used-set (Slot.free ∷ slots) (suc i) slot = used-set slots i slot
  used-set (Slot.deleted a b ∷ slots) (suc i) slot = omega (arith, used-set slots i slot)
  used-set (Slot.occupied a b ∷ slots) (suc i) slot = omega (arith, used-set slots i slot)

  -- Where an occupied slot is marked as deleted, the count stays.
  pub used-set_deleted :
      (slots : List (Slot K V)) (i : ℕ) (k : K) (v : V)
      → get_elem? slots i ≡ some (Slot.occupied k v)
      → used (set slots i (Slot.deleted k v)) ≡ used slots
  used-set_deleted [] i k v h = refl
  used-set_deleted (Slot.free ∷ slots) zero k v h = absurd (cc h)
  used-set_deleted (Slot.deleted a b ∷ slots) zero k v h = refl
  used-set_deleted (Slot.occupied a b ∷ slots) zero k v h = refl
  used-set_deleted (Slot.free ∷ slots) (suc i) k v h = used-set_deleted slots i k v h
  used-set_deleted (Slot.deleted a b ∷ slots) (suc i) k v h =
      ap suc (used-set_deleted slots i k v h)
  used-set_deleted (Slot.occupied a b ∷ slots) (suc i) k v h =
      ap suc (used-set_deleted slots i k v h)

  -- Where not all slots are in use, one is free.
  pub free_slot :
      (slots : List (Slot K V))
      → used slots < length slots
      → (t : ℕ) × (get_elem? slots t ≡ some Slot.free)
  free_slot [] h = absurd (omega arith)
  free_slot (Slot.free ∷ slots) h = (0, refl)
  free_slot (Slot.deleted k v ∷ slots) h =
      let (t, here) = free_slot slots (omega arith) in (suc t, here)
  free_slot (Slot.occupied k v ∷ slots) h =
      let (t, here) = free_slot slots (omega arith) in (suc t, here)

pub used-replicate {ℓ κ} :
    (K : Type ℓ) (V : Type κ) (n : ℕ) → used {K = K} {V = V} (replicate n Slot.free) ≡ 0
used-replicate K V zero = refl
used-replicate K V (suc n) = used-replicate K V n
