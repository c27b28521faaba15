-- ===== src/Hash/Insertion.antt =====
-- a.yanin/common/collections.hash/include/common/collections/hash.h: `new` and `rehash` give a table with
-- the invariant.
use posix_threads.Common.{
  ℕ, suc, ◌*◌, ◌^◌, ◌≤◌, ◌<◌, ◌≡◌, refl, sym, ap, ◌∙◌, ◌⊎◌, inl, inr, Bool, true, false, not, List,
  arith, ◌==◌, Bool-cases, ne→==_false, take, length-replicate, take_all, Outcome, done, ◌>>=◌,
  ◌>>◌, assert, ErrorCode,
}
use posix_threads.Vec.{Allocator, u64}
use posix_threads.Vec.Grow.{RefusesHuge}
use posix_threads.Hash.{
  Slot, Hash, Hashers, reinsert_all, rehash, empty_map, enlarged, new, unallocated,
}
use posix_threads.Hash.Steps.{power_of_two}
use posix_threads.Hash.Invariant.{IsOdd, IsTable, IsSparse, reinsert_all-IsTable, IsTable-positive}
use posix_threads.Hash.Counts.{live, live-le-used, used-replicate}

pub assert-not {ι} : {A : Type ι} {m : Outcome A} (b : Bool) → b ≡ false → (assert (not b) >> m) ≡ m
assert-not true e = absurd (cc e)
assert-not false e = refl

module _ {ℓ κ} {K : Type ℓ} {V : Type κ} (hashers : Hashers K) (odd : IsOdd hashers)
    (grant : Allocator) (size : ℕ) where
  -- A larger table with the same pairs, or a refused allocation.
  abbrev pub RehashResult : Hash K V → Outcome (ErrorCode × Hash K V) → Type (ℓ ⊔ κ)
  RehashResult h r =
      ((u : Hash K V) × (r ≡ done (ErrorCode.ok, u))
        × IsTable u
        × (2 * u.non_free_entries < u.capacity)
        × (u.rehashing ≡ false)
        × (grant (enlarged h.capacity * size) ≡ true))
      ⊎ ((r ≡ done (ErrorCode.memory_allocation_failure, h))
          × (grant (enlarged h.capacity * size) ≡ false))

  -- The table that is filled, from a storage with `live` pairs.
  refill :
      (slots : List (Slot K V)) (k : ℕ)
      → power_of_two (suc k) < 2 ^ 63
      → 2 * live slots < power_of_two (suc k)
      → (u : Hash K V) × (reinsert_all hashers slots (empty_map (power_of_two (suc k))) ≡ done u)
        × IsTable u
        × (2 * u.non_free_entries < u.capacity)
  refill slots k small room =
      let c = power_of_two (suc k) in
      let (u, run, table, count, same) =
        reinsert_all-IsTable hashers odd slots (empty_map c)
          (record {
            exponent = k;
            power = refl;
            slots = sym (length-replicate {A = Slot K V} c Slot.free);
            small = small;
            counted = omega (arith, used-replicate K V c);
          })
          (omega arith) in
      (u, run, table, omega (arith, count, same))

  pub rehash_done :
      (h u : Hash K V) (c : ℕ)
      → h.rehashing ≡ false
      → enlarged h.capacity ≡ c
      → grant (c * size) ≡ true
      → reinsert_all hashers (take h.capacity h.storage) (empty_map c) ≡ done u
      → rehash hashers grant size h ≡ done (ErrorCode.ok, record u { rehashing = false })
  unfolding rehash
  rehash_done h u c calm grown given run =
      assert-not h.rehashing calm
      ∙ rw (grown, given)
          (ap (λ r. r >>= λ g. done (ErrorCode.ok, record g { rehashing = false })) run)

  rehash_grows :
      RefusesHuge grant
      → 0 < size
      → (h : Hash K V) (k : ℕ) → h.rehashing ≡ false
      → enlarged h.capacity ≡ power_of_two (suc k)
      → 2 * live (take h.capacity h.storage) < power_of_two (suc k)
      → RehashResult h (rehash hashers grant size h)
  unfolding rehash
  rehash_grows huge sized h k calm grown room =
      let c = power_of_two (suc k) in
      elim (Bool-cases (grant (c * size))) [
        | inr refused ↦
            inr (assert-not h.rehashing calm ∙ rw (grown, refused) refl, rw grown refused)
        | inl given ↦
            let bytes : c * size < 2 ^ 63 = huge (c * size) given in
            let bound : c * 1 ≤ c * size = grind arith in
            let (u, run, t, half) = refill (take h.capacity h.storage) k (omega arith) room in
            inl (
              record u { rehashing = false },
              rehash_done h u c calm grown given run,
              record {
                exponent = t.exponent;
                power = t.power;
                slots = t.slots;
                small = t.small;
                counted = t.counted;
              },
              half,
              refl,
              rw grown given,
            )
      ]

  pub rehash-RehashResult :
      RefusesHuge grant
      → 0 < size
      → (h : Hash K V) → IsSparse h
      → RehashResult h (rehash hashers grant size h)
  rehash-RehashResult huge sized h s =
      let t = s.table in
      let more = IsTable-positive h t in
      let exact : u64 (h.capacity * 2) ≡ h.capacity * 2 = omega (arith, t.small) in
      let nonzero : (h.capacity * 2 == 0) ≡ false =
        ne→==_false (h.capacity * 2) 0 (λ e. absurd (omega arith)) in
      let whole : take h.capacity h.storage ≡ h.storage =
        take_all h.capacity h.storage (omega (arith, t.slots)) in
      rehash_grows huge sized h (suc t.exponent) s.calm
        (rw (exact, nonzero) (omega (arith, t.power)))
        (rw whole (omega (arith, t.power, live-le-used h.storage, t.counted, s.half, more)))

  -- Where `calloc` refuses a request of more than `PTRDIFF_MAX` bytes and the secondary hashes are odd,
  -- `new` gives a table with the invariant, or answers that memory is out.
  pub new-IsSparse :
      RefusesHuge grant
      → 0 < size
      → ((u : Hash K V) × (new hashers grant size ≡ done (ErrorCode.ok, u)) × IsSparse u)
        ⊎ ((u : Hash K V) × (new hashers grant size
              ≡ done (ErrorCode.memory_allocation_failure, u)))
  unfolding new
  new-IsSparse huge sized = elim (rehash_grows huge sized unallocated 2 refl refl (omega arith)) [
    | inl (u, run, table, room, calm, given) ↦
        inl (u, run, record { table = table; half = omega arith; calm = calm })
    | inr (refused, denied) ↦ inr (unallocated, refused)
  ]
