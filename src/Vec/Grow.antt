-- ===== src/Vec/Grow.antt =====
-- Well-formed vectors, and what `resize` and `enlarge` keep.
use posix_threads.Common.{
  ℕ, zero, suc, ◌-◌, ◌*◌, ◌/◌, ◌^◌, ◌≤◌, ◌<◌, ◌≡◌, refl, sym, ap, List, [], ◌∷◌, Option, none, true,
  false, ◌⊎◌, inl, inr, ◌==◌, if◌then◌else◌, take, replicate, length, length-append, length-take,
  length-replicate, Bool-cases, le→leb, Outcome, done, ErrorCode, arith,
}
use native.Mathlib.Nat.{mul-div_cancel}
use Prim.Native.Nat.sub
use posix_threads.Vec.{Vec, Allocator, u64, resize_slots, free, resize, enlarge}

-- `realloc` refuses a request of more than `PTRDIFF_MAX` bytes.
abbrev pub RefusesHuge : Allocator → Type 0
RefusesHuge grant = (n : ℕ) → grant n ≡ true → n < 2 ^ 63

-- The capacity doubles, or goes from 0 to 1.
abbrev pub next_capacity : ℕ → ℕ
next_capacity n = if n == 0 then 1 else n * 2

module _ {ℓ} {A : Type ℓ} where
  -- The storage has a slot for each unit of capacity, and the first `len` are in use.
  pub record IsValid (size : ℕ) (v : Vec A) : Type ℓ where
    pub slots : length v.storage ≡ v.capacity
    pub fits : v.len ≤ v.capacity
    pub small : v.capacity * size < 2 ^ 63
    pub sized : 0 < size
    pub narrow : size < 2 ^ 63

  pub length-resize_slots : (n : ℕ) (s : List (Option A)) → length (resize_slots n s) ≡ n
  unfolding resize_slots
  length-resize_slots n s = omega (
    arith,
    length-append (take n s) (replicate (n - length s) none),
    length-take n s,
    length-replicate {A = Option A} (n - length s) none,
  )

  take-resize_slots :
      (k n : ℕ) (s : List (Option A)) → k ≤ n → k ≤ length s → take k (resize_slots n s) ≡ take k s
  unfolding resize_slots
  take-resize_slots zero n s h g = refl
  take-resize_slots (suc k) zero s h g = absurd (omega arith)
  take-resize_slots (suc k) (suc n) [] h g = absurd (omega arith)
  take-resize_slots (suc k) (suc n) (x ∷ s) h g =
      rw sub.suc-suc (ap (λ t. x ∷ t) (take-resize_slots k n s (omega arith) (omega arith)))

  -- `w` is `v` with room for `n` elements and the same contents.
  pub record Resized (size : ℕ) (v : Vec A) (n : ℕ) (w : Vec A) : Type ℓ where
    pub valid : IsValid size w
    pub room : w.capacity ≡ n
    pub same_len : w.len ≡ v.len
    pub kept : take v.len w.storage ≡ take v.len v.storage

  free-Resized : (size : ℕ) (v : Vec A) → IsValid size v → v.len ≡ 0 → Resized size v 0 (free v)
  unfolding free
  free-Resized size v valid unused = elim (Bool-cases (length v.storage == 0)) [
    | inl e ↦ rw e (record { valid = valid; room = ground arith; same_len = refl; kept = refl })
    | inr e ↦ rw e (record {
      valid = record {
        slots = refl;
        fits = omega arith;
        small = omega arith;
        sized = valid.sized;
        narrow = valid.narrow;
      };
      room = refl;
      same_len = sym unused;
      kept = rw unused;
    })
  ]

module _ {ℓ} {A : Type ℓ} (grant : Allocator) (size : ℕ) where
  -- What `resize` may answer.
  abbrev pub ResizeResult : Vec A → ℕ → Outcome (ErrorCode × Vec A) → Type ℓ
  ResizeResult v n r =
      ((w : Vec A) × (r ≡ done (ErrorCode.ok, w)) × Resized size v n w)
      ⊎ ((r ≡ done (ErrorCode.memory_allocation_failure, v)) × (grant (u64 (n * size)) ≡ false))

  regrown :
      RefusesHuge grant
      → (v : Vec A) (n : ℕ) → IsValid size v
      → v.len ≤ n
      → n * size < 2 ^ 64
      → grant (u64 (n * size)) ≡ true
      → Resized size v n (record {
        storage = resize_slots (u64 (n * size) / size) v.storage;
        capacity = n;
        len = v.len;
      })
  regrown huge v n valid fits narrow given =
      let whole : u64 (n * size) ≡ n * size = omega arith in
      let slots : u64 (n * size) / size ≡ n = rw whole (mul-div_cancel n valid.sized) in
      record {
        valid = record {
          slots = rw slots (length-resize_slots n v.storage);
          fits = fits;
          small = rw whole at (huge (u64 (n * size)) given);
          sized = valid.sized;
          narrow = valid.narrow;
        };
        room = refl;
        same_len = refl;
        kept = rw slots (take-resize_slots v.len n v.storage fits (omega arith));
      }

  -- For a well-formed vector, `resize` to a capacity that holds the elements in use, and whose bytes
  -- a `size_t` counts, gives a well-formed vector of that capacity with the same elements; or the
  -- allocation is refused and the vector is unchanged.
  pub resize-Resized :
      RefusesHuge grant
      → (v : Vec A) (n : ℕ) → IsValid size v
      → v.len ≤ n
      → n * size < 2 ^ 64
      → ResizeResult v n (resize grant size v n)
  unfolding resize
  resize-Resized huge v n valid fits narrow = rw (le→leb _ _ fits) (elim (Bool-cases (n == 0)) [
    | inl e ↦
        let zero_n : n ≡ 0 = ground arith in
        rw e (inl (free v, refl, rw zero_n (free-Resized size v valid (omega arith))))
    | inr e ↦ elim (Bool-cases (v.capacity == n)) [
      | inl same ↦
          rw (e, same)
            (inl (
              v,
              refl,
              record { valid = valid; room = ground arith; same_len = refl; kept = refl },
            ))
      | inr other ↦ elim (Bool-cases (grant (u64 (n * size)))) [
        | inl given ↦ rw (e, other, given) (inl (_, refl, regrown huge v n valid fits narrow given))
        | inr refused ↦ rw (e, other, refused) (inr (refl, refl))
      ]
    ]
  ])

  -- For a well-formed vector, `enlarge` doubles the capacity, or takes it from 0 to 1, without an
  -- overflow and keeps the elements; or the allocation is refused and the vector is unchanged.
  pub enlarge-Resized :
      RefusesHuge grant
      → (v : Vec A) → IsValid size v
      → ResizeResult v (next_capacity v.capacity) (enlarge grant size v)
  unfolding enlarge
  enlarge-Resized huge v valid = elim (Bool-cases (v.capacity == 0)) [
    | inl e ↦ rw e (resize-Resized huge v 1 valid (ground arith) (omega arith))
    | inr e ↦
        let below : v.capacity * 1 ≤ v.capacity * size = grind arith in
        let exact : u64 (v.capacity * 2) ≡ v.capacity * 2 = omega arith in
        rw (e, exact) (resize-Resized huge v (v.capacity * 2) valid (omega arith) (omega arith))
  ]
