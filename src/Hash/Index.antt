-- ===== src/Hash/Index.antt =====
-- a.yanin/common/collections.hash/include/common/collections/hash.h: the way of the probe through the
-- slots, in steps of the answer of the secondary hasher.
use posix_threads.Common.{
  ℕ, zero, suc, ◌+◌, ◌*◌, ◌%◌, ◌^◌, ◌<◌, ◌≡◌, refl, sym, ap, ◌∙◌, ◌≢◌, inl, inr, Bool, true, false,
  some, List, [], ◌∷◌, arith, ◌==◌, Bool-cases, ne→==_false, some_inj, none-ne-some, length,
  get_elem?, Outcome, done,
}
use mathlib.Core.Path.{subst}
use native.Mathlib.Nat.{mod-lt, mod-add-mod, mod-eq_of_lt}
use posix_threads.Vec.{u64}
use posix_threads.Hash.Steps.{power_of_two, spread, offset_odd, covers_mod}
use posix_threads.Hash.{Slot, Hash, Hashers, ends_probe, probe, next_offset, index_for_key}

pub true-ne-false : true ≢ false
true-ne-false e = cc

-- The slot at which a probe may end.
pub record EndsAt {ℓ κ} {K : Type ℓ} {V : Type κ} (eq : K → K → Bool) (h : Hash K V) (key : K)
    (skip : Bool) (t : ℕ) : Type (ℓ ⊔ κ) where
  pub slot : Slot K V
  pub here : get_elem? h.storage t ≡ some slot
  pub ends : ends_probe eq key skip slot ≡ true

-- The call has a result, and that is a slot at which it may end.
abbrev pub Found {ℓ κ} :
    {K : Type ℓ} {V : Type κ} → (K → K → Bool) → Hash K V → K → Bool → Outcome ℕ → Type (ℓ ⊔ κ)
Found eq h key skip r = (pos : ℕ) × (r ≡ done pos) × EndsAt eq h key skip pos

get_elem?_inside {ℓ} :
    {A : Type ℓ} (xs : List A) (i : ℕ) → i < length xs → (x : A) × (get_elem? xs i ≡ some x)
get_elem?_inside [] i h = absurd (omega arith)
get_elem?_inside (x ∷ xs) zero h = (x, refl)
get_elem?_inside (x ∷ xs) (suc i) h = get_elem?_inside xs i (omega arith)

module _ {ℓ κ} {K : Type ℓ} {V : Type κ} (eq : K → K → Bool) (h : Hash K V) (key : K)
    (skip : Bool) where
  -- The end is not where the loop goes on, so it is a step less away from the next slot.
  one_less :
      (j index step : ℕ) (slot : Slot K V) (fuel : ℕ)
      → j < suc fuel
      → index < h.capacity
      → get_elem? h.storage index ≡ some slot
      → ends_probe eq key skip slot ≡ false
      → EndsAt eq h key skip ((index + j * step) % h.capacity)
      → (i : ℕ) × (i < fuel)
        × EndsAt eq h key skip (((index + step) % h.capacity + i * step) % h.capacity)
  one_less zero index step slot fuel left inside here goes goal =
      let same : (index + 0 * step) % h.capacity ≡ index =
        ap (λ u. u % h.capacity) (omega arith) ∙ mod-eq_of_lt inside in
      let at_once : get_elem? h.storage index ≡ some goal.slot =
        ap (λ u. get_elem? h.storage u) (sym same) ∙ goal.here in
      let equal : slot ≡ goal.slot = some_inj (sym here ∙ at_once) in
      absurd (true-ne-false (sym goal.ends ∙ ap (λ u. ends_probe eq key skip u) (sym equal) ∙ goes))
  one_less (suc j) index step slot fuel left inside here goes goal =
      let far : suc j * step ≡ step + j * step = omega (arith, spread 1 j step) in
      let path : ((index + step) % h.capacity + j * step) % h.capacity
          ≡ (index + suc j * step) % h.capacity =
        mod-add-mod (index + step) h.capacity (j * step)
        ∙ ap (λ u. u % h.capacity) (omega (arith, far)) in
      (j, omega arith, rw path goal)

  probe_goes :
      (fuel index offset second step : ℕ) (slot : Slot K V)
      → get_elem? h.storage index ≡ some slot
      → ends_probe eq key skip slot ≡ false
      → next_offset h.capacity second offset ≡ step
      → h.capacity < 2 ^ 63
      → index < h.capacity
      → step < h.capacity
      → probe eq (suc fuel) h key second skip index offset
        ≡ probe eq fuel h key second skip ((index + step) % h.capacity) step
  unfolding probe
  probe_goes fuel index offset second step slot here goes next small inside short =
      let exact : u64 (index + step) ≡ index + step = omega arith in
      open_step ∙ rw (next, exact) refl
    where
      open_step :
          probe eq (suc fuel) h key second skip index offset
          ≡ probe eq fuel h key second skip
              (u64 (index + next_offset h.capacity second offset) % h.capacity)
              (next_offset h.capacity second offset)
      open_step = rw (here, probe) (rw (goes) refl)

  -- The probe comes to the slot that is `j` steps away, unless it ends before.
  probe-Found :
      (fuel j index offset second step : ℕ)
      → j < fuel
      → index < h.capacity
      → h.capacity ≡ length h.storage
      → h.capacity < 2 ^ 63
      → next_offset h.capacity second offset ≡ step
      → 0 < step
      → step < h.capacity
      → EndsAt eq h key skip ((index + j * step) % h.capacity)
      → Found eq h key skip (probe eq fuel h key second skip index offset)
  unfolding probe
  probe-Found zero j index offset second step left inside slots small next moves short goal =
      absurd (omega arith)
  probe-Found (suc fuel) j index offset second step left inside slots small next moves short goal =
      let (slot, here) = get_elem?_inside h.storage index (omega (arith, slots)) in
      let again : next_offset h.capacity second step ≡ step =
        rw (ne→==_false step 0 (λ e. absurd (omega arith))) refl in
      elim (Bool-cases (ends_probe eq key skip slot)) [
        | inl stops ↦ (
          index,
          rw (here, probe) (rw (stops) refl),
          record { slot = slot; here = here; ends = stops },
        )
        | inr goes ↦
            let (i, closer, ahead) = one_less j index step slot fuel left inside here goes goal in
            let rest =
              probe-Found fuel i ((index + step) % h.capacity) step second step closer
                (mod-lt (index + step) (omega arith)) slots small again moves short ahead in
            subst (Found eq h key skip)
              (sym
                (probe_goes fuel index offset second step slot here goes next small inside short))
              rest
      ]

-- The slot is free.
abbrev pub IsFree {ℓ κ} : {K : Type ℓ} {V : Type κ} → Hash K V → ℕ → Type (ℓ ⊔ κ)
IsFree h t = get_elem? h.storage t ≡ some Slot.free

pub get_elem?_bound {ℓ} :
    {A : Type ℓ} (xs : List A) (i : ℕ) (x : A) → get_elem? xs i ≡ some x → i < length xs
get_elem?_bound [] i x h = absurd (none-ne-some h)
get_elem?_bound (y ∷ xs) zero x h = omega arith
get_elem?_bound (y ∷ xs) (suc i) x h = omega (arith, get_elem?_bound xs i x h)

-- With a capacity that is a power of two from 2 on and below 2^63, an odd answer of the secondary
-- hasher and a free slot, `index_for_key` ends, at a slot of the storage where its loop breaks.
pub index_for_key-Found {ℓ κ} :
    {K : Type ℓ} {V : Type κ} (hashers : Hashers K) (h : Hash K V) (key : K) (skip : Bool) (k t : ℕ)
    → h.capacity ≡ power_of_two (suc k)
    → h.capacity ≡ length h.storage
    → h.capacity < 2 ^ 63
    → hashers.secondary key % 2 ≡ 1
    → IsFree h t
    → Found hashers.eq h key skip (index_for_key hashers h key skip)
unfolding index_for_key ends_probe
index_for_key-Found hashers h key skip k t power slots small odd empty =
    let c = h.capacity in
    let second = hashers.secondary key in
    let step = second % c in
    let start = hashers.primary key % c in
    let inside : t < c = omega (arith, get_elem?_bound h.storage t Slot.free empty, slots) in
    let step_odd : step % 2 ≡ 1 = rw power (offset_odd k second odd) in
    let (j, left, meet) = covers_mod c (suc k) start t step power inside step_odd in
    let nonzero : (c == 0) ≡ false = ne→==_false c 0 (λ e. absurd (omega arith)) in
    let first : next_offset c second 0 ≡ step =
      rw (ne→==_false step 0 (λ e. absurd (omega arith))) refl in
    rw nonzero (
      probe-Found hashers.eq h key skip c j start 0 second step (omega arith)
        (mod-lt (hashers.primary key) (omega arith)) slots small first (omega arith)
        (mod-lt second (omega arith))
        (rw meet (record { slot = Slot.free; here = empty; ends = refl })))
