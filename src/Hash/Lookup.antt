-- ===== src/Hash/Lookup.antt =====
-- a.yanin/common/collections.hash/include/common/collections/hash.h: a lookup takes the way that the
-- insertion took.
use posix_threads.Common.{
  ℕ, zero, suc, ◌+◌, ◌%◌, ◌<◌, ◌≡◌, refl, sym, ap, ◌∙◌, inl, inr, Bool, true, false, none, some,
  arith, ℕ_discrete, ◌==◌, Bool-cases, Option-cases, ne→==_false, get_elem?-set_self,
  get_elem?-set_ne, length, get_elem?, set, out_of_bounds, done, stop,
}
use posix_threads.Vec.{u64}
use posix_threads.Hash.Index.{get_elem?_bound}
use posix_threads.Hash.{index_for_key, get, Hashers, Slot, Hash, ends_probe, probe, next_offset}

pub done_inj : {a b : ℕ} → done a ≡ done b → a ≡ b
done_inj h = cc

-- the table with the pair at `pos`
abbrev pub stored {ℓ κ} : {K : Type ℓ} {V : Type κ} → K → V → Hash K V → ℕ → Hash K V
stored key value h pos = record h {
  storage = set h.storage pos (Slot.occupied key value);
  len = u64 (h.len + 1);
  non_free_entries = u64 (h.non_free_entries + 1);
}

module _ {ℓ κ} {K : Type ℓ} {V : Type κ} (eq : K → K → Bool) (key : K) where
  pub probe_stop :
      (fuel : ℕ) (h : Hash K V) (second : ℕ) (skip : Bool) (index offset : ℕ) (slot : Slot K V)
      → get_elem? h.storage index ≡ some slot
      → ends_probe eq key skip slot ≡ true
      → probe eq (suc fuel) h key second skip index offset ≡ done index
  unfolding probe
  probe_stop fuel h second skip index offset slot here ends = rw (here, probe) (rw (ends) refl)

  pub probe_go :
      (fuel : ℕ) (h : Hash K V) (second : ℕ) (skip : Bool) (index offset : ℕ) (slot : Slot K V)
      → get_elem? h.storage index ≡ some slot
      → ends_probe eq key skip slot ≡ false
      → probe eq (suc fuel) h key second skip index offset
        ≡ probe eq fuel h key second skip
            (u64 (index + next_offset h.capacity second offset) % h.capacity)
            (next_offset h.capacity second offset)
  unfolding probe
  probe_go fuel h second skip index offset slot here goes = rw (here, probe) (rw (goes) refl)

  pub probe_outside :
      (fuel : ℕ) (h : Hash K V) (second : ℕ) (skip : Bool) (index offset : ℕ)
      → get_elem? h.storage index ≡ none
      → probe eq (suc fuel) h key second skip index offset ≡ stop out_of_bounds
  unfolding probe
  probe_outside fuel h second skip index offset outside = rw (outside, probe) refl

module _ {ℓ κ} {K : Type ℓ} {V : Type κ} (eq : K → K → Bool) (key : K) (value : V)
    (reflexive : eq key key ≡ true) where
  goes_on :
      (slot : Slot K V) → ends_probe eq key false slot ≡ false → ends_probe eq key true slot ≡ false
  unfolding ends_probe
  goes_on Slot.free h = h
  goes_on (Slot.deleted k v) h = absurd (cc h)
  goes_on (Slot.occupied k v) h = h

  pub probe-stored :
      (fuel : ℕ) (h : Hash K V) (second index offset pos : ℕ)
      → probe eq fuel h key second false index offset ≡ done pos
      → probe eq fuel (stored key value h pos) key second true index offset ≡ done pos
  unfolding probe
  probe-stored zero h second index offset pos found = absurd (cc found)
  probe-stored (suc fuel) h second index offset pos found =
      elim (Option-cases (get_elem? h.storage index)) [
        | inl outside ↦
            absurd (cc (sym found ∙ probe_outside eq key fuel h second false index offset outside))
        | inr (slot, here) ↦ elim (ℕ_discrete index pos) [
          | yes at_pos ↦
              let inside : index < length h.storage = get_elem?_bound h.storage index slot here in
              let written : get_elem? (stored key value h pos).storage index
                  ≡ some (Slot.occupied key value) =
                rw (← at_pos)
                  (get_elem?-set_self h.storage index (Slot.occupied key value) inside) in
              probe_stop eq key fuel (stored key value h pos) second true index offset
                (Slot.occupied key value) written reflexive
              ∙ ap done at_pos
          | no other ↦ elim (Bool-cases (ends_probe eq key false slot)) [
            | inl ends ↦ absurd (
                other (
                  done_inj (
                    sym (probe_stop eq key fuel h second false index offset slot here ends)
                    ∙ found)))
            | inr goes ↦
                let next = next_offset h.capacity second offset in
                let kept : get_elem? (stored key value h pos).storage index ≡ some slot =
                  get_elem?-set_ne h.storage (Slot.occupied key value) (λ e. other (sym e))
                  ∙ here in
                probe_go eq key fuel (stored key value h pos) second true index offset slot kept
                  (goes_on slot goes)
                ∙ probe-stored fuel h second (u64 (index + next) % h.capacity) next pos
                    (sym (probe_go eq key fuel h second false index offset slot here goes) ∙ found)
          ]
        ]
      ]

module _ {ℓ κ} {K : Type ℓ} {V : Type κ} (hashers : Hashers K) where
  -- A lookup in the table that `store` leaves finds the value.
  pub get-stored :
      (h : Hash K V) (key : K) (value : V) (pos : ℕ)
      → hashers.eq key key ≡ true
      → h.capacity ≡ length h.storage
      → 0 < h.capacity
      → pos < length h.storage
      → index_for_key hashers h key false ≡ done pos
      → get hashers (stored key value h pos) key ≡ done (some value)
  unfolding get index_for_key
  get-stored h key value pos reflexive slots some_room inside found =
      let nonzero : (h.capacity == 0) ≡ false =
        ne→==_false h.capacity 0 (λ e. absurd (omega arith)) in
      let way =
        probe-stored hashers.eq key value reflexive h.capacity h (hashers.secondary key)
          (hashers.primary key % h.capacity) 0 pos (rw nonzero at found) in
      rw (nonzero, way, get_elem?-set_self h.storage pos (Slot.occupied key value) inside) refl
