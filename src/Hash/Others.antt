-- ===== src/Hash/Others.antt =====
-- a.yanin/common/collections.hash/include/common/collections/hash.h: what a change of one slot means to the
-- lookups of other keys.
use posix_threads.Common.{
  ℕ, zero, suc, ◌+◌, ◌%◌, ◌<◌, ◌≡◌, refl, sym, ap, ◌∙◌, ◌≢◌, inl, inr, Bool, true, false, Option,
  none, some, arith, ℕ_discrete, ◌==◌, Bool-cases, Option-cases, ne→==_false, some_inj,
  get_elem?-set_self, get_elem?-set_ne, length, get_elem?, set, done, ◌>>=◌,
}
use posix_threads.Hash.{
  u64, index_for_key, get, Hashers, Slot, Hash, ends_probe, probe, next_offset, value_in,
}
use posix_threads.Hash.Index.{get_elem?_bound}
use posix_threads.Hash.Invariant.{IsOdd, IsTable, index-Found, IsTable-positive}
use posix_threads.Hash.Lookup.{done_inj, probe_stop, probe_go, probe_outside}
use posix_threads.Hash.Pairs.{IsRight, find, matches, find-none, find-set_absent}
use posix_threads.Hash.Apart.{eq-same}

-- the table with another slot at `pos` and other counts
abbrev pub changed {ℓ κ} : {K : Type ℓ} {V : Type κ} → Hash K V → ℕ → Slot K V → ℕ → ℕ → Hash K V
changed h pos slot len count = record h {
  storage = set h.storage pos slot;
  len = len;
  non_free_entries = count;
}

done_some {ℓ} : {A : Type ℓ} {a b : A} → done a ≡ done b → a ≡ b
done_some h = cc

module _ {ℓ κ} {K : Type ℓ} {V : Type κ} (eq : K → K → Bool) (key : K) where
  -- A probe that ends elsewhere ends there too when a slot becomes one that it passes.
  probe-changed :
      (fuel : ℕ) (h : Hash K V) (pos : ℕ) (slot : Slot K V) (len count second index offset i : ℕ)
      → pos < length h.storage
      → ends_probe eq key true slot ≡ false
      → i ≢ pos
      → probe eq fuel h key second true index offset ≡ done i
      → probe eq fuel (changed h pos slot len count) key second true index offset ≡ done i
  unfolding probe
  probe-changed zero h pos slot len count second index offset i inside goes apart found =
      absurd (cc found)
  probe-changed (suc fuel) h pos slot len count second index offset i inside goes apart found =
      let u = changed h pos slot len count in
      let next = next_offset h.capacity second offset in
      let rest : probe eq fuel h key second true (u64 (index + next) % h.capacity) next ≡ done i
          → probe eq fuel u key second true (u64 (index + next) % h.capacity) next ≡ done i =
        probe-changed fuel h pos slot len count second (u64 (index + next) % h.capacity) next i
          inside goes apart in
      elim (Option-cases (get_elem? h.storage index)) [
        | inl outside ↦
            absurd (cc (sym found ∙ probe_outside eq key fuel h second true index offset outside))
        | inr (old, here) ↦ elim (Bool-cases (ends_probe eq key true old)) [
          | inl ends ↦
              let same : index ≡ i =
                done_inj
                  (sym (probe_stop eq key fuel h second true index offset old here ends) ∙ found) in
              probe_stop eq key fuel u second true index offset old
                (get_elem?-set_ne h.storage slot (λ e. apart (sym same ∙ sym e)) ∙ here) ends
              ∙ ap done same
          | inr passes ↦
              let ahead =
                rest
                  (sym (probe_go eq key fuel h second true index offset old here passes) ∙ found) in
              elim (ℕ_discrete index pos) [
                | yes at_pos ↦
                    probe_go eq key fuel u second true index offset slot
                      (rw (at_pos) (get_elem?-set_self h.storage pos slot inside)) goes
                    ∙ ahead
                | no other ↦
                    probe_go eq key fuel u second true index offset old
                      (get_elem?-set_ne h.storage slot (λ e. other (sym e)) ∙ here) passes
                    ∙ ahead
              ]
        ]
      ]

module _ {ℓ κ} {K : Type ℓ} {V : Type κ} (hashers : Hashers K) where
  index-changed :
      (h : Hash K V) (key : K) (pos : ℕ) (slot : Slot K V) (len count i : ℕ)
      → 0 < h.capacity
      → pos < length h.storage
      → ends_probe hashers.eq key true slot ≡ false
      → i ≢ pos
      → index_for_key hashers h key true ≡ done i
      → index_for_key hashers (changed h pos slot len count) key true ≡ done i
  unfolding index_for_key
  index-changed h key pos slot len count i some_room inside goes apart found =
      let nonzero : (h.capacity == 0) ≡ false =
        ne→==_false h.capacity 0 (λ e. absurd (omega arith)) in
      rw nonzero (
        probe-changed hashers.eq key h.capacity h pos slot len count (hashers.secondary key)
          (hashers.primary key % h.capacity) 0 i inside goes apart (rw nonzero at found))

  -- What a lookup reads where its search ends.
  pub get-reads :
      (h : Hash K V) (key : K) (pos : ℕ) (slot : Option (Slot K V))
      → index_for_key hashers h key true ≡ done pos
      → get_elem? h.storage pos ≡ slot
      → get hashers h key ≡ done (value_in slot)
  unfolding get
  get-reads h key pos slot found here =
      ap (λ r. r >>= λ i. done (value_in (get_elem? h.storage i))) found
      ∙ ap (λ o. done (value_in o)) here

  passes-matches :
      (key : K) (slot : Slot K V)
      → ends_probe hashers.eq key true slot ≡ false
      → matches hashers key slot ≡ false
  unfolding ends_probe
  passes-matches key Slot.free h = refl
  passes-matches key (Slot.deleted k v) h = refl
  passes-matches key (Slot.occupied k v) h = h

  ends-none :
      (key : K) (slot : Slot K V)
      → ends_probe hashers.eq key true slot ≡ true
      → matches hashers key slot ≡ false
      → value_in (some slot) ≡ none
  unfolding ends_probe
  ends-none key Slot.free h left = refl
  ends-none key (Slot.deleted k v) h left = refl
  ends-none key (Slot.occupied k v) h left = absurd (cc (sym h ∙ left))

  module _ (odd : IsOdd hashers) where
    -- A key that no slot has is not found.
    pub get-absent :
        (h : Hash K V) (key : K)
        → IsTable h
        → h.non_free_entries < h.capacity
        → find hashers h.storage key ≡ none
        → get hashers h key ≡ done none
    get-absent h key t spare absent =
        let (i, run, e) = index-Found hashers odd h key true t spare in
        get-reads h key i (some e.slot) run e.here
        ∙ ap done
            (ends-none key e.slot e.ends (find-none hashers h.storage i e.slot key absent e.here))

    -- Where a slot without the key becomes one that its search passes, a lookup gives what it gave.
    pub get-other :
        (h : Hash K V) (key : K) (pos : ℕ) (old slot : Slot K V) (len count : ℕ)
        → IsTable h
        → h.non_free_entries < h.capacity
        → IsTable (changed h pos slot len count)
        → count < h.capacity
        → get_elem? h.storage pos ≡ some old
        → matches hashers key old ≡ false
        → ends_probe hashers.eq key true slot ≡ false
        → get hashers h key ≡ done (find hashers h.storage key)
        → get hashers (changed h pos slot len count) key ≡ done (find hashers h.storage key)
    get-other h key pos old slot len count t spare table more here left goes found =
        let u = changed h pos slot len count in
        let inside = get_elem?_bound h.storage pos old here in
        let (i, run, e) = index-Found hashers odd h key true t spare in
        let before : get hashers h key ≡ done (value_in (some e.slot)) =
          get-reads h key i (some e.slot) run e.here in
        elim (ℕ_discrete i pos) [
          | no other ↦
              get-reads u key i (some e.slot)
                (index-changed h key pos slot len count i (omega (arith, IsTable-positive h t))
                  inside goes other run)
                (get_elem?-set_ne h.storage slot (λ q. other (sym q)) ∙ e.here)
              ∙ sym before
              ∙ found
          | yes at_pos ↦
              let same : e.slot ≡ old =
                some_inj (sym e.here ∙ ap (λ j. get_elem? h.storage j) at_pos ∙ here) in
              let nothing : value_in (some e.slot) ≡ none =
                ends-none key e.slot e.ends (ap (λ s. matches hashers key s) same ∙ left) in
              let absent : find hashers h.storage key ≡ none =
                done_some (sym found ∙ before ∙ ap done nothing) in
              get-absent u key table more (
                find-set_absent hashers h.storage pos slot key absent
                  (passes-matches key slot goes))
              ∙ ap done (sym absent)
        ]

module _ {ℓ κ} {K : Type ℓ} {V : Type κ} (hashers : Hashers K) (right : IsRight hashers) where
  ends_probe-same :
      (a b : K) (skip : Bool) (slot : Slot K V)
      → hashers.eq a b ≡ true
      → ends_probe hashers.eq a skip slot ≡ ends_probe hashers.eq b skip slot
  unfolding ends_probe
  ends_probe-same a b skip Slot.free equal = refl
  ends_probe-same a b skip (Slot.deleted k v) equal = refl
  ends_probe-same a b skip (Slot.occupied k v) equal = eq-same hashers right a b k equal

  probe-same :
      (fuel : ℕ) (h : Hash K V) (a b : K) (second : ℕ) (skip : Bool) (index offset : ℕ)
      → hashers.eq a b ≡ true
      → probe hashers.eq fuel h a second skip index offset
        ≡ probe hashers.eq fuel h b second skip index offset
  unfolding probe
  probe-same zero h a b second skip index offset equal = refl
  probe-same (suc fuel) h a b second skip index offset equal =
      let next = next_offset h.capacity second offset in
      let rest = probe-same fuel h a b second skip (u64 (index + next) % h.capacity) next equal in
      elim (Option-cases (get_elem? h.storage index)) [
        | inl outside ↦
            probe_outside hashers.eq a fuel h second skip index offset outside
            ∙ sym (probe_outside hashers.eq b fuel h second skip index offset outside)
        | inr (slot, here) ↦
            let same = ends_probe-same a b skip slot equal in
            elim (Bool-cases (ends_probe hashers.eq a skip slot)) [
              | inl ends ↦
                  probe_stop hashers.eq a fuel h second skip index offset slot here ends
                  ∙ sym (
                      probe_stop hashers.eq b fuel h second skip index offset slot here
                        (sym same ∙ ends))
              | inr goes ↦
                  probe_go hashers.eq a fuel h second skip index offset slot here goes
                  ∙ rest
                  ∙ sym (
                      probe_go hashers.eq b fuel h second skip index offset slot here
                        (sym same ∙ goes))
            ]
      ]

  -- Equal keys are looked up alike.
  pub get-same :
      (h : Hash K V) (a b : K) → hashers.eq a b ≡ true → get hashers h a ≡ get hashers h b
  unfolding get index_for_key
  get-same h a b equal =
      rw
        (
          right.same_primary a b equal,
          right.same_secondary a b equal,
          probe-same h.capacity h a b (hashers.secondary b) true (hashers.primary b % h.capacity) 0
              equal,
        )
        refl
