-- ===== src/Hash/Maps.antt =====
-- a.yanin/common/collections.hash/include/common/collections/hash.h: a table as a map from keys to values,
-- and what `store` does to it.
use posix_threads.Common.{
  ℕ, zero, suc, ◌+◌, ◌*◌, ◌%◌, ◌<◌, ◌≡◌, refl, sym, ap, ◌∙◌, inl, inr, Bool, true, false, none,
  some, arith, Bool-cases, Option-cases, get_elem?, done,
}
use posix_threads.Vec.{u64}
use posix_threads.Hash.{
  Slot, Hash, Hashers, ends_probe, probe, next_offset, index_for_key, get, store,
}
use posix_threads.Hash.Index.{get_elem?_bound}
use posix_threads.Hash.Lookup.{stored, done_inj, get-stored, probe_stop, probe_go, probe_outside}
use posix_threads.Hash.Invariant.{IsTable, IsGrown, index-Found, store-IsGrown, IsTable-positive}
use posix_threads.Hash.Pairs.{
  IsRight, first_of, find, Apart, matches, find-set_self, find-set_other,
}
use posix_threads.Hash.Apart.{find-same, eq-same, eq-other, Apart-set}
use posix_threads.Hash.Others.{get-other, get-same}

-- A lookup finds just the pairs of the table, no two of which have equal keys.
pub record IsMap {ℓ κ} {K : Type ℓ} {V : Type κ} (hashers : Hashers K) (h : Hash K V)
    : Type (ℓ ⊔ κ) where
  pub apart : Apart hashers h.storage
  pub found : (key : K) → get hashers h key ≡ done (find hashers h.storage key)

pub eq-apart {ℓ} :
    {K : Type ℓ} (hashers : Hashers K)
    → IsRight hashers
    → (a b c : K) → hashers.eq a b ≡ false
    → hashers.eq b c ≡ true
    → hashers.eq a c ≡ false
eq-apart hashers right a b c other equal =
    eq-other hashers right c a
      (sym (eq-same hashers right b c a equal) ∙ eq-other hashers right a b other)

module _ {ℓ κ} {K : Type ℓ} {V : Type κ} (hashers : Hashers K) where
  probe-flag :
      (fuel : ℕ) (h : Hash K V) (b : Bool) (key : K) (second : ℕ) (skip : Bool) (index offset : ℕ)
      → probe hashers.eq fuel (record h { rehashing = b }) key second skip index offset
        ≡ probe hashers.eq fuel h key second skip index offset
  unfolding probe
  probe-flag zero h b key second skip index offset = refl
  probe-flag (suc fuel) h b key second skip index offset =
      let u = record h { rehashing = b } in
      let next = next_offset h.capacity second offset in
      elim (Option-cases (get_elem? h.storage index)) [
        | inl outside ↦
            probe_outside hashers.eq key fuel u second skip index offset outside
            ∙ sym (probe_outside hashers.eq key fuel h second skip index offset outside)
        | inr (slot, here) ↦ elim (Bool-cases (ends_probe hashers.eq key skip slot)) [
          | inl ends ↦
              probe_stop hashers.eq key fuel u second skip index offset slot here ends
              ∙ sym (probe_stop hashers.eq key fuel h second skip index offset slot here ends)
          | inr goes ↦
              probe_go hashers.eq key fuel u second skip index offset slot here goes
              ∙ probe-flag fuel h b key second skip (u64 (index + next) % h.capacity) next
              ∙ sym (probe_go hashers.eq key fuel h second skip index offset slot here goes)
        ]
      ]

  -- The flag changes no lookup.
  pub IsMap-flag :
      (h : Hash K V) (b : Bool) → IsMap hashers h → IsMap hashers (record h { rehashing = b })
  unfolding get index_for_key
  IsMap-flag h b m = record {
    apart = m.apart;
    found = λ key.
        rw
          (probe-flag h.capacity h b key (hashers.secondary key) true
            (hashers.primary key % h.capacity) 0)
          (m.found key);
  }

module _ {ℓ κ} {K : Type ℓ} {V : Type κ} (hashers : Hashers K) (right : IsRight hashers) where
  ends-apart :
      (key other : K) (slot : Slot K V)
      → ends_probe hashers.eq key false slot ≡ true
      → hashers.eq other key ≡ false
      → matches hashers other slot ≡ false
  unfolding ends_probe
  ends-apart key other Slot.free ends apart = refl
  ends-apart key other (Slot.deleted k v) ends apart = refl
  ends-apart key other (Slot.occupied k v) ends apart =
      eq-apart hashers right other key k apart ends

  pub passes-occupied :
      (key other : K) (value : V)
      → hashers.eq other key ≡ false
      → ends_probe hashers.eq other true (Slot.occupied key value) ≡ false
  unfolding ends_probe
  passes-occupied key other value h = h

  -- The slot that `store` fills.
  pub record Placement (h : Hash K V) (key : K) (value : V) : Type (ℓ ⊔ κ) where
    pub pos : ℕ
    pub slot : Slot K V
    pub here : get_elem? h.storage pos ≡ some slot
    pub ends : ends_probe hashers.eq key false slot ≡ true
    pub found : index_for_key hashers h key false ≡ done pos
    pub run : store hashers h key value ≡ done (stored key value h pos)
    pub grown : IsGrown h (stored key value h pos)

  pub place :
      (h : Hash K V) (key : K) (value : V)
      → IsTable h
      → 2 * h.non_free_entries < h.capacity
      → Placement h key value
  place h key value t room =
      let (pos, found, run, g) = store-IsGrown hashers right.odd h key value t room in
      let (i, again, e) =
        index-Found hashers right.odd h key false t (omega (arith, room, IsTable-positive h t)) in
      let same : i ≡ pos = done_inj (sym again ∙ found) in
      record {
        pos = pos;
        slot = e.slot;
        here = ap (λ j. get_elem? h.storage j) (sym same) ∙ e.here;
        ends = e.ends;
        found = found;
        run = run;
        grown = g;
      }

  -- What is read behind a `store`: the value under its key, and what was there under the others.
  pub get-place :
      (h : Hash K V) (key : K) (value : V) (p : Placement h key value) (other : K)
      → IsTable h
      → 2 * h.non_free_entries < h.capacity
      → IsMap hashers h
      → get hashers (stored key value h p.pos) other
        ≡ done (first_of (hashers.eq other key) value (find hashers h.storage other))
  get-place h key value p other t room m =
      let u = stored key value h p.pos in
      let inside = get_elem?_bound h.storage p.pos p.slot p.here in
      elim (Bool-cases (hashers.eq other key)) [
        | inl same ↦
            get-same hashers right u other key same
            ∙ get-stored hashers h key value p.pos (right.reflexive key) t.slots
                (omega (arith, IsTable-positive h t)) inside p.found
            ∙ ap (λ b. done (first_of b value (find hashers h.storage other))) (sym same)
        | inr apart ↦
            get-other hashers right.odd h other p.pos p.slot (Slot.occupied key value) u.len
              u.non_free_entries t (omega (arith, room)) p.grown.table
              (omega (arith, p.grown.half, p.grown.one_more, room, IsTable-positive h t)) p.here
              (ends-apart key other p.slot p.ends apart) (passes-occupied key other value apart)
              (m.found other)
            ∙ ap (λ b. done (first_of b value (find hashers h.storage other))) (sym apart)
      ]

  -- The pairs behind a `store` of a key that was not there.
  pub find-place :
      (h : Hash K V) (key : K) (value : V) (p : Placement h key value) (other : K)
      → find hashers h.storage key ≡ none
      → find hashers (stored key value h p.pos).storage other
        ≡ first_of (hashers.eq other key) value (find hashers h.storage other)
  find-place h key value p other absent = elim (Bool-cases (hashers.eq other key)) [
    | inl same ↦
        find-set_self hashers h.storage p.pos key other value
          (get_elem?_bound h.storage p.pos p.slot p.here)
          (find-same hashers right h.storage other key same ∙ absent) same
        ∙ ap (λ b. first_of b value (find hashers h.storage other)) (sym same)
    | inr apart ↦
        find-set_other hashers h.storage p.pos p.slot (Slot.occupied key value) other p.here
          (ends-apart key other p.slot p.ends apart) apart
        ∙ ap (λ b. first_of b value (find hashers h.storage other)) (sym apart)
  ]

  pub place-IsMap :
      (h : Hash K V) (key : K) (value : V) (p : Placement h key value)
      → IsTable h
      → 2 * h.non_free_entries < h.capacity
      → IsMap hashers h
      → find hashers h.storage key ≡ none
      → IsMap hashers (stored key value h p.pos)
  place-IsMap h key value p t room m absent = record {
    apart = Apart-set hashers right h.storage p.pos key value absent m.apart;
    found = λ other.
        get-place h key value p other t room m
        ∙ ap done (sym (find-place h key value p other absent));
  }
