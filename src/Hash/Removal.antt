-- ===== src/Hash/Removal.antt =====
-- a.yanin/common/collections.hash/include/common/collections/hash.h: `remove` on a table as a map.
use posix_threads.Common.{
  ℕ, ◌+◌, ◌-◌, ◌^◌, ◌≡◌, refl, sym, ap, ◌∙◌, ◌⊎◌, inl, inr, true, false, Option, none, some,
  if◌then◌else◌, Bool-cases, get_elem?, set, length-set, Outcome, done, ◌>>=◌, ErrorCode,
}
use posix_threads.Vec.{u64}
use posix_threads.Hash.{Slot, Hash, Hashers, ends_probe, index_for_key, get, remove, remove_slot}
use posix_threads.Hash.Counts.{used-set_deleted}
use posix_threads.Hash.Invariant.{IsSparse, index-Found, spare_slot}
use posix_threads.Hash.Pairs.{IsRight, find, find-set_other}
use posix_threads.Hash.Apart.{find-here, find-set_deleted, Apart-set_deleted}
use posix_threads.Hash.Others.{get-other, get-absent, get-reads}
use posix_threads.Hash.Maps.{IsMap, eq-apart}

module _ {ℓ κ} {K : Type ℓ} {V : Type κ} (hashers : Hashers K) where
  -- The table `u` is `h` with the pair at `pos` marked as deleted: its lookups find nothing under the keys
  -- that are equal to `key`, and under all others what `h` has.
  pub record Removed (h : Hash K V) (key k : K) (v : V) (pos : ℕ) (u : Hash K V)
      : Type (ℓ ⊔ κ) where
    pub equal : hashers.eq key k ≡ true
    pub here : get_elem? h.storage pos ≡ some (Slot.occupied k v)
    pub marked : u.storage ≡ set h.storage pos (Slot.deleted k v)
    pub one_less : u.len ≡ u64 (h.len + 2 ^ 64 - 1)
    pub sparse : IsSparse u
    pub map : IsMap hashers u
    pub reads :
        (other : K)
        → get hashers u other
          ≡ done (if hashers.eq other key then none else find hashers h.storage other)

  -- What `remove` gives: the pair that a lookup finds, marked as deleted; or nothing, where there is no
  -- pair with an equal key.
  abbrev pub RemoveResult :
      Hash K V → K → Outcome (ErrorCode × Hash K V × Option (K × V)) → Type (ℓ ⊔ κ)
  RemoveResult h key r =
      ((u : Hash K V) × (k : K) × (v : V) × (pos : ℕ) × (r ≡ done (ErrorCode.ok, u, some (k, v)))
        × (find hashers h.storage key ≡ some v)
        × Removed h key k v pos u)
      ⊎ ((r ≡ done (ErrorCode.not_found, h, none)) × (find hashers h.storage key ≡ none))

-- the table with the pair at `pos` marked as deleted
abbrev taken {ℓ κ} : {K : Type ℓ} {V : Type κ} → Hash K V → ℕ → K → V → Hash K V
taken h pos k v = record h {
  storage = set h.storage pos (Slot.deleted k v);
  len = u64 (h.len + 2 ^ 64 - 1);
}

value_inj {κ} : {V : Type κ} {a b : Option V} → done a ≡ done b → a ≡ b
value_inj e = cc

module _ {ℓ κ} {K : Type ℓ} {V : Type κ} (hashers : Hashers K) (right : IsRight hashers) where
  removes :
      (h : Hash K V) (key : K) (pos : ℕ) (slot : Option (Slot K V))
      → index_for_key hashers h key true ≡ done pos
      → get_elem? h.storage pos ≡ slot
      → remove hashers h key ≡ done (remove_slot h pos slot)
  unfolding remove
  removes h key pos slot found here =
      ap (λ r. r >>= λ i. done (remove_slot h i (get_elem? h.storage i))) found
      ∙ ap (λ o. done (remove_slot h pos o)) here

  taken-IsSparse :
      (h : Hash K V) (pos : ℕ) (k : K) (v : V)
      → IsSparse h
      → get_elem? h.storage pos ≡ some (Slot.occupied k v)
      → IsSparse (taken h pos k v)
  taken-IsSparse h pos k v s here =
      let t = s.table in
      record {
        table = record {
          exponent = t.exponent;
          power = t.power;
          slots = t.slots ∙ sym (length-set h.storage pos (Slot.deleted k v));
          small = t.small;
          counted = rw (used-set_deleted h.storage pos k v here) t.counted;
        };
        half = s.half;
        calm = s.calm;
      }

  passes-deleted :
      (other k : K) (v : V) → ends_probe hashers.eq other true (Slot.deleted k v) ≡ false
  unfolding ends_probe
  passes-deleted other k v = refl

  -- Behind the removal, lookups find nothing under the key and the rest as it was.
  get-taken :
      (h : Hash K V) (key k : K) (v : V) (pos : ℕ) (other : K)
      → IsSparse h
      → IsMap hashers h
      → get_elem? h.storage pos ≡ some (Slot.occupied k v)
      → hashers.eq key k ≡ true
      → (get hashers (taken h pos k v) other
          ≡ done (if hashers.eq other key then none else find hashers h.storage other))
        × (find hashers (set h.storage pos (Slot.deleted k v)) other
            ≡ (if hashers.eq other key then none else find hashers h.storage other))
  get-taken h key k v pos other s m here equal =
      let u = taken h pos k v in
      let sparse = taken-IsSparse h pos k v s here in
      elim (Bool-cases (hashers.eq other key)) [
        | inl same ↦
            let gone : find hashers u.storage other ≡ none =
              find-set_deleted hashers right h.storage pos k other v m.apart here
                (right.transitive other key k same equal) in
            (
              rw same
                  (get-absent hashers right.odd u other sparse.table (spare_slot u sparse) gone),
              rw same gone,
            )
        | inr differs ↦
            let left : hashers.eq other k ≡ false =
              eq-apart hashers right other key k differs equal in
            (
              rw differs (
                  get-other hashers right.odd h other pos (Slot.occupied k v) (Slot.deleted k v)
                    u.len u.non_free_entries s.table (spare_slot h s) sparse.table
                    (spare_slot u sparse) here left (passes-deleted other k v) (m.found other)),
              rw differs (
                  find-set_other hashers h.storage pos (Slot.occupied k v) (Slot.deleted k v) other
                    here left refl),
            )
      ]

  remove_at :
      (h : Hash K V) (key : K) (pos : ℕ) (slot : Slot K V)
      → IsSparse h
      → IsMap hashers h
      → index_for_key hashers h key true ≡ done pos
      → get_elem? h.storage pos ≡ some slot
      → ends_probe hashers.eq key true slot ≡ true
      → RemoveResult hashers h key (remove hashers h key)
  unfolding ends_probe
  remove_at h key pos Slot.free s m found here ends = inr (
    removes h key pos (some Slot.free) found here,
    value_inj (sym (m.found key) ∙ get-reads hashers h key pos (some Slot.free) found here),
  )
  remove_at h key pos (Slot.deleted k v) s m found here ends = absurd (cc ends)
  remove_at h key pos (Slot.occupied k v) s m found here ends = inl (
    taken h pos k v,
    k,
    v,
    pos,
    removes h key pos (some (Slot.occupied k v)) found here,
    find-here hashers right h.storage pos k key v m.apart here ends,
    record {
      equal = ends;
      here = here;
      marked = refl;
      one_less = refl;
      sparse = taken-IsSparse h pos k v s here;
      map = record {
        apart = Apart-set_deleted hashers right h.storage pos k v m.apart;
        found =
            λ other. let r = get-taken h key k v pos other s m here ends in r.0 ∙ ap done (sym r.1);
      };
      reads = λ other. (get-taken h key k v pos other s m here ends).0;
    },
  )

  -- Where the hashers are right, `remove` from a sparse table that is a map has a result. It marks the
  -- slot of the pair with an equal key as deleted and answers the pair; behind that lookups find nothing
  -- under the key and what was there under all others, and the table is sparse and a map. Or there is no
  -- such pair, it answers so and changes nothing.
  pub remove-RemoveResult :
      (h : Hash K V) (key : K)
      → IsSparse h
      → IsMap hashers h
      → RemoveResult hashers h key (remove hashers h key)
  remove-RemoveResult h key s m =
      let (pos, found, e) = index-Found hashers right.odd h key true s.table (spare_slot h s) in
      remove_at h key pos e.slot s m found e.here e.ends
