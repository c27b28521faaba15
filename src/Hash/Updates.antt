-- ===== src/Hash/Updates.antt =====
-- a.yanin/common/collections.hash/include/common/collections/hash.h: `insert` on a table as a
-- map, the change of its capacity included.
use posix_threads.Common.{
  ℕ, suc, ◌*◌, ◌^◌, ◌≤◌, ◌<◌, ◌≡◌, refl, sym, ap, ◌∙◌, ◌≢◌, ◌⊎◌, inl, inr, Bool, true, false, none,
  [], map, arith, dec_lt, ltb, leb, ◌==◌, lt→ltb, Bool-cases, Option-cases, le→leb, lt→leb_false,
  ne→==_false, none-ne-some, take, length-replicate, take_all, Outcome, done, stop, ErrorCode,
  is_ok,
}
use mathlib.Core.Path.{subst}
use posix_threads.Vec.{Allocator, u64}
use posix_threads.Vec.Grow.{RefusesHuge}
use posix_threads.Hash.{
  new, unallocated, Slot, Hash, Hashers, get, store, should_rehash, rehash, insert, enlarged,
}
use posix_threads.Hash.Index.{true-ne-false}
use posix_threads.Hash.Lookup.{stored}
use posix_threads.Hash.Counts.{live-le-used, used-replicate}
use posix_threads.Hash.Invariant.{IsTable, IsSparse, IsTable-positive}
use posix_threads.Hash.Insertion.{new-IsSparse, rehash_done, rehash-RehashResult}
use posix_threads.Hash.Pairs.{IsRight, first_of, find}
use posix_threads.Hash.Refill.{refill-IsMap}
use posix_threads.Hash.Maps.{IsMap, IsMap-flag, place, get-place, place-IsMap}

abbrev success {ℓ κ} : {K : Type ℓ} {V : Type κ} → Hash K V → Outcome (ErrorCode × Hash K V)
success h = done (ErrorCode.ok, h)

abbrev table_of {ℓ κ} :
    {K : Type ℓ} {V : Type κ} → Hash K V → Outcome (ErrorCode × Hash K V) → Hash K V
table_of h (done (code, g)) = g
table_of h (stop fault) = h

abbrev succeeds {ℓ κ} : {K : Type ℓ} {V : Type κ} → Outcome (ErrorCode × Hash K V) → Bool
succeeds (done (code, g)) = is_ok code
succeeds (stop fault) = false

success_inj {ℓ κ} : {K : Type ℓ} {V : Type κ} {a b : Hash K V} → success a ≡ success b → a ≡ b
success_inj {a = a} e = ap (table_of a) e

module _ {ℓ κ} {K : Type ℓ} {V : Type κ} (hashers : Hashers K) (right : IsRight hashers) where
  -- The table `u` is `h` with the value under the key: its lookups give the value under the keys that
  -- are equal to it and what `h` has under all others; and it has each key once, unless `h` had the key.
  pub record Updated (h : Hash K V) (key : K) (value : V) (u : Hash K V) : Type (ℓ ⊔ κ) where
    pub sparse : IsSparse u
    pub reads :
        (other : K)
        → get hashers u other
          ≡ done (first_of (hashers.eq other key) value (find hashers h.storage other))
    pub map : IsMap hashers u ⊎ (find hashers h.storage key ≢ none)

  store-Updated :
      (h : Hash K V) (key : K) (value : V)
      → IsTable h
      → IsMap hashers h
      → 2 * h.non_free_entries < h.capacity
      → h.rehashing ≡ false
      → (u : Hash K V) × (store hashers h key value ≡ done u) × Updated h key value u
  store-Updated h key value t m room calm =
      let p = place hashers right h key value t room in
      (
        stored key value h p.pos,
        p.run,
        record {
          sparse = record {
            table = p.grown.table;
            half = p.grown.half;
            calm = p.grown.same_flag ∙ calm;
          };
          reads = λ other. get-place hashers right h key value p other t room m;
          map = elim (Option-cases (find hashers h.storage key)) [
            | inl absent ↦ inl (place-IsMap hashers right h key value p t room m absent)
            | inr (v, there) ↦ inr (λ e. none-ne-some (sym e ∙ there))
          ];
        },
      )

  -- Where the pairs are the same, so is what an update does.
  Updated-same :
      (h g u : Hash K V) (key : K) (value : V)
      → ((k : K) → find hashers g.storage k ≡ find hashers h.storage k)
      → Updated g key value u
      → Updated h key value u
  Updated-same h g u key value same r = record {
    sparse = r.sparse;
    reads = λ other.
        r.reads other ∙ ap (λ o. done (first_of (hashers.eq other key) value o)) (same other);
    map = elim r.map [ inl m ↦ inl m | inr there ↦ inr (λ e. there (same key ∙ e)) ];
  }

  module _ (grant : Allocator) (size : ℕ) (huge : RefusesHuge grant) (sized : 0 < size) where
    -- The table that `rehash` gives, with the pairs of the old one.
    rehash-IsMap :
        (h g : Hash K V)
        → IsSparse h
        → IsMap hashers h
        → grant (enlarged h.capacity * size) ≡ true
        → rehash hashers grant size h ≡ done (ErrorCode.ok, g)
        → IsMap hashers g × ((k : K) → find hashers g.storage k ≡ find hashers h.storage k)
    rehash-IsMap h g s m given ran =
        let t = s.table in
        let more = IsTable-positive h t in
        let exact : u64 (h.capacity * 2) ≡ h.capacity * 2 = omega (arith, t.small) in
        let nonzero : (h.capacity * 2 == 0) ≡ false =
          ne→==_false (h.capacity * 2) 0 (λ e. absurd (omega arith)) in
        let grown : enlarged h.capacity ≡ h.capacity * 2 = rw (exact, nonzero) refl in
        let c = h.capacity * 2 in
        let asked : grant (c * size) ≡ true = rw grown at given in
        let bytes : c * size < 2 ^ 63 = huge (c * size) asked in
        let bound : c * 1 ≤ c * size = grind arith in
        let whole : take h.capacity h.storage ≡ h.storage =
          take_all h.capacity h.storage (omega (arith, t.slots)) in
        let (u, run, map, same) =
          refill-IsMap hashers right h.storage c
            (record {
              exponent = suc t.exponent;
              power = omega (arith, t.power);
              slots = sym (length-replicate {A = Slot K V} c Slot.free);
              small = omega arith;
              counted = omega (arith, used-replicate K V c);
            })
            (omega (arith, live-le-used h.storage, t.counted, s.half)) (omega arith) m.apart in
        let full =
          rehash_done hashers right.odd grant size h u c s.calm grown asked (rw whole run) in
        let equal : record u { rehashing = false } ≡ g = success_inj (sym full ∙ ran) in
        (
          subst (IsMap hashers) equal (IsMap-flag hashers u false map),
          λ k. ap (λ (x : Hash K V). find hashers x.storage k) (sym equal) ∙ same k,
        )

    -- What `insert` gives: an updated table, or a refused allocation and the table as it was.
    abbrev pub InsertResult : Hash K V → K → V → Outcome (ErrorCode × Hash K V) → Type (ℓ ⊔ κ)
    InsertResult h key value r =
        ((u : Hash K V) × (r ≡ done (ErrorCode.ok, u)) × Updated h key value u)
        ⊎ ((r ≡ done (ErrorCode.memory_allocation_failure, h))
            × (grant (enlarged h.capacity * size) ≡ false))

    -- Where the hashers are right and `calloc` refuses a request of more than `PTRDIFF_MAX` bytes,
    -- `insert` into a sparse table that is a map has a result: a sparse table whose lookups give the value
    -- under the key and what was there under all other keys, a rehash included, and which is a map again
    -- unless the key was there; or the allocation is refused and the table is as it was.
    pub insert-InsertResult :
        (h : Hash K V) (key : K) (value : V)
        → IsSparse h
        → IsMap hashers h
        → InsertResult h key value (insert hashers grant size h key value)
    unfolding insert should_rehash
    insert-InsertResult h key value s m =
        let t = s.table in
        let more = IsTable-positive h t in
        let some_room : ltb 0 h.capacity ≡ true = lt→ltb 0 h.capacity (omega arith) in
        elim (dec_lt (2 * h.non_free_entries) h.capacity) [
          | yes room ↦
              let (u, run, updated) = store-Updated h key value t m room s.calm in
              inl (
                u,
                rw (some_room, lt→leb_false (2 * h.non_free_entries) h.capacity room, run) refl,
                updated,
              )
          | no full ↦
              let due : leb h.capacity (2 * h.non_free_entries) ≡ true =
                le→leb h.capacity (2 * h.non_free_entries) (omega arith) in
              elim (rehash-RehashResult hashers right.odd grant size huge sized h s) [
                | inr (refused, denied) ↦ inr (rw (some_room, due, refused) refl, denied)
                | inl (g, grew, table, room, calm, given) ↦
                    let (map, same) = rehash-IsMap h g s m given grew in
                    let (u, run, updated) = store-Updated g key value table map room calm in
                    inl (
                      u,
                      rw (some_room, due, grew, run) refl,
                      Updated-same h g u key value same updated,
                    )
              ]
        ]

    rehash_refused :
        grant (8 * size) ≡ false
        → rehash hashers grant size (unallocated {K = K} {V = V})
          ≡ done (ErrorCode.memory_allocation_failure, unallocated)
    unfolding rehash
    rehash_refused denied = rw denied refl

    -- A new table is a map without pairs.
    pub new-IsMap :
        ((u : Hash K V) × (new hashers grant size ≡ done (ErrorCode.ok, u))
          × IsSparse u
          × IsMap hashers u
          × ((k : K) → find hashers u.storage k ≡ none))
        ⊎ ((u : Hash K V) × (new hashers grant size
              ≡ done (ErrorCode.memory_allocation_failure, u)))
    unfolding new
    new-IsMap = elim (new-IsSparse {V = V} hashers right.odd grant size huge sized) [
      | inr (u, refused) ↦ inr (u, refused)
      | inl (u, run, sparse) ↦ elim (Bool-cases (grant (8 * size))) [
        | inr denied ↦
            absurd (true-ne-false (sym (ap succeeds run) ∙ ap succeeds (rehash_refused denied)))
        | inl given ↦
            let bytes : 8 * size < 2 ^ 63 = huge (8 * size) given in
            let (g, filled, map, same) =
              refill-IsMap hashers right [] 8
                (record {
                  exponent = 2;
                  power = refl;
                  slots = sym (length-replicate {A = Slot K V} 8 Slot.free);
                  small = omega arith;
                  counted = omega (arith, used-replicate K V 8);
                })
                (omega arith) (omega arith) tt in
            let full =
              rehash_done hashers right.odd grant size unallocated g 8 refl refl given filled in
            let equal : record g { rehashing = false } ≡ u = success_inj (sym full ∙ run) in
            inl (
              u,
              run,
              sparse,
              subst (IsMap hashers) equal (IsMap-flag hashers g false map),
              λ k. ap (λ (x : Hash K V). find hashers x.storage k) (sym equal) ∙ same k,
            )
      ]
    ]
