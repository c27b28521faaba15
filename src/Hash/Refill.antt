-- ===== src/Hash/Refill.antt =====
-- a.yanin/common/collections.hash/include/common/collections/hash.h: a new table is filled with
-- the pairs of the old one.
use posix_threads.Common.{
  ℕ, zero, suc, ◌+◌, ◌*◌, ◌≤◌, ◌<◌, ◌≡◌, refl, sym, ap, ◌∙◌, inl, inr, true, Option, none, some,
  List, [], ◌∷◌, map, arith, lt→ltb, Bool-cases, lt→leb_false, set, replicate, done, ◌>>=◌,
}
use posix_threads.Hash.{
  Slot, Hash, Hashers, store, should_rehash, reinsert, reinsert_all, empty_map,
}
use posix_threads.Hash.Lookup.{stored}
use posix_threads.Hash.Counts.{live}
use posix_threads.Hash.Invariant.{IsTable}
use posix_threads.Hash.Pairs.{IsRight, first_of, find, Apart, find-set_absent, first_of-none}
use posix_threads.Hash.Apart.{find-same, eq-other}
use posix_threads.Hash.Others.{get-absent}
use posix_threads.Hash.Maps.{IsMap, place, find-place, place-IsMap}

module _ {ℓ κ} {K : Type ℓ} {V : Type κ} (hashers : Hashers K) where
  abbrev pub or_else : Option V → Option V → Option V
  or_else (some v) o = some v
  or_else none o = o

  -- No pair of `slots` has a key of the other storage.
  Fresh : List (Slot K V) → List (Slot K V) → Type κ
  Fresh [] table = Unit
  Fresh (Slot.free ∷ slots) table = Fresh slots table
  Fresh (Slot.deleted k v ∷ slots) table = Fresh slots table
  Fresh (Slot.occupied k v ∷ slots) table = (find hashers table k ≡ none) × Fresh slots table

-- A new storage has no pairs.
module _ {ℓ κ} {K : Type ℓ} (V : Type κ) (hashers : Hashers K) where
  Apart-replicate : (n : ℕ) → Apart hashers (replicate {A = Slot K V} n Slot.free)
  Apart-replicate zero = tt
  Apart-replicate (suc n) = Apart-replicate n

  find-replicate :
      (n : ℕ) (key : K) → find hashers (replicate {A = Slot K V} n Slot.free) key ≡ none
  find-replicate zero key = refl
  find-replicate (suc n) key = find-replicate n key

module _ {ℓ κ} {K : Type ℓ} {V : Type κ} (hashers : Hashers K) (right : IsRight hashers) where
  Fresh-set :
      (slots table : List (Slot K V)) (i : ℕ) (k : K) (v : V)
      → find hashers slots k ≡ none
      → Fresh hashers slots table
      → Fresh hashers slots (set table i (Slot.occupied k v))
  unfolding Fresh
  Fresh-set [] table i k v absent fresh = tt
  Fresh-set (Slot.free ∷ slots) table i k v absent fresh = Fresh-set slots table i k v absent fresh
  Fresh-set (Slot.deleted a b ∷ slots) table i k v absent fresh =
      Fresh-set slots table i k v absent fresh
  Fresh-set (Slot.occupied a b ∷ slots) table i k v absent fresh =
      let (left, rest) = first_of-none _ _ _ absent in
      (
        find-set_absent hashers table i (Slot.occupied k v) a fresh.0
            (eq-other hashers right k a left),
        Fresh-set slots table i k v rest fresh.1,
      )

  reinsert-stored :
      (h u : Hash K V) (k : K) (v : V)
      → 2 * h.non_free_entries < h.capacity
      → store hashers h k v ≡ done u
      → reinsert hashers h k v ≡ done u
  unfolding reinsert should_rehash
  reinsert-stored h u k v room run =
      rw (lt→ltb 0 h.capacity (omega arith), lt→leb_false (2 * h.non_free_entries) h.capacity room)
        run

  reinsert_all-step :
      (slots : List (Slot K V)) (h g : Hash K V) (k : K) (v : V)
      → reinsert hashers h k v ≡ done g
      → reinsert_all hashers (Slot.occupied k v ∷ slots) h ≡ reinsert_all hashers slots g
  unfolding reinsert_all
  reinsert_all-step slots h g k v run = ap (λ r. r >>= reinsert_all hashers slots) run

  reinsert_all-IsMap :
      (slots : List (Slot K V)) (h : Hash K V)
      → IsTable h
      → 2 * (h.non_free_entries + live slots) ≤ h.capacity
      → IsMap hashers h
      → Apart hashers slots
      → Fresh hashers slots h.storage
      → (u : Hash K V) × (reinsert_all hashers slots h ≡ done u)
        × IsMap hashers u
        × ((key : K)
            → find hashers u.storage key
              ≡ or_else hashers (find hashers slots key) (find hashers h.storage key))
  unfolding reinsert_all Fresh
  reinsert_all-IsMap [] h t room m apart fresh = (h, refl, m, λ key. refl)
  reinsert_all-IsMap (Slot.free ∷ slots) h t room m apart fresh =
      reinsert_all-IsMap slots h t room m apart fresh
  reinsert_all-IsMap (Slot.deleted k v ∷ slots) h t room m apart fresh =
      reinsert_all-IsMap slots h t room m apart fresh
  reinsert_all-IsMap (Slot.occupied k v ∷ slots) h t room m apart fresh =
      let p = place hashers right h k v t (omega arith) in
      let g = stored k v h p.pos in
      let (u, run, map, same) =
        reinsert_all-IsMap slots g p.grown.table
          (omega (arith, room, p.grown.one_more, p.grown.same_capacity))
          (place-IsMap hashers right h k v p t (omega arith) m fresh.0) apart.1
          (Fresh-set slots h.storage p.pos k v apart.0 fresh.1) in
      (
        u,
        reinsert_all-step slots h g k v (reinsert-stored h g k v (omega arith) p.run) ∙ run,
        map,
        λ key.
            same key
            ∙ ap (or_else hashers (find hashers slots key))
                (find-place hashers right h k v p key fresh.0)
            ∙ swap key k v (find hashers slots key) (find hashers h.storage key)
                (λ e. find-same hashers right slots key k e ∙ apart.0),
      )
    where
      swap :
          (key k : K) (v : V) (a b : Option V)
          → (hashers.eq key k ≡ true → a ≡ none)
          → or_else hashers a (first_of (hashers.eq key k) v b)
            ≡ or_else hashers (first_of (hashers.eq key k) v a) b
      swap key k v a b absent = elim (Bool-cases (hashers.eq key k)) [
        | inl e ↦ rw (e, absent e) refl
        | inr e ↦ rw e refl
      ]

  Fresh-replicate : (slots : List (Slot K V)) (n : ℕ) → Fresh hashers slots (replicate n Slot.free)
  unfolding Fresh
  Fresh-replicate [] n = tt
  Fresh-replicate (Slot.free ∷ slots) n = Fresh-replicate slots n
  Fresh-replicate (Slot.deleted k v ∷ slots) n = Fresh-replicate slots n
  Fresh-replicate (Slot.occupied k v ∷ slots) n =
      (find-replicate V hashers n k, Fresh-replicate slots n)

  or_else-none : (o : Option V) → or_else hashers o none ≡ o
  or_else-none none = refl
  or_else-none (some v) = refl

  -- A new table gets just the pairs that are inserted into it again.
  pub refill-IsMap :
      (slots : List (Slot K V)) (c : ℕ)
      → IsTable (empty_map {K = K} {V = V} c)
      → 2 * live slots ≤ c
      → 0 < c
      → Apart hashers slots
      → (u : Hash K V) × (reinsert_all hashers slots (empty_map c) ≡ done u)
        × IsMap hashers u
        × ((key : K) → find hashers u.storage key ≡ find hashers slots key)
  refill-IsMap slots c t room some_room apart =
      let (u, run, map, same) =
        reinsert_all-IsMap slots (empty_map c) t (omega arith)
          (record {
            apart = Apart-replicate V hashers c;
            found = λ key.
                get-absent hashers right.odd (empty_map c) key t some_room
                  (find-replicate V hashers c key)
                ∙ ap done (sym (find-replicate V hashers c key));
          })
          apart (Fresh-replicate slots c) in
      (
        u,
        run,
        map,
        λ key.
            same key
            ∙ ap (or_else hashers (find hashers slots key)) (find-replicate V hashers c key)
            ∙ or_else-none (find hashers slots key),
      )
