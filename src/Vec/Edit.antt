-- ===== src/Vec/Edit.antt =====
-- A vector as a list: what `insert`, `push`, `remove` and the reads do to the elements in use.
use mathlib.Core.Option
use native.Mathlib.Numerals.{add-one}
use posix_threads.Common.{
  ℕ, zero, suc, ◌+◌, ◌-◌, ◌*◌, ◌≤◌, ◌<◌, ◌≡◌, ◌⊎◌, inl, inr, refl, ap, ◌∙◌, List, [], ◌∷◌, ◌++◌,
  Option, none, some, dec_lt, le→ltb_false, false, take, drop, get_elem?, length, map, length-take,
  length-map, le→leb, lt→ltb, lt→leb_false, Outcome, done, stop, assertion, ErrorCode, take-take,
  arith,
}
use posix_threads.Vec.{Vec, Allocator, u64, shift_in, insert, remove, get}
use posix_threads.Vec.Shift.{
  opened, closed, take-opened, take-closed, shift-opened, copy_slots-closed, length-opened,
  length-closed,
}
use posix_threads.Vec.Grow.{RefusesHuge, IsValid, Resized, next_capacity, enlarge-Resized}

module _ {ℓ} {A : Type ℓ} where
  -- The vector is well formed, and its elements in use are `xs`.
  pub record Models (size : ℕ) (v : Vec A) (xs : List A) : Type ℓ where
    pub valid : IsValid size v
    pub holds : take v.len v.storage ≡ map some xs

  pub Models-length : {size : ℕ} {v : Vec A} {xs : List A} → Models size v xs → v.len ≡ length xs
  Models-length {v = v} {xs = xs} m = omega (
    arith,
    ap length m.holds,
    length-take v.len v.storage,
    length-map xs (λ (a : A). some a),
    m.valid.slots,
    m.valid.fits,
  )

  pub take-map : (n : ℕ) (xs : List A) → take n (map some xs) ≡ map some (take n xs)
  take-map zero xs = refl
  take-map (suc n) [] = refl
  take-map (suc n) (x ∷ xs) = ap (λ t. some x ∷ t) (take-map n xs)

  drop-map : (n : ℕ) (xs : List A) → drop n (map some xs) ≡ map some (drop n xs)
  drop-map zero xs = refl
  drop-map (suc n) [] = refl
  drop-map (suc n) (x ∷ xs) = drop-map n xs

  map-some-append : (xs ys : List A) → map some xs ++ map some ys ≡ map some (xs ++ ys)
  map-some-append [] ys = refl
  map-some-append (x ∷ xs) ys = ap (λ t. some x ∷ t) (map-some-append xs ys)

  inserted : ℕ → A → List A → List A
  inserted pos x xs = take pos xs ++ (x ∷ drop pos xs)

  -- With room for one more, the writes of `insert` put the value at its place.
  shift_in-Models :
      {size : ℕ} {v : Vec A} {xs : List A} (pos : ℕ) (x : A)
      → Models size v xs
      → v.len < v.capacity
      → pos ≤ v.len
      → (u : Vec A) × (shift_in v pos x ≡ done u) × Models size u (inserted pos x xs)
  unfolding shift_in inserted
  shift_in-Models {size} {v} {xs} pos x m room below =
      let slots = m.valid.slots in
      let bound : v.capacity * 1 ≤ v.capacity * size = grind (arith, m.valid.sized) in
      let exact : u64 (v.len + 1) ≡ v.len + 1 = omega (arith, m.valid.small) in
      (
        record { storage = opened pos v.len x v.storage; capacity = v.capacity; len = v.len + 1 },
        rw (shift-opened pos v.len x v.storage below (omega arith), exact),
        record {
          valid = record {
            slots = length-opened pos v.len x v.storage below (omega arith) ∙ slots;
            fits = omega arith;
            small = m.valid.small;
            sized = m.valid.sized;
            narrow = m.valid.narrow;
          };
          holds = rw add-one (
              take-opened pos v.len x v.storage below (omega arith)
              ∙ rw (m.holds, take-map, drop-map) (map-some-append (take pos xs) (x ∷ drop pos xs)));
        },
      )

  -- `remove` stops at its assertion for a position past the elements in use. Otherwise it takes the
  -- element at that position out of the list, and keeps the vector well formed.
  pub remove-Models :
      {size : ℕ} {v : Vec A} {xs : List A} (pos : ℕ)
      → Models size v xs
      → ((length xs ≤ pos) × (remove v pos ≡ stop assertion))
        ⊎ ((u : Vec A) × (pos < length xs)
            × (remove v pos ≡ done u)
            × Models size u (take pos xs ++ drop (suc pos) xs))
  unfolding remove
  remove-Models {size} {v} {xs} pos m = elim (dec_lt pos v.len) [
    | no above ↦ inl (omega (arith, Models-length m), rw (le→ltb_false v.len pos (omega arith)))
    | yes below ↦
        let n = v.len - 1 in
        let same : v.len - pos - 1 ≡ n - pos = omega arith in
        let last : suc n ≡ v.len = omega arith in
        let s = v.storage in
        inr (
          record { storage = closed pos n s; capacity = v.capacity; len = n },
          omega (arith, Models-length m),
          rw (lt→ltb _ _ below, same, copy_slots-closed pos n s (omega arith) (omega arith)),
          record {
            valid = record {
              slots = length-closed pos n s (omega arith) (omega arith) ∙ m.valid.slots;
              fits = omega arith;
              small = m.valid.small;
              sized = m.valid.sized;
              narrow = m.valid.narrow;
            };
            holds =
                take-closed pos n s (omega arith) (omega arith)
                ∙ rw (last, ← take-take pos v.len s (omega arith), m.holds, take-map, drop-map)
                    (map-some-append (take pos xs) (drop (suc pos) xs));
          },
        )
  ]

  get_elem?-take :
      (n pos : ℕ) (s : List (Option A)) → pos < n → get_elem? (take n s) pos ≡ get_elem? s pos
  get_elem?-take zero pos s h = absurd (omega arith)
  get_elem?-take (suc n) pos [] h = refl
  get_elem?-take (suc n) zero (x ∷ s) h = refl
  get_elem?-take (suc n) (suc pos) (x ∷ s) h = get_elem?-take n pos s (omega arith)

  get_elem?-map :
      (pos : ℕ) (xs : List A) → get_elem? (map some xs) pos ≡ Option.map some (get_elem? xs pos)
  get_elem?-map pos [] = refl
  get_elem?-map zero (x ∷ xs) = refl
  get_elem?-map (suc pos) (x ∷ xs) = get_elem?-map pos xs

  get_elem?_past : (pos : ℕ) (xs : List A) → length xs ≤ pos → get_elem? xs pos ≡ none
  get_elem?_past pos [] h = refl
  get_elem?_past zero (x ∷ xs) h = absurd (omega arith)
  get_elem?_past (suc pos) (x ∷ xs) h = get_elem?_past pos xs (omega arith)

  -- `get` gives the element at a position in use, and `NULL` past the last one.
  pub get-Models :
      {size : ℕ} {v : Vec A} {xs : List A} (pos : ℕ)
      → Models size v xs
      → get v pos ≡ Option.map some (get_elem? xs pos)
  unfolding get
  get-Models {size} {v} {xs} pos m = elim (dec_lt pos v.len) [
    | yes inside ↦
        rw (lt→leb_false _ _ inside, ← get_elem?-take v.len pos v.storage inside, m.holds)
          (get_elem?-map pos xs)
    | no past ↦
        rw (le→leb v.len pos (omega arith), get_elem?_past pos xs (omega (arith, Models-length m)))
  ]

module _ {ℓ} {A : Type ℓ} (grant : Allocator) (size : ℕ) where
  -- What `insert` may answer: success, or a refused allocation with the vector unchanged.
  abbrev pub InsertResult : Vec A → List A → ℕ → A → Outcome (ErrorCode × Vec A) → Type ℓ
  InsertResult v xs pos x r =
      ((u : Vec A) × (r ≡ done (ErrorCode.ok, u))
        × Models size u (take pos xs ++ (x ∷ drop pos xs)))
      ⊎ ((r ≡ done (ErrorCode.memory_allocation_failure, v))
          × (v.len ≡ v.capacity)
          × (grant (u64 (next_capacity v.capacity * size)) ≡ false))

  Resized-Models :
      {v w : Vec A} {xs : List A} {n : ℕ} → Models size v xs → Resized size v n w → Models size w xs
  Resized-Models m r = record { valid = r.valid; holds = rw r.same_len (r.kept ∙ m.holds) }

  -- For a vector that is well formed, `insert` at a position up to the length puts the value at its
  -- place in the list and keeps the vector well formed; or the vector is full, the allocation of the
  -- next capacity is refused, and the vector is unchanged.
  pub insert-Models :
      RefusesHuge grant
      → {v : Vec A} {xs : List A} (pos : ℕ) (x : A) → Models size v xs
      → pos ≤ length xs
      → InsertResult v xs pos x (insert grant size v pos x)
  unfolding insert inserted
  insert-Models huge {v} {xs} pos x m below =
      let inside : pos ≤ v.len = omega (arith, Models-length m) in
      rw (le→leb _ _ inside) (elim (dec_lt v.len v.capacity) [
        | yes room ↦
            let (u, run, holds) = shift_in-Models pos x m room inside in
            inl (u, rw (lt→leb_false _ _ room, run), holds)
        | no full ↦ elim (enlarge-Resized grant size huge v m.valid) [
          | inl (w, grown, r) ↦
              let (u, run, holds) =
                shift_in-Models pos x (Resized-Models m r)
                  (ground (arith, r.room, r.same_len, m.valid.fits)) (omega (arith, r.same_len)) in
              inl (u, rw (le→leb v.capacity v.len (omega arith), grown, run), holds)
          | inr (refused, no_memory) ↦ inr (
            rw (le→leb v.capacity v.len (omega arith), refused),
            omega (arith, m.valid.fits),
            no_memory,
          )
        ]
      ])
