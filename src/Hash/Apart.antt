-- ===== src/Hash/Apart.antt =====
-- a.yanin/common/collections.hash/include/common/collections/hash.h: storages in which no two pairs
-- have equal keys.
use posix_threads.Common.{
  ℕ, zero, suc, ◌≡◌, refl, sym, ap, ◌∙◌, inl, inr, true, false, none, some, List, [], ◌∷◌,
  Bool-cases, some_inj, none-ne-some, get_elem?, set,
}
use posix_threads.Hash.{Slot, Hashers, value_in}
use posix_threads.Hash.Pairs.{
  IsRight, first_of, first_of-none, find, Apart, matches, find-set_absent, find-none,
}

module _ {ℓ} {K : Type ℓ} (hashers : Hashers K) (right : IsRight hashers) where
  -- The comparison takes equal keys for the same.
  pub eq-same : (a b c : K) → hashers.eq a b ≡ true → hashers.eq a c ≡ hashers.eq b c
  eq-same a b c equal = elim (Bool-cases (hashers.eq b c)) [
    | inl e ↦ right.transitive a b c equal e ∙ sym e
    | inr e ↦ elim (Bool-cases (hashers.eq a c)) [
      | inl f ↦ f ∙ sym (right.transitive b a c (right.symmetric a b equal) f)
      | inr f ↦ f ∙ sym e
    ]
  ]

  pub eq-other : (a b : K) → hashers.eq a b ≡ false → hashers.eq b a ≡ false
  eq-other a b other = elim (Bool-cases (hashers.eq b a)) [
    | inl e ↦ absurd (cc (sym other ∙ right.symmetric b a e))
    | inr e ↦ e
  ]

module _ {ℓ κ} {K : Type ℓ} {V : Type κ} (hashers : Hashers K) (right : IsRight hashers) where
  pub find-same :
      (slots : List (Slot K V)) (a b : K)
      → hashers.eq a b ≡ true
      → find hashers slots a ≡ find hashers slots b
  find-same [] a b equal = refl
  find-same (Slot.free ∷ slots) a b equal = find-same slots a b equal
  find-same (Slot.deleted k v ∷ slots) a b equal = find-same slots a b equal
  find-same (Slot.occupied k v ∷ slots) a b equal =
      ap (λ t. first_of t v (find hashers slots a)) (eq-same hashers right a b k equal)
      ∙ ap (λ t. first_of (hashers.eq b k) v t) (find-same slots a b equal)

  -- A pair with a key that is not there leaves the keys apart.
  pub Apart-set :
      (slots : List (Slot K V)) (i : ℕ) (k : K) (v : V)
      → find hashers slots k ≡ none
      → Apart hashers slots
      → Apart hashers (set slots i (Slot.occupied k v))
  Apart-set [] i k v absent apart = tt
  Apart-set (Slot.free ∷ slots) zero k v absent apart = (absent, apart)
  Apart-set (Slot.deleted a b ∷ slots) zero k v absent apart = (absent, apart)
  Apart-set (Slot.occupied a b ∷ slots) zero k v absent apart =
      ((first_of-none _ _ _ absent).1, apart.1)
  Apart-set (Slot.free ∷ slots) (suc i) k v absent apart = Apart-set slots i k v absent apart
  Apart-set (Slot.deleted a b ∷ slots) (suc i) k v absent apart = Apart-set slots i k v absent apart
  Apart-set (Slot.occupied a b ∷ slots) (suc i) k v absent apart =
      let (left, rest) = first_of-none _ _ _ absent in
      (
        find-set_absent hashers slots i (Slot.occupied k v) a apart.0
            (eq-other hashers right k a left),
        Apart-set slots i k v rest apart.1,
      )

  pub Apart-set_deleted :
      (slots : List (Slot K V)) (i : ℕ) (k : K) (v : V)
      → Apart hashers slots
      → Apart hashers (set slots i (Slot.deleted k v))
  Apart-set_deleted [] i k v apart = tt
  Apart-set_deleted (Slot.free ∷ slots) zero k v apart = apart
  Apart-set_deleted (Slot.deleted a b ∷ slots) zero k v apart = apart
  Apart-set_deleted (Slot.occupied a b ∷ slots) zero k v apart = apart.1
  Apart-set_deleted (Slot.free ∷ slots) (suc i) k v apart = Apart-set_deleted slots i k v apart
  Apart-set_deleted (Slot.deleted a b ∷ slots) (suc i) k v apart =
      Apart-set_deleted slots i k v apart
  Apart-set_deleted (Slot.occupied a b ∷ slots) (suc i) k v apart = (
    find-set_absent hashers slots i (Slot.deleted k v) a apart.0 refl,
    Apart-set_deleted slots i k v apart.1,
  )

  -- Where the keys are apart, a search for a deleted key finds nothing.
  pub find-set_deleted :
      (slots : List (Slot K V)) (i : ℕ) (k key : K) (v : V)
      → Apart hashers slots
      → get_elem? slots i ≡ some (Slot.occupied k v)
      → hashers.eq key k ≡ true
      → find hashers (set slots i (Slot.deleted k v)) key ≡ none
  find-set_deleted [] i k key v apart here equal = refl
  find-set_deleted (Slot.free ∷ slots) zero k key v apart here equal = absurd (cc here)
  find-set_deleted (Slot.deleted a b ∷ slots) zero k key v apart here equal = absurd (cc here)
  find-set_deleted (Slot.occupied a b ∷ slots) zero k key v apart here equal =
      let same : hashers.eq key a ≡ true =
        ap (λ s. matches hashers key s) (some_inj here) ∙ equal in
      find-same slots key a same ∙ apart.0
  find-set_deleted (Slot.free ∷ slots) (suc i) k key v apart here equal =
      find-set_deleted slots i k key v apart here equal
  find-set_deleted (Slot.deleted a b ∷ slots) (suc i) k key v apart here equal =
      find-set_deleted slots i k key v apart here equal
  find-set_deleted (Slot.occupied a b ∷ slots) (suc i) k key v apart here equal =
      let left : hashers.eq a k ≡ false =
        find-none hashers slots i (Slot.occupied k v) a apart.0 here in
      let other : hashers.eq key a ≡ false = elim (Bool-cases (hashers.eq key a)) [
        | inl e ↦ absurd (cc (sym equal ∙ eq-same hashers right key a k e ∙ left))
        | inr e ↦ e
      ] in
      ap (λ t. first_of t b (find hashers (set slots i (Slot.deleted k v)) key)) other
      ∙ find-set_deleted slots i k key v apart.1 here equal

  -- Where the keys are apart, the search finds the pair that is there.
  pub find-here :
      (slots : List (Slot K V)) (i : ℕ) (k key : K) (v : V)
      → Apart hashers slots
      → get_elem? slots i ≡ some (Slot.occupied k v)
      → hashers.eq key k ≡ true
      → find hashers slots key ≡ some v
  find-here [] i k key v apart here equal = absurd (none-ne-some here)
  find-here (Slot.free ∷ slots) zero k key v apart here equal = absurd (cc here)
  find-here (Slot.deleted a b ∷ slots) zero k key v apart here equal = absurd (cc here)
  find-here (Slot.occupied a b ∷ slots) zero k key v apart here equal =
      ap (λ t. first_of t b (find hashers slots key))
        (ap (λ s. matches hashers key s) (some_inj here) ∙ equal)
      ∙ ap (λ s. value_in (some s)) (some_inj here)
  find-here (Slot.free ∷ slots) (suc i) k key v apart here equal =
      find-here slots i k key v apart here equal
  find-here (Slot.deleted a b ∷ slots) (suc i) k key v apart here equal =
      find-here slots i k key v apart here equal
  find-here (Slot.occupied a b ∷ slots) (suc i) k key v apart here equal =
      let left : hashers.eq a k ≡ false =
        find-none hashers slots i (Slot.occupied k v) a apart.0 here in
      let other : hashers.eq key a ≡ false = elim (Bool-cases (hashers.eq key a)) [
        | inl e ↦ absurd (cc (sym equal ∙ eq-same hashers right key a k e ∙ left))
        | inr e ↦ e
      ] in
      ap (λ t. first_of t b (find hashers slots key)) other
      ∙ find-here slots i k key v apart.1 here equal
