-- ===== src/Hash/Pairs.antt =====
-- a.yanin/common/collections.hash/include/common/collections/hash.h: the pairs of a storage, as a search
-- through all its slots reads them.
use posix_threads.Common.{
  ℕ, zero, suc, ◌%◌, ◌<◌, ◌≡◌, refl, sym, ap, ◌∙◌, Bool, true, false, Option, none, some, List, [],
  ◌∷◌, arith, some_inj, none-ne-some, length, get_elem?, set,
}
use posix_threads.Hash.{Slot, Hashers}

-- What a table asks of its hashers: the comparison is an equivalence, equal keys have equal hashes,
-- and the secondary hashes are odd.
pub record IsRight {ℓ} {K : Type ℓ} (hashers : Hashers K) : Type ℓ where
  pub odd : (a : K) → hashers.secondary a % 2 ≡ 1
  pub reflexive : (a : K) → hashers.eq a a ≡ true
  pub symmetric : (a b : K) → hashers.eq a b ≡ true → hashers.eq b a ≡ true
  pub transitive :
      (a b c : K) → hashers.eq a b ≡ true → hashers.eq b c ≡ true → hashers.eq a c ≡ true
  pub same_primary : (a b : K) → hashers.eq a b ≡ true → hashers.primary a ≡ hashers.primary b
  pub same_secondary : (a b : K) → hashers.eq a b ≡ true → hashers.secondary a ≡ hashers.secondary b

abbrev pub first_of {κ} : {V : Type κ} → Bool → V → Option V → Option V
first_of true v rest = some v
first_of false v rest = rest

pub first_of-none {κ} :
    {V : Type κ} (b : Bool) (v : V) (rest : Option V)
    → first_of b v rest ≡ none
    → (b ≡ false) × (rest ≡ none)
first_of-none true v rest h = absurd (none-ne-some (sym h))
first_of-none false v rest h = (refl, h)

module _ {ℓ κ} {K : Type ℓ} {V : Type κ} (hashers : Hashers K) where
  -- the value of the first pair with an equal key
  abbrev pub find : List (Slot K V) → K → Option V
  find [] key = none
  find (Slot.free ∷ slots) key = find slots key
  find (Slot.deleted k v ∷ slots) key = find slots key
  find (Slot.occupied k v ∷ slots) key = first_of (hashers.eq key k) v (find slots key)

  -- No two pairs have equal keys.
  abbrev pub Apart : List (Slot K V) → Type κ
  Apart [] = Unit
  Apart (Slot.free ∷ slots) = Apart slots
  Apart (Slot.deleted k v ∷ slots) = Apart slots
  Apart (Slot.occupied k v ∷ slots) = (find slots k ≡ none) × Apart slots

  -- whether the slot has a pair with an equal key
  abbrev pub matches : K → Slot K V → Bool
  matches key Slot.free = false
  matches key (Slot.deleted k v) = false
  matches key (Slot.occupied k v) = hashers.eq key k

  find-cons :
      (slot : Slot K V) (slots : List (Slot K V)) (key : K)
      → matches key slot ≡ false
      → find (slot ∷ slots) key ≡ find slots key
  find-cons Slot.free slots key left = refl
  find-cons (Slot.deleted k v) slots key left = refl
  find-cons (Slot.occupied k v) slots key left = ap (λ b. first_of b v (find slots key)) left

  -- A write to a slot that has no such pair, before and after, changes no search.
  pub find-set_other :
      (slots : List (Slot K V)) (i : ℕ) (old slot : Slot K V) (key : K)
      → get_elem? slots i ≡ some old
      → matches key old ≡ false
      → matches key slot ≡ false
      → find (set slots i slot) key ≡ find slots key
  find-set_other [] i old slot key here before after = refl
  find-set_other (Slot.free ∷ slots) zero old slot key here before after =
      find-cons slot slots key after
  find-set_other (Slot.deleted a b ∷ slots) zero old slot key here before after =
      find-cons slot slots key after
  find-set_other (Slot.occupied a b ∷ slots) zero old slot key here before after =
      let left : hashers.eq key a ≡ false = ap (λ s. matches key s) (some_inj here) ∙ before in
      find-cons slot slots key after ∙ sym (ap (λ t. first_of t b (find slots key)) left)
  find-set_other (Slot.free ∷ slots) (suc i) old slot key here before after =
      find-set_other slots i old slot key here before after
  find-set_other (Slot.deleted a b ∷ slots) (suc i) old slot key here before after =
      find-set_other slots i old slot key here before after
  find-set_other (Slot.occupied a b ∷ slots) (suc i) old slot key here before after =
      ap (λ t. first_of (hashers.eq key a) b t)
        (find-set_other slots i old slot key here before after)

  -- Where the search finds nothing, a slot that has no such pair does not change that.
  pub find-set_absent :
      (slots : List (Slot K V)) (i : ℕ) (slot : Slot K V) (key : K)
      → find slots key ≡ none
      → matches key slot ≡ false
      → find (set slots i slot) key ≡ none
  find-set_absent [] i slot key absent after = refl
  find-set_absent (Slot.free ∷ slots) zero slot key absent after =
      find-cons slot slots key after ∙ absent
  find-set_absent (Slot.deleted a b ∷ slots) zero slot key absent after =
      find-cons slot slots key after ∙ absent
  find-set_absent (Slot.occupied a b ∷ slots) zero slot key absent after =
      find-cons slot slots key after ∙ (first_of-none _ _ _ absent).1
  find-set_absent (Slot.free ∷ slots) (suc i) slot key absent after =
      find-set_absent slots i slot key absent after
  find-set_absent (Slot.deleted a b ∷ slots) (suc i) slot key absent after =
      find-set_absent slots i slot key absent after
  find-set_absent (Slot.occupied a b ∷ slots) (suc i) slot key absent after =
      let (left, rest) = first_of-none _ _ _ absent in
      ap (λ t. first_of t b (find (set slots i slot) key)) left
      ∙ find-set_absent slots i slot key rest after

  -- A pair that is written where the search finds nothing is found.
  pub find-set_self :
      (slots : List (Slot K V)) (i : ℕ) (k key : K) (v : V)
      → i < length slots
      → find slots key ≡ none
      → hashers.eq key k ≡ true
      → find (set slots i (Slot.occupied k v)) key ≡ some v
  find-set_self [] i k key v inside absent equal = absurd (omega arith)
  find-set_self (Slot.free ∷ slots) zero k key v inside absent equal =
      ap (λ t. first_of t v (find slots key)) equal
  find-set_self (Slot.deleted a b ∷ slots) zero k key v inside absent equal =
      ap (λ t. first_of t v (find slots key)) equal
  find-set_self (Slot.occupied a b ∷ slots) zero k key v inside absent equal =
      ap (λ t. first_of t v (find slots key)) equal
  find-set_self (Slot.free ∷ slots) (suc i) k key v inside absent equal =
      find-set_self slots i k key v (omega arith) absent equal
  find-set_self (Slot.deleted a b ∷ slots) (suc i) k key v inside absent equal =
      find-set_self slots i k key v (omega arith) absent equal
  find-set_self (Slot.occupied a b ∷ slots) (suc i) k key v inside absent equal =
      let (left, rest) = first_of-none _ _ _ absent in
      ap (λ t. first_of t b (find (set slots i (Slot.occupied k v)) key)) left
      ∙ find-set_self slots i k key v (omega arith) rest equal

  -- A search that finds nothing says that no slot has such a pair.
  pub find-none :
      (slots : List (Slot K V)) (i : ℕ) (slot : Slot K V) (key : K)
      → find slots key ≡ none
      → get_elem? slots i ≡ some slot
      → matches key slot ≡ false
  find-none [] i slot key absent here = absurd (none-ne-some here)
  find-none (Slot.free ∷ slots) zero slot key absent here =
      ap (λ s. matches key s) (sym (some_inj here))
  find-none (Slot.deleted a b ∷ slots) zero slot key absent here =
      ap (λ s. matches key s) (sym (some_inj here))
  find-none (Slot.occupied a b ∷ slots) zero slot key absent here =
      ap (λ s. matches key s) (sym (some_inj here)) ∙ (first_of-none _ _ _ absent).0
  find-none (Slot.free ∷ slots) (suc i) slot key absent here =
      find-none slots i slot key absent here
  find-none (Slot.deleted a b ∷ slots) (suc i) slot key absent here =
      find-none slots i slot key absent here
  find-none (Slot.occupied a b ∷ slots) (suc i) slot key absent here =
      find-none slots i slot key (first_of-none _ _ _ absent).1 here
