-- ===== src/Cache/Ledger.antt =====
-- The list and the map of a.yanin/waxy/src/cache.c: sums of sizes, and what an erasure leaves.
use posix_threads.Common.{
  ℕ, ◌+◌, ◌≡◌, refl, sym, ap, ◌∙◌, ◌≢◌, ◌⊎◌, inl, inr, Bool, true, false, ◌||◌, none, some, List,
  [], ◌∷◌, ◌++◌, arith, ℕ_discrete, ◌==◌, if◌then◌else◌, ==_iff, Bool-cases, Option-cases,
  ne→==_false, none-ne-some,
}
use posix_threads.Cache.{member, erase, lookup, erase_key}

abbrev pub total : (ℕ → ℕ) → List ℕ → ℕ
total f [] = 0
total f (x ∷ xs) = f x + total f xs

-- No number occurs twice.
abbrev pub Unique : List ℕ → Type 0
Unique [] = Unit
Unique (x ∷ xs) = (member x xs ≡ false) × Unique xs

pub member-append : (a : ℕ) (xs ys : List ℕ) → member a (xs ++ ys) ≡ (member a xs || member a ys)
member-append a [] ys = refl
member-append a (x ∷ xs) ys = ground (arith, member-append a xs ys)

pub member-erase : (a b : ℕ) (xs : List ℕ) → member b (erase a xs) ≡ true → member b xs ≡ true
member-erase a b [] h = h
member-erase a b (x ∷ xs) h = ground (arith, h, member-erase a b xs)

pub member-erase_other : (a b : ℕ) (xs : List ℕ) → b ≢ a → member b (erase a xs) ≡ member b xs
member-erase_other a b [] other = refl
member-erase_other a b (x ∷ xs) other = ground (arith, member-erase_other a b xs other)

pub member-erase_self : (a : ℕ) (xs : List ℕ) → Unique xs → member a (erase a xs) ≡ false
member-erase_self a [] u = refl
member-erase_self a (x ∷ xs) (out, u) = elim (ℕ_discrete a x) [
  | yes same ↦ rw ((==_iff a x).1 same) (ap (λ b. member b xs) same ∙ out)
  | no other ↦ rw (ne→==_false a x other, ne→==_false a x other) (member-erase_self a xs u)
]

erase-absent : (a b : ℕ) (xs : List ℕ) → member b xs ≡ false → member b (erase a xs) ≡ false
erase-absent a b xs out = elim (Bool-cases (member b (erase a xs))) [
  | inl inside ↦ absurd (ground (arith, out, member-erase a b xs inside))
  | inr absent ↦ absent
]

pub erase-Unique : (a : ℕ) (xs : List ℕ) → Unique xs → Unique (erase a xs)
erase-Unique a [] u = tt
erase-Unique a (x ∷ xs) (out, u) = elim (Bool-cases (a == x)) [
  | inl same ↦ rw same u
  | inr other ↦ rw other (erase-absent a x xs out, erase-Unique a xs u)
]

pub append-Unique : (a : ℕ) (xs : List ℕ) → Unique xs → member a xs ≡ false → Unique (xs ++ a ∷ [])
append-Unique a [] u out = (refl, tt)
append-Unique a (x ∷ xs) (free, u) out = (
  member-append x xs (a ∷ []) ∙ ground (arith, free, out),
  append-Unique a xs u (ground (arith, out)),
)

pub total-append : (f : ℕ → ℕ) (xs ys : List ℕ) → total f (xs ++ ys) ≡ total f xs + total f ys
total-append f [] ys = omega arith
total-append f (x ∷ xs) ys = omega (arith, total-append f xs ys)

pub total-same :
    (f g : ℕ → ℕ) (xs : List ℕ)
    → ((a : ℕ) → member a xs ≡ true → g a ≡ f a)
    → total g xs ≡ total f xs
total-same f g [] same = refl
total-same f g (x ∷ xs) same =
    let head : g x ≡ f x = same x (ground arith) in
    let rest : total g xs ≡ total f xs =
      total-same f g xs (λ a inside. same a (ground (arith, inside))) in
    omega (arith, head, rest)

pub total-erase :
    (f : ℕ → ℕ) (a : ℕ) (xs : List ℕ) → member a xs ≡ true → total f xs ≡ f a + total f (erase a xs)
total-erase f a [] h = absurd (ground (arith, h))
total-erase f a (x ∷ xs) h = elim (ℕ_discrete a x) [
  | yes same ↦ rw ((==_iff a x).1 same) (ap (λ b. f b + total f xs) (sym same))
  | no other ↦
      let rest : total f xs ≡ f a + total f (erase a xs) =
        total-erase f a xs (ground (arith, h, ne→==_false a x other)) in
      rw (ne→==_false a x other) (omega (arith, rest))
]

-- one size changes
pub total-change :
    (f g : ℕ → ℕ) (a : ℕ) (xs : List ℕ)
    → Unique xs
    → member a xs ≡ true
    → ((b : ℕ) → b ≢ a → g b ≡ f b)
    → total g xs + f a ≡ total f xs + g a
total-change f g a xs u inside same = omega (
  arith,
  total-erase f a xs inside,
  total-erase g a xs inside,
  total-same f g (erase a xs) (λ b h. same b (λ e.
      absurd (ground (arith, h, member-erase_self a xs u, ap (λ z. member z (erase a xs)) e)))),
)

-- `url_eq` and its like: a Boolean equivalence
pub record IsEquivalence {ℓ} {U : Type ℓ} (eq : U → U → Bool) : Type ℓ where
  pub reflexive : (u : U) → eq u u ≡ true
  pub symmetric : (u v : U) → eq u v ≡ true → eq v u ≡ true
  pub transitive : (u v w : U) → eq u v ≡ true → eq v w ≡ true → eq u w ≡ true

module _ {ℓ} {U : Type ℓ} (eq : U → U → Bool) (equiv : IsEquivalence eq) where
  eq_cong : (u v w : U) → eq u v ≡ true → eq u w ≡ eq v w
  eq_cong u v w same = elim (Bool-cases (eq u w)) [
    | inl left ↦ left ∙ sym (equiv.transitive v u w (equiv.symmetric u v same) left)
    | inr left ↦ elim (Bool-cases (eq v w)) [
      | inl right ↦ absurd (ground (arith, left, equiv.transitive u v w same right))
      | inr right ↦ left ∙ sym right
    ]
  ]

  pub lookup_cong : (u v : U) (m : List (U × ℕ)) → eq u v ≡ true → lookup eq u m ≡ lookup eq v m
  lookup_cong u v [] same = refl
  lookup_cong u v ((w, a) ∷ m) same = rw (eq_cong u v w same, lookup_cong u v m same) refl

  -- No key occurs twice.
  abbrev pub UniqueKeys : List (U × ℕ) → Type 0
  UniqueKeys [] = Unit
  UniqueKeys ((v, a) ∷ m) = (lookup eq v m ≡ none) × UniqueKeys m

  pub lookup-erase_self :
      (u : U) (m : List (U × ℕ)) → UniqueKeys m → lookup eq u (erase_key eq u m) ≡ none
  lookup-erase_self u [] keys = refl
  lookup-erase_self u ((v, a) ∷ m) (out, keys) = elim (Bool-cases (eq u v)) [
    | inl same ↦ rw same (lookup_cong u v m same ∙ out)
    | inr other ↦ rw (other, other) (lookup-erase_self u m keys)
  ]

  pub lookup-erase_other :
      (u v : U) (m : List (U × ℕ)) → eq u v ≡ false → lookup eq u (erase_key eq v m) ≡ lookup eq u m
  lookup-erase_other u v [] other = refl
  lookup-erase_other u v ((w, a) ∷ m) other = elim (Bool-cases (eq v w)) [
    | inl same ↦
        let apart : eq u w ≡ false = not_both (Bool-cases (eq u w)) same in rw (same, apart) refl
    | inr differ ↦
        rw differ (ap (λ r. if eq u w then some a else r) (lookup-erase_other u v m other))
  ]
    where
      not_both : ((eq u w ≡ true) ⊎ (eq u w ≡ false)) → eq v w ≡ true → eq u w ≡ false
      not_both (inl h) same =
          absurd (ground (arith, other, equiv.transitive u w v h (equiv.symmetric v w same)))
      not_both (inr h) same = h

  pub lookup-erase :
      (u v : U) (m : List (U × ℕ)) (a : ℕ)
      → UniqueKeys m
      → lookup eq u (erase_key eq v m) ≡ some a
      → (eq u v ≡ false) × (lookup eq u m ≡ some a)
  lookup-erase u v m a keys h = elim (Bool-cases (eq u v)) [
    | inl same ↦ absurd (
        none-ne-some
          (sym (lookup_cong u v (erase_key eq v m) same ∙ lookup-erase_self v m keys) ∙ h))
    | inr other ↦ (other, sym (lookup-erase_other u v m other) ∙ h)
  ]

  pub erase_key-UniqueKeys :
      (v : U) (m : List (U × ℕ)) → UniqueKeys m → UniqueKeys (erase_key eq v m)
  erase_key-UniqueKeys v [] keys = tt
  erase_key-UniqueKeys v ((w, a) ∷ m) (out, keys) = elim (Bool-cases (eq v w)) [
    | inl same ↦ rw same keys
    | inr other ↦
        rw other
          (absent (Option-cases (lookup eq w (erase_key eq v m))), erase_key-UniqueKeys v m keys)
  ]
    where
      absent :
          ((lookup eq w (erase_key eq v m) ≡ none)
            ⊎ ((b : ℕ) × (lookup eq w (erase_key eq v m) ≡ some b)))
          → lookup eq w (erase_key eq v m) ≡ none
      absent (inl h) = h
      absent (inr (b, h)) = absurd (none-ne-some (sym out ∙ (lookup-erase w v m b keys h).1))
