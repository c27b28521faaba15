-- ===== src/Cache/Table.antt =====
-- The map of a.yanin/waxy/src/cache.c: the table of hash.h acts as the association list of the cache does.
use posix_threads.Common.{
  ℕ, ◌<◌, ◌≡◌, refl, sym, ap, ◌∙◌, ◌⊎◌, inl, inr, Option, none, some, List, [], ◌∷◌, map,
  if◌then◌else◌, Bool-cases, Outcome, done, ErrorCode,
}
use posix_threads.Vec.{Allocator}
use posix_threads.Vec.Grow.{RefusesHuge}
use posix_threads.Hash.{Hash, Hashers, new, get, insert, remove}
use posix_threads.Hash.Invariant.{IsSparse}
use posix_threads.Hash.Pairs.{IsRight, first_of, find}
use posix_threads.Hash.Maps.{IsMap}
use posix_threads.Hash.Updates.{insert-InsertResult, new-IsMap}
use posix_threads.Hash.Removal.{remove-RemoveResult}
use posix_threads.Cache.{lookup, erase_key}
use posix_threads.Cache.Ledger.{
  IsEquivalence, UniqueKeys, lookup_cong, lookup-erase_self, lookup-erase_other,
}

module _ {ℓ} {U : Type ℓ} (hashers : Hashers U) where
  -- The table has the pairs of the list.
  pub record IsLike (h : Hash U ℕ) (m : List (U × ℕ)) : Type ℓ where
    pub sparse : IsSparse h
    pub map : IsMap hashers h
    pub same : (u : U) → find hashers h.storage u ≡ lookup hashers.eq u m

pub IsRight-IsEquivalence {ℓ} :
    {U : Type ℓ} (hashers : Hashers U) → IsRight hashers → IsEquivalence hashers.eq
IsRight-IsEquivalence hashers right = record {
  reflexive = right.reflexive;
  symmetric = right.symmetric;
  transitive = right.transitive;
}

answer_inj {κ} : {V : Type κ} {a b : Option V} → done a ≡ done b → a ≡ b
answer_inj e = cc

module _ {ℓ} {U : Type ℓ} (hashers : Hashers U) (right : IsRight hashers) (grant : Allocator)
    (size : ℕ) (huge : RefusesHuge grant) (sized : 0 < size) where
  first_of-lookup :
      (u v : U) (a : ℕ) (m : List (U × ℕ))
      → first_of (hashers.eq u v) a (lookup hashers.eq u m) ≡ lookup hashers.eq u ((v, a) ∷ m)
  first_of-lookup u v a m = elim (Bool-cases (hashers.eq u v)) [
    | inl e ↦ rw e refl
    | inr e ↦ rw e refl
  ]

  -- What `insert` of a key that the list does not have gives.
  abbrev pub Inserted : List (U × ℕ) → U → ℕ → Hash U ℕ → Outcome (ErrorCode × Hash U ℕ) → Type ℓ
  Inserted m u a h r =
      ((g : Hash U ℕ) × (r ≡ done (ErrorCode.ok, g)) × IsLike hashers g ((u, a) ∷ m))
      ⊎ (r ≡ done (ErrorCode.memory_allocation_failure, h))

  -- What `remove` gives.
  abbrev pub Erased :
      List (U × ℕ) → U → Hash U ℕ → Outcome (ErrorCode × Hash U ℕ × Option (U × ℕ)) → Type ℓ
  Erased m u h r =
      ((g : Hash U ℕ) × (v : U) × (a : ℕ) × (r ≡ done (ErrorCode.ok, g, some (v, a)))
        × (lookup hashers.eq u m ≡ some a)
        × IsLike hashers g (erase_key hashers.eq u m))
      ⊎ ((r ≡ done (ErrorCode.not_found, h, none)) × (lookup hashers.eq u m ≡ none))

  -- A new table is like the list without pairs.
  pub new-IsLike :
      ((h : Hash U ℕ) × (new hashers grant size ≡ done (ErrorCode.ok, h)) × IsLike hashers h [])
      ⊎ ((h : Hash U ℕ) × (new hashers grant size ≡ done (ErrorCode.memory_allocation_failure, h)))
  new-IsLike = elim (new-IsMap {V = ℕ} hashers right grant size huge sized) [
    | inl (h, run, sparse, map, bare) ↦
        inl (h, run, record { sparse = sparse; map = map; same = bare })
    | inr refused ↦ inr refused
  ]

  insert-Inserted :
      (h : Hash U ℕ) (m : List (U × ℕ)) (u : U) (a : ℕ)
      → IsLike hashers h m
      → lookup hashers.eq u m ≡ none
      → Inserted m u a h (insert hashers grant size h u a)
  insert-Inserted h m u a like absent =
      elim (insert-InsertResult hashers right grant size huge sized h u a like.sparse like.map) [
        | inr (refused, denied) ↦ inr refused
        | inl (g, run, updated) ↦ elim updated.map [
          | inr there ↦ absurd (there (like.same u ∙ absent))
          | inl map ↦ inl (
            g,
            run,
            record {
              sparse = updated.sparse;
              map = map;
              same = λ v.
                  answer_inj (sym (map.found v) ∙ updated.reads v)
                  ∙ ap (first_of (hashers.eq v u) a) (like.same v)
                  ∙ first_of-lookup v u a m;
            },
          )
        ]
      ]

  lookup-erased :
      (m : List (U × ℕ)) (u v : U) (o : Option ℕ)
      → UniqueKeys hashers.eq (IsRight-IsEquivalence hashers right) m
      → o ≡ lookup hashers.eq v m
      → (if hashers.eq v u then none else o) ≡ lookup hashers.eq v (erase_key hashers.eq u m)
  lookup-erased m u v o keys same =
      let equiv = IsRight-IsEquivalence hashers right in
      elim (Bool-cases (hashers.eq v u)) [
        | inl e ↦
            ap (λ b. if b then none else o) e
            ∙ sym (
                lookup_cong hashers.eq equiv v u (erase_key hashers.eq u m) e
                ∙ lookup-erase_self hashers.eq equiv u m keys)
        | inr e ↦
            ap (λ b. if b then none else o) e
            ∙ same
            ∙ sym (lookup-erase_other hashers.eq equiv v u m e)
      ]

  remove-Erased :
      (h : Hash U ℕ) (m : List (U × ℕ)) (u : U)
      → UniqueKeys hashers.eq (IsRight-IsEquivalence hashers right) m
      → IsLike hashers h m
      → Erased m u h (remove hashers h u)
  remove-Erased h m u keys like =
      elim (remove-RemoveResult hashers right h u like.sparse like.map) [
        | inr (run, missing) ↦ inr (run, sym (like.same u) ∙ missing)
        | inl (g, v, a, pos, run, found, removed) ↦ inl (
          g,
          v,
          a,
          run,
          sym (like.same u) ∙ found,
          record {
            sparse = removed.sparse;
            map = removed.map;
            same = λ w.
                answer_inj (sym (removed.map.found w) ∙ removed.reads w)
                ∙ lookup-erased m u w (find hashers h.storage w) keys (like.same w);
          },
        )
      ]

  -- Where the hashers are right and `calloc` refuses a request of more than `PTRDIFF_MAX` bytes, a table
  -- that has the pairs of an association list, in which no key occurs twice, acts as the list does: `get`
  -- of any key gives what `lookup` gives; `insert` of a key that the list does not have puts the pair to
  -- the others, or the allocation is refused and nothing changes; and `remove` of any key erases it and
  -- answers the value, or answers that there is none.
  pub table-acts_as_list :
      (h : Hash U ℕ) (m : List (U × ℕ)) (u v w : U) (a : ℕ)
      → UniqueKeys hashers.eq (IsRight-IsEquivalence hashers right) m
      → IsLike hashers h m
      → lookup hashers.eq v m ≡ none
      → (get hashers h u ≡ done (lookup hashers.eq u m))
        × Inserted m v a h (insert hashers grant size h v a)
        × Erased m w h (remove hashers h w)
  table-acts_as_list h m u v w a keys like absent = (
    like.map.found u ∙ ap done (like.same u),
    insert-Inserted h m v a like absent,
    remove-Erased h m w keys like,
  )
