-- ===== src/Text/Cut.antt =====
-- a.yanin/common/collections.string/src/string.c: `string_set_len` and `string_clear`, which write a new NUL.
use posix_threads.Common.{
  ℕ, zero, suc, ◌+◌, ◌≤◌, ◌<◌, ◌≡◌, refl, sym, ap, ◌∙◌, ◌⊎◌, inl, inr, Option, some, List, [], ◌∷◌,
  ◌++◌, map, arith, dec_lt, le→leb, lt→leb_false, length, take, drop, take-take, assertion, Outcome,
  done, stop, ◌>>=◌,
}
use native.Mathlib.Numerals.{add-one}
use posix_threads.Vec.{Vec, u64, set_len, write}
use posix_threads.Vec.Edit.{take-map}
use posix_threads.Text.{Text, string_set_len}
use posix_threads.Text.Laws.{Holds, Holds-length, Holds-small, string_len-eq-length}

-- the storage with a NUL written at `n`
abbrev ended : ℕ → List (Option ℕ) → List (Option ℕ)
ended n s = take n s ++ (some 0 ∷ drop (suc n) s)

take-ended :
    (n : ℕ) (s : List (Option ℕ))
    → n < length s
    → take (suc n) (ended n s) ≡ take n s ++ (some 0 ∷ [])
take-ended n [] h = absurd (omega arith)
take-ended zero (x ∷ s) h = refl
take-ended (suc n) (x ∷ s) h = ap (λ t. x ∷ t) (take-ended n s (omega arith))

length-ended : (n : ℕ) (s : List (Option ℕ)) → n < length s → length (ended n s) ≡ length s
length-ended n [] h = absurd (omega arith)
length-ended zero (x ∷ s) h = refl
length-ended (suc n) (x ∷ s) h = ap suc (length-ended n s (omega arith))

take-append_inside : (n : ℕ) (xs ys : List ℕ) → n ≤ length xs → take n (xs ++ ys) ≡ take n xs
take-append_inside zero xs ys h = refl
take-append_inside (suc n) [] ys h = absurd (omega arith)
take-append_inside (suc n) (x ∷ xs) ys h =
    ap (λ t. x ∷ t) (take-append_inside n xs ys (omega arith))

map-append_nul : (xs : List ℕ) → map some xs ++ (some 0 ∷ []) ≡ map some (xs ++ 0 ∷ [])
map-append_nul [] = refl
map-append_nul (x ∷ xs) = ap (λ t. some x ∷ t) (map-append_nul xs)

kept :
    {t : Text} {xs : List ℕ} (n : ℕ)
    → Holds t xs
    → n ≤ length xs
    → take n t.storage.storage ≡ map some (take n xs)
kept {t} {xs} n h small =
    sym (take-take n t.storage.len t.storage.storage (omega (arith, Holds-length h)))
    ∙ ap (λ s. take n s) h.models.holds
    ∙ take-map n (xs ++ 0 ∷ [])
    ∙ ap (λ s. map some s) (take-append_inside n xs (0 ∷ []) small)

set_len-eq-done : (v : Vec ℕ) (n : ℕ) → n ≤ v.capacity → set_len v n ≡ done (record v { len = n })
unfolding set_len
set_len-eq-done v n h = rw (le→leb n v.capacity h) refl

write-eq-done :
    (v : Vec ℕ) (n : ℕ)
    → n < v.len
    → n < length v.storage
    → write v n 0 ≡ done (record v { storage = ended n v.storage })
unfolding write
write-eq-done v n h inside =
    rw (lt→leb_false n v.len h, add-one, le→leb (suc n) (length v.storage) inside) refl

abbrev finish : Vec ℕ → Outcome Text
finish v = done (record { storage = v })

-- `string_set_len` stops at its assertion for a length beyond that of the text, and otherwise keeps
-- just the first characters.
pub string_set_len-Holds :
    {t : Text} {xs : List ℕ} (n : ℕ)
    → Holds t xs
    → ((length xs < n) × (string_set_len t n ≡ stop assertion))
      ⊎ ((u : Text) × (n ≤ length xs) × (string_set_len t n ≡ done u) × Holds u (take n xs))
unfolding string_set_len set_len write
string_set_len-Holds {t} {xs} n h = elim (dec_lt (length xs) n) [
  | yes beyond ↦ inl (beyond, rw (string_len-eq-length h, lt→leb_false _ _ beyond) refl)
  | no within ↦
      let v = t.storage in
      let m = h.models in
      let size = Holds-length h in
      let inside : n < length v.storage = omega (arith, size, m.valid.fits, m.valid.slots) in
      let exact : u64 (n + 1) ≡ n + 1 = omega (arith, size, Holds-small h) in
      inr (
        record {
          storage = record { storage = ended n v.storage; capacity = v.capacity; len = n + 1 };
        },
        omega arith,
        rw (string_len-eq-length h, le→leb n (length xs) (omega arith), exact)
            (ap (λ r. r >>= λ w. write w n 0 >>= finish)
                (set_len-eq-done v (n + 1) (omega (arith, m.valid.slots)))
              ∙ ap (λ r. r >>= finish)
                  (write-eq-done (record v { len = n + 1 }) n (omega arith) inside)),
        record {
          models = record {
            valid = record {
              slots = length-ended n v.storage inside ∙ m.valid.slots;
              fits = omega (arith, m.valid.slots);
              small = m.valid.small;
              sized = m.valid.sized;
              narrow = m.valid.narrow;
            };
            holds = rw add-one (
                take-ended n v.storage inside
                ∙ ap (λ s. s ++ (some 0 ∷ [])) (kept n h (omega arith))
                ∙ map-append_nul (take n xs));
          };
        },
      )
]
