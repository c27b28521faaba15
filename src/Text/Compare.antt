-- ===== src/Text/Compare.antt =====
-- `string_equals` and `memcmp`: they tell whether two texts have the same characters.
use posix_threads.Common.{
  ℕ, suc, ◌+◌, ◌≤◌, ◌≡◌, refl, ap, ◌≢◌, Bool, true, false, ◌&&◌, some, List, [], ◌∷◌, ◌++◌, map,
  arith, dec_lt, ℕ_discrete, ◌==◌, lt→ltb, ==_iff, le→leb, le→ltb_false, ne→==_false, length, done,
}
use posix_threads.Vec.{u64, fetch}
use posix_threads.Text.{Text, Comparison, is_same, memcmp, string_cmp, string_equals}
use posix_threads.Text.Laws.{Holds, Holds-length, Holds-small, string_len-eq-length}

-- equality of two texts, character by character
abbrev pub same_text : List ℕ → List ℕ → Bool
same_text [] [] = true
same_text [] (b ∷ ys) = false
same_text (a ∷ xs) [] = false
same_text (a ∷ xs) (b ∷ ys) = a == b && same_text xs ys

same_text_lengths : (xs ys : List ℕ) → length xs ≢ length ys → same_text xs ys ≡ false
same_text_lengths [] [] h = absurd (h refl)
same_text_lengths [] (b ∷ ys) h = refl
same_text_lengths (a ∷ xs) [] h = refl
same_text_lengths (a ∷ xs) (b ∷ ys) h = ground (arith, same_text_lengths xs ys (λ e. h (ap suc e)))

-- Of two texts of one length, with their NUL.
memcmp_compares :
    (xs ys : List ℕ)
    → length xs ≡ length ys
    → (c : Comparison) × (memcmp (map some (xs ++ 0 ∷ [])) (map some (ys ++ 0 ∷ [])) ≡ done c)
      × (is_same c ≡ same_text xs ys)
unfolding memcmp
memcmp_compares [] [] h = (Comparison.same, refl, refl)
memcmp_compares [] (b ∷ ys) h = absurd (omega arith)
memcmp_compares (a ∷ xs) [] h = absurd (omega arith)
memcmp_compares (a ∷ xs) (b ∷ ys) h =
    let (c, run, same) = memcmp_compares xs ys (omega arith) in
    elim (dec_lt a b) [
      | yes less ↦ (
        Comparison.below,
        rw (lt→ltb a b less) refl,
        rw (ne→==_false a b (λ e. absurd (omega arith))) refl,
      )
      | no not_less ↦ elim (dec_lt b a) [
        | yes more ↦ (
          Comparison.above,
          rw (le→ltb_false b a (omega arith), lt→ltb b a more) refl,
          rw (ne→==_false a b (λ e. absurd (omega arith))) refl,
        )
        | no not_more ↦ (
          c,
          rw (le→ltb_false b a (omega arith), le→ltb_false a b (omega arith)) run,
          ground arith,
        )
      ]
    ]

fetched :
    {t : Text} {xs : List ℕ} (n : ℕ)
    → Holds t xs
    → n ≡ length xs
    → fetch 0 (u64 (n + 1)) t.storage.storage ≡ done (map some (xs ++ 0 ∷ []))
fetched {t} {xs} n h e =
    let m = h.models in
    let all : u64 (n + 1) ≡ t.storage.len = omega (arith, Holds-length h, Holds-small h) in
    let inside : 0 + t.storage.len ≤ length t.storage.storage =
      omega (arith, m.valid.fits, m.valid.slots) in
    rw (all, le→leb _ _ inside) (ap done m.holds)

-- `string_equals` reads only inside both texts, and tells whether their characters are the same.
pub string_equals-same_text :
    {s t : Text} {xs ys : List ℕ}
    → Holds s xs
    → Holds t ys
    → string_equals s t ≡ done (same_text xs ys)
unfolding string_equals string_cmp
string_equals-same_text {s} {t} {xs} {ys} h g =
    rw (string_len-eq-length h, string_len-eq-length g)
      (elim (ℕ_discrete (length xs) (length ys)) [
        | no other ↦ rw (ne→==_false _ _ other, same_text_lengths xs ys other) refl
        | yes equal ↦
            let (c, run, same) = memcmp_compares xs ys equal in
            let e : (length xs == length ys) ≡ true = (==_iff _ _).1 equal in
            let no_longer = le→ltb_false (length xs) (length ys) (omega arith) in
            rw (e, no_longer)
              (rw (fetched (length xs) h refl, fetched (length xs) g equal, run) (ap done same))
      ])
