-- ===== src/Url/Remaining.antt =====
-- The slice of the rest of the input is one byte too long.
use posix_threads.Common.{
  ℕ, zero, suc, ◌+◌, ◌-◌, ◌≤◌, ◌<◌, ◌≡◌, refl, Bool, true, not, ◌&&◌, List, [], ◌∷◌, ◌++◌, arith,
  dec_lt, ◌==◌, le→leb, lt→leb_false, length, length-append, drop, length-drop, take_all,
}
use posix_threads.Url.Chars.{is_ascii_hex, is_invalid_percent_escape}
use posix_threads.Url.State.{Parser, remaining, rem_starts_with, starts_with}

drop-append {ℓ} :
    {A : Type ℓ} (n : ℕ) (xs ys : List A) → n ≤ length xs → drop n (xs ++ ys) ≡ drop n xs ++ ys
drop-append zero xs ys h = refl
drop-append (suc n) [] ys h = absurd (omega arith)
drop-append (suc n) (x ∷ xs) ys h = drop-append n xs ys (omega arith)

pub drop_past {ℓ} : {A : Type ℓ} (n : ℕ) (xs : List A) → length xs ≤ n → drop n xs ≡ []
drop_past zero [] h = refl
drop_past zero (x ∷ xs) h = absurd (omega arith)
drop_past (suc n) [] h = refl
drop_past (suc n) (x ∷ xs) h = drop_past n xs (omega arith)

-- Before the end of the input the rest is what follows the position, and the terminator.
remaining-eq-append :
    (p : Parser) → p.pos < length p.input → remaining p ≡ drop (p.pos + 1) p.input ++ (0 ∷ [])
unfolding remaining
remaining-eq-append p inside =
    let rest = drop (p.pos + 1) p.input in
    let n : length (rest ++ (0 ∷ [])) ≤ length p.input - p.pos =
      omega (arith, length-append rest (0 ∷ []), length-drop (p.pos + 1) p.input) in
    rw (lt→leb_false _ _ inside, drop-append (p.pos + 1) p.input (0 ∷ []) (omega arith))
      (take_all (length p.input - p.pos) (rest ++ (0 ∷ [])) n)

remaining-past : (p : Parser) → length p.input ≤ p.pos → remaining p ≡ []
unfolding remaining
remaining-past p past = rw (le→leb _ _ past)

-- A text without a NUL.
abbrev pub all_nonzero : List ℕ → Bool
all_nonzero [] = true
all_nonzero (x ∷ xs) = not (x == 0) && all_nonzero xs

escape-append :
    (xs : List ℕ) → is_invalid_percent_escape (xs ++ (0 ∷ [])) ≡ is_invalid_percent_escape xs
unfolding is_invalid_percent_escape is_ascii_hex
escape-append [] = refl
escape-append (a ∷ []) = ground arith
escape-append (a ∷ b ∷ xs) = refl

starts_with-append :
    (str xs : List ℕ)
    → all_nonzero str ≡ true
    → starts_with str (xs ++ (0 ∷ [])) ≡ starts_with str xs
starts_with-append [] xs h = ground arith
starts_with-append (a ∷ str) [] h = ground arith
starts_with-append (a ∷ str) (b ∷ xs) h = ground (arith, starts_with-append str xs)

-- The terminator that the slice takes in changes no answer: neither the test of a percent escape nor
-- the test for a prefix without NUL.
pub remaining_harmless :
    (p : Parser) (str : List ℕ)
    → all_nonzero str ≡ true
    → (is_invalid_percent_escape (remaining p)
        ≡ is_invalid_percent_escape (drop (p.pos + 1) p.input))
      × (rem_starts_with p str ≡ starts_with str (drop (p.pos + 1) p.input))
unfolding rem_starts_with
remaining_harmless p str h = elim (dec_lt p.pos (length p.input)) [
  | yes inside ↦
      let rest = drop (p.pos + 1) p.input in
      rw (remaining-eq-append p inside) (escape-append rest, starts_with-append str rest h)
  | no past ↦
      rw (remaining-past p (omega arith), drop_past (p.pos + 1) p.input (omega arith)) (refl, refl)
]
