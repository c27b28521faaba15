-- ===== src/Url/Input/Laws.antt =====
-- a.yanin/waxy/src/url.c: what is left of the input after `url_remove_tab_nl` and
-- `url_remove_trailing`.
use posix_threads.Common.{
  ℕ, zero, suc, ◌+◌, ◌-◌, ◌≤◌, ◌<◌, ◌≡◌, refl, ap, ◌⊎◌, inl, inr, Bool, true, false, not, ◌||◌,
  List, [], ◌∷◌, ◌++◌, arith, ltb, if◌then◌else◌, lt→ltb, Bool-cases, length, get_or, take, drop,
  take-append-drop, take_all,
}
use mathlib.Core.List.{append-nil, append_assoc}
use posix_threads.Url.Remaining.{drop_past}
use posix_threads.Buffer.{is_null}
use posix_threads.Url.Chars.{is_c0_space}
use posix_threads.Url.Input.{
  is_tab_nl, remove_at, tab_nl_loop, url_remove_tab_nl, leading, trailing_end, url_remove_trailing,
}

-- the characters that are kept
abbrev pub without_tab_nl : List ℕ → List ℕ
without_tab_nl [] = []
without_tab_nl (c ∷ s) = if is_tab_nl c then without_tab_nl s else c ∷ without_tab_nl s

abbrev pub has_tab_nl : List ℕ → Bool
has_tab_nl [] = false
has_tab_nl (c ∷ s) = is_tab_nl c || has_tab_nl s

without-append :
    (xs ys : List ℕ) → without_tab_nl (xs ++ ys) ≡ without_tab_nl xs ++ without_tab_nl ys
without-append [] ys = refl
without-append (c ∷ xs) ys = ground (arith, without-append xs ys)

has-append : (xs ys : List ℕ) → has_tab_nl (xs ++ ys) ≡ (has_tab_nl xs || has_tab_nl ys)
has-append [] ys = refl
has-append (c ∷ xs) ys = ground (arith, has-append xs ys)

-- The text around its character `i`.
record Parts (i : ℕ) (s : List ℕ) : Type 0 where
  upto : take (suc i) s ≡ take i s ++ (get_or s i 0 ∷ [])
  from : drop i s ≡ get_or s i 0 ∷ drop (suc i) s
  kept : take i (remove_at i s) ≡ take i s
  gone : drop i (remove_at i s) ≡ drop (suc i) s
  size : length (remove_at i s) + 1 ≡ length s

parts : (i : ℕ) (s : List ℕ) → i < length s → Parts i s
unfolding remove_at
parts i [] h = absurd (omega arith)
parts zero (c ∷ s) h = record {
  upto = refl;
  from = refl;
  kept = refl;
  gone = refl;
  size = omega arith;
}
parts (suc i) (c ∷ s) h =
    let p = parts i s (omega arith) in
    record {
      upto = ap (λ t. c ∷ t) p.upto;
      from = p.from;
      kept = ap (λ t. c ∷ t) p.kept;
      gone = p.gone;
      size = omega (arith, p.size);
    }

-- The loop has still to look at the first `i` characters.
tab_nl_loop-filters :
    (i : ℕ) (s : List ℕ) (found : Bool)
    → i ≤ length s
    → tab_nl_loop i s found
      ≡ (without_tab_nl (take i s) ++ drop i s, found || has_tab_nl (take i s))
unfolding tab_nl_loop
tab_nl_loop-filters zero s found h = ground arith
tab_nl_loop-filters (suc i) s found h =
    let p = parts i s h in
    let c = get_or s i 0 in
    elim (Bool-cases (is_tab_nl c)) [
      | inl hit ↦
          rw
            (
              hit,
              tab_nl_loop-filters i (remove_at i s) (found || true) (omega (arith, p.size)),
              p.kept,
              p.gone,
              p.upto,
              without-append,
              has-append,
              hit,
              append-nil,
            )
            (ground arith)
      | inr miss ↦
          rw
            (
              miss,
              tab_nl_loop-filters i s (found || false) (omega arith),
              p.from,
              p.upto,
              without-append,
              has-append,
              miss,
              append_assoc,
            )
            (ground arith)
    ]

-- `url_remove_tab_nl` removes exactly the tabs and newlines, and returns an error exactly when there
-- are any.
pub url_remove_tab_nl-filters :
    (s : List ℕ)
    → ((url_remove_tab_nl s).0 ≡ without_tab_nl s)
      × (is_null (url_remove_tab_nl s).1 ≡ not (has_tab_nl s))
unfolding url_remove_tab_nl
url_remove_tab_nl-filters s =
    rw
      (
        tab_nl_loop-filters (length s) s false (omega arith),
        take_all (length s) s (omega arith),
        drop_past (length s) s (omega arith),
        append-nil,
      )
      (refl, ground arith)

-- What `url_remove_trailing` leaves of a text that begins with `start` blanks and whose last
-- character that is kept ends at `end_pos`.
abbrev pub trimmed_end : List ℕ → ℕ
trimmed_end s = trailing_end (leading s) (length s) s

abbrev pub AllBlank : List ℕ → Type 0
AllBlank [] = Unit
AllBlank (c ∷ s) = (is_c0_space c ≡ true) × AllBlank s

trailing_end-le : (n : ℕ) (s : List ℕ) → trailing_end 0 n s ≤ n
unfolding trailing_end
trailing_end-le zero s = omega arith
trailing_end-le (suc n) s = ground (arith, trailing_end-le n s)

trailing_end-AllBlank :
    (n : ℕ) (s : List ℕ)
    → n ≤ length s
    → AllBlank (drop n s)
    → AllBlank (drop (trailing_end 0 n s) s)
unfolding trailing_end
trailing_end-AllBlank zero s h blank = blank
trailing_end-AllBlank (suc n) s h blank = elim (Bool-cases (is_c0_space (get_or s n 0))) [
  | inl here ↦
      let inside : ltb 0 (suc n) ≡ true = lt→ltb 0 (suc n) (omega arith) in
      rw (here, inside)
        (trailing_end-AllBlank n s (omega arith) (rw (parts n s h).from (here, blank)))
  | inr other ↦
      let inside : ltb 0 (suc n) ≡ true = lt→ltb 0 (suc n) (omega arith) in rw (other, inside) blank
]

trailing_end-stops :
    (n : ℕ) (s : List ℕ)
    → (trailing_end 0 n s ≡ 0) ⊎ (is_c0_space (get_or s (trailing_end 0 n s - 1) 0) ≡ false)
unfolding trailing_end
trailing_end-stops zero s = inl refl
trailing_end-stops (suc n) s = elim (Bool-cases (is_c0_space (get_or s n 0))) [
  | inl here ↦
      let inside : ltb 0 (suc n) ≡ true = lt→ltb 0 (suc n) (omega arith) in
      rw (here, inside) (trailing_end-stops n s)
  | inr other ↦
      let e : suc n - 1 ≡ n = omega arith in
      let inside : ltb 0 (suc n) ≡ true = lt→ltb 0 (suc n) (omega arith) in
      rw (other, inside) (inr (rw e other))
]

take_rejoined :
    (l e n : ℕ) (s : List ℕ)
    → l ≡ 0
    → e ≡ n
    → n ≤ length s
    → take (e - l) (take l s ++ (take (e - l) s ++ drop (l + (e - l)) s)) ≡ take n s
take_rejoined l e n s no_start e_eq h =
    let k : e - l ≡ n = omega arith in
    let z : 0 + n ≡ n = omega arith in
    rw (k, no_start) (rw z (ap (λ t. take n t) (take-append-drop n s)))

-- A text that does not begin with a blank loses exactly the blanks at its end: what is cut off is
-- blank, and what is left is empty or ends in another character.
pub url_remove_trailing-trims :
    (joined : Bool) (s : List ℕ)
    → leading s ≡ 0
    → (n : ℕ) × ((url_remove_trailing joined s).0 ≡ take n s)
      × AllBlank (drop n s)
      × ((n ≡ 0) ⊎ (is_c0_space (get_or s (n - 1) 0) ≡ false))
unfolding url_remove_trailing
url_remove_trailing-trims joined s none_first =
    let n = trailing_end 0 (length s) s in
    let start : trimmed_end s ≡ n = rw none_first in
    (
      n,
      take_rejoined (leading s) (trimmed_end s) n s none_first start (trailing_end-le (length s) s),
      trailing_end-AllBlank (length s) s (omega arith)
          (rw (drop_past (length s) s (omega arith)) tt),
      trailing_end-stops (length s) s,
    )
