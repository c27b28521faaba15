-- ===== src/Buffer/Laws.antt =====
-- What the calls on a text do to its characters.
use mathlib.Core.List.{append-nil, append_assoc}
use posix_threads.Common.{
  ℕ, zero, suc, Bool, ◌&&◌, ◌+◌, ◌-◌, ◌^◌, ◌≤◌, ◌<◌, ◌≡◌, true, refl, ap, sym, ◌∙◌, List, [], ◌∷◌,
  ◌++◌, some, length, length-append, length-take, take, take-take, take_all, Bool-cases, inl, inr,
  arith,
}
use posix_threads.Buffer.{
  Room, Buffer, Report, null, sentinel, message, combined, is_null, error_combine, push,
  append_bytes, push_all, from_slice, pop, pop_many,
}

push_all-eq-some : (room : Room) (s xs t : List ℕ) → push_all room s xs ≡ some t → t ≡ s ++ xs
unfolding push_all
push_all-eq-some room s [] t h = rw append-nil (cc h)
push_all-eq-some room s (x ∷ xs) t h = elim (Bool-cases (room (length s) 1)) [
  | inl given ↦
      push_all-eq-some room (s ++ x ∷ []) xs t (rw given at h) ∙ append_assoc s (x ∷ []) xs
  | inr refused ↦ cc (rw refused at h)
]

-- A copy that is made has the characters of the slice.
pub from_slice-eq-some : (room : Room) (xs t : List ℕ) → from_slice room xs ≡ some t → t ≡ xs
unfolding from_slice
from_slice-eq-some room xs t h = ground (arith, push_all-eq-some room [] xs t)

pub pop-eq-take : (s : Buffer) → pop s ≡ take (length s - 1) s
unfolding pop
pop-eq-take [] = refl
pop-eq-take (c ∷ []) = refl
pop-eq-take (c ∷ d ∷ s) =
    let n : suc (suc (length s)) - 1 ≡ suc (length s) = omega arith in
    let m : suc (length s) - 1 ≡ length s = omega arith in
    rw n (ap (λ t. c ∷ t) (rw m at (pop-eq-take (d ∷ s))))

-- `string_pop`, repeated, keeps the characters before the last `n`.
pub pop_many-eq-take : (n : ℕ) (s : Buffer) → pop_many n s ≡ take (length s - n) s
unfolding pop_many
pop_many-eq-take zero s = sym (take_all (length s - 0) s (omega arith))
pop_many-eq-take (suc n) s =
    let k : length (take (length s - 1) s) - n ≡ length s - suc n =
      omega (arith, length-take (length s - 1) s) in
    rw (pop_many-eq-take n (pop s), pop-eq-take, k) (take-take _ _ s (omega arith))

-- A text is smaller than an object may be.
abbrev pub IsBounded : Room → Type 0
IsBounded room = (n k : ℕ) → room n k ≡ true → n + k < 2 ^ 63

-- `t` extends `s`, and is no larger than an object may be.
pub record Grows (s t : Buffer) : Type 0 where
  pub longer : length s ≤ length t
  pub small : length t < 2 ^ 63

module _ (room : Room) (bounded : IsBounded room) where
  pub push-Grows : (s : Buffer) (c : ℕ) → length s < 2 ^ 63 → Grows s (push room s c).0
  unfolding push
  push-Grows s c small = ground (arith, bounded (length s) 1, length-append s (c ∷ []))

  pub append_bytes-Grows :
      (s : Buffer) (xs : List ℕ) → length s < 2 ^ 63 → Grows s (append_bytes room s xs).0
  unfolding append_bytes
  append_bytes-Grows s xs small = ground (arith, bounded (length s) (length xs), length-append s xs)

-- A combined error is `NULL` exactly when both parts are.
pub is_null-combine :
    (joined : Bool) (a b : Report) → is_null (error_combine joined a b) ≡ (is_null a && is_null b)
unfolding error_combine
is_null-combine joined null b = refl
is_null-combine joined sentinel b = ground arith
is_null-combine joined (message x) b = ground arith
is_null-combine joined (combined x y) b = ground arith
