-- ===== src/Vec/Shift.antt =====
-- The overlapping `memmove` of `insert` and of `remove`, on the list of slots.
use Prim.Native.Nat.add
use Prim.Native.Nat.sub
use native.Mathlib.Nat.{zero-add}
use native.Mathlib.Numerals.{add-one}
use posix_threads.Common.{
  ℕ, zero, suc, ◌+◌, ◌-◌, ◌≤◌, ◌<◌, ◌≡◌, ◌∙◌, refl, ap, List, [], ◌∷◌, ◌++◌, Option, some, take,
  drop, length, length-append, length-take, length-drop, le→leb, done, ◌>>=◌, arith,
}
use posix_threads.Vec.{put, copy_slots}
use posix_threads.Vec.Slots.{copy_slots-eq-done}

module _ {ℓ} {A : Type ℓ} where
  take-take_append :
      (n : ℕ) (xs ys : List (Option A)) → n ≤ length xs → take n (take n xs ++ ys) ≡ take n xs
  take-take_append zero xs ys h = refl
  take-take_append (suc n) [] ys h = absurd (omega arith)
  take-take_append (suc n) (x ∷ xs) ys h = ap (λ t. x ∷ t) (take-take_append n xs ys (omega arith))

  -- what the two writes of `insert` leave, and the first `n + 1` slots of it
  pub opened : ℕ → ℕ → A → List (Option A) → List (Option A)
  opened pos n x s =
      let moved =
        take (suc pos) s ++ (take (n - pos) (drop pos s) ++ drop (suc pos + (n - pos)) s) in
      take pos moved ++ (some x ∷ drop (suc pos) moved)

  pub take-opened :
      (pos n : ℕ) (x : A) (s : List (Option A))
      → pos ≤ n
      → n < length s
      → take (suc n) (opened pos n x s) ≡ take pos (take n s) ++ (some x ∷ drop pos (take n s))
  unfolding opened
  take-opened zero n x [] h g = absurd (omega arith)
  take-opened zero n x (y ∷ s) h g =
      rw (sub.zero n) (ap (λ t. some x ∷ t) (take-take_append n (y ∷ s) _ (omega arith)))
  take-opened (suc pos) zero x s h g = absurd (omega arith)
  take-opened (suc pos) (suc n) x [] h g = absurd (omega arith)
  take-opened (suc pos) (suc n) x (y ∷ s) h g =
      rw (sub.suc-suc, add.suc)
        (ap (λ t. y ∷ t) (take-opened pos n x s (omega arith) (omega arith)))

  -- what the `memmove` of `remove` leaves, and the first `n` slots of it
  pub closed : ℕ → ℕ → List (Option A) → List (Option A)
  closed pos n s = take pos s ++ (take (n - pos) (drop (suc pos) s) ++ drop (pos + (n - pos)) s)

  pub take-closed :
      (pos n : ℕ) (s : List (Option A))
      → pos ≤ n
      → n < length s
      → take n (closed pos n s) ≡ take pos s ++ drop (suc pos) (take (suc n) s)
  unfolding closed
  take-closed zero n [] h g = absurd (omega arith)
  take-closed zero n (y ∷ s) h g = rw (sub.zero n, zero-add) (take-take_append n s _ (omega arith))
  take-closed (suc pos) zero s h g = absurd (omega arith)
  take-closed (suc pos) (suc n) [] h g = absurd (omega arith)
  take-closed (suc pos) (suc n) (y ∷ s) h g =
      rw (sub.suc-suc, add.suc) (ap (λ t. y ∷ t) (take-closed pos n s (omega arith) (omega arith)))

  pub length-opened :
      (pos n : ℕ) (x : A) (s : List (Option A))
      → pos ≤ n
      → n < length s
      → length (opened pos n x s) ≡ length s
  unfolding opened
  length-opened pos n x s h g = simp (length-append, length-take, length-drop) (omega arith)

  -- The writes of `insert` stay within the storage, and leave `opened`.
  pub shift-opened :
      (pos n : ℕ) (x : A) (s : List (Option A))
      → pos ≤ n
      → n < length s
      → (copy_slots (pos + 1) pos (n - pos) s >>= λ t. put pos (some x ∷ []) t)
        ≡ done (opened pos n x s)
  unfolding opened
  shift-opened pos n x s h g =
      let moved =
        take (suc pos) s ++ (take (n - pos) (drop pos s) ++ drop (suc pos + (n - pos)) s) in
      let fits : length moved ≡ length s =
        simp (length-append, length-take, length-drop) (omega arith) in
      rw (
        copy_slots-eq-done (pos + 1) pos (n - pos) s (omega arith) (omega arith),
        add-one,
        le→leb (suc pos) (length moved) (rw fits (omega arith)),
      )

  pub length-closed :
      (pos n : ℕ) (s : List (Option A))
      → pos ≤ n
      → n < length s
      → length (closed pos n s) ≡ length s
  unfolding closed
  length-closed pos n s h g = simp (length-append, length-take, length-drop) (omega arith)

  -- The `memmove` of `remove` stays within the storage, and leaves `closed`.
  pub copy_slots-closed :
      (pos n : ℕ) (s : List (Option A))
      → pos ≤ n
      → n < length s
      → copy_slots pos (pos + 1) (n - pos) s ≡ done (closed pos n s)
  unfolding closed
  copy_slots-closed pos n s h g =
      copy_slots-eq-done pos (pos + 1) (n - pos) s (omega arith) (omega arith) ∙ rw add-one
