-- ===== src/Vec/Slots.antt =====
-- The storage of a vector as a list of slots: what `realloc`, `memcpy` and `memmove` do to it.
use posix_threads.Common.{
  ℕ, ◌+◌, ◌-◌, ◌/◌, ◌%◌, List, [], ◌∷◌, ◌++◌, Option, none, leb, ◌==◌, ◌≤◌, ◌≡◌, length-take,
  length-drop, le→leb, arith, if◌then◌else◌, take, drop, replicate, length, Outcome, done, stop,
  out_of_bounds, ◌>>=◌,
}

module _ {ℓ} {A : Type ℓ} where
  -- `realloc` keeps the contents up to the smaller of both sizes.
  unfoldable pub resize_slots : ℕ → List (Option A) → List (Option A)
  resize_slots n s = take n s ++ replicate (n - length s) none

  -- Reads `n` slots from `src` on.
  abbrev pub fetch : ℕ → ℕ → List (Option A) → Outcome (List (Option A))
  fetch src n s =
      if leb (src + n) (length s) then done (take n (drop src s)) else stop out_of_bounds

  -- Writes `xs` from `dst` on.
  abbrev pub put : ℕ → List (Option A) → List (Option A) → Outcome (List (Option A))
  put dst xs s =
      if leb (dst + length xs) (length s)
      then done (take dst s ++ (xs ++ drop (dst + length xs) s))
      else stop out_of_bounds

  -- `memmove` of `n` whole elements
  unfoldable pub copy_slots : ℕ → ℕ → ℕ → List (Option A) → Outcome (List (Option A))
  copy_slots dst src n s = fetch src n s >>= λ xs. put dst xs s

  -- A slot of which only some bytes have been written holds no element.
  abbrev pub torn : ℕ → ℕ → List (Option A)
  torn size bytes = if bytes % size == 0 then [] else none ∷ []

  -- `memmove` of so many bytes, from one storage to another that may be the same
  unfoldable pub move_bytes :
      ℕ → ℕ → ℕ → ℕ → List (Option A) → List (Option A) → Outcome (List (Option A))
  move_bytes size dst src bytes from s =
      fetch src (bytes / size + length (torn size bytes)) from >>= λ xs.
      put dst (take (bytes / size) xs ++ torn size bytes) s

  pub fetch-eq-done :
      (src n : ℕ) (s : List (Option A))
      → src + n ≤ length s
      → fetch src n s ≡ done (take n (drop src s))
  fetch-eq-done src n s h = rw (le→leb _ _ h)

  pub length-fetched :
      (src n : ℕ) (s : List (Option A)) → src + n ≤ length s → length (take n (drop src s)) ≡ n
  length-fetched src n s h = omega (arith, length-take n (drop src s), length-drop src s)

  pub copy_slots-eq-done :
      (dst src n : ℕ) (s : List (Option A))
      → src + n ≤ length s
      → dst + n ≤ length s
      → copy_slots dst src n s ≡ done (take dst s ++ (take n (drop src s) ++ drop (dst + n) s))
  unfolding copy_slots
  copy_slots-eq-done dst src n s h g =
      let l = length-fetched src n s h in rw (le→leb _ _ h) (rw l (rw (le→leb _ _ g)))
