-- ===== src/Text/Laws.antt =====
-- A text as its characters: what the calls of string.c do to them.
use posix_threads.Common.{
  ℕ, zero, suc, ◌+◌, ◌-◌, ◌^◌, ◌≤◌, ◌<◌, ◌≡◌, refl, sym, ap, ◌∙◌, ◌⊎◌, inl, inr, Bool, true, false,
  Option, none, some, List, [], ◌∷◌, ◌++◌, arith, dec_lt, lt→ltb, Bool-cases, le→ltb_false, length,
  length-append, take, drop, assertion, Outcome, done, stop, ◌>>=◌, ErrorCode, is_ok,
}
use mathlib.Core.List.{append-nil, append_assoc}
use posix_threads.Vec.{Allocator, u64, new, push}
use posix_threads.Vec.Edit.{Models, Models-length, remove-Models, insert-Models}
use posix_threads.Vec.Grow.{RefusesHuge}
use posix_threads.Buffer
use posix_threads.Buffer.{Room, Report, is_null, null, pop}
use posix_threads.Buffer.Laws.{pop-eq-take}
use posix_threads.Text.{
  string_free, Text, string_len, string_remove, string_pop, string_new, string_insert, string_push,
  push_each, string_from_slice,
}

-- The vector is well formed and holds the characters and a NUL.
pub record Holds (t : Text) (xs : List ℕ) : Type 0 where
  pub models : Models 1 t.storage (xs ++ 0 ∷ [])

-- The vector has one element more than the text has characters.
pub Holds-length : {t : Text} {xs : List ℕ} → Holds t xs → t.storage.len ≡ suc (length xs)
Holds-length {t} {xs} h = omega (arith, Models-length h.models, length-append xs (0 ∷ []))

pub Holds-small : {t : Text} {xs : List ℕ} → Holds t xs → t.storage.len < 2 ^ 63
Holds-small h = omega (arith, h.models.valid.fits, h.models.valid.small)

pub string_len-eq-length : {t : Text} {xs : List ℕ} → Holds t xs → string_len t ≡ length xs
unfolding string_len
string_len-eq-length h = omega (arith, Holds-length h, Holds-small h)

remove_inside :
    (pos : ℕ) (xs ys : List ℕ)
    → pos < length xs
    → take pos (xs ++ ys) ++ drop (suc pos) (xs ++ ys) ≡ (take pos xs ++ drop (suc pos) xs) ++ ys
remove_inside pos [] ys h = absurd (omega arith)
remove_inside zero (x ∷ xs) ys h = refl
remove_inside (suc pos) (x ∷ xs) ys h = ap (λ t. x ∷ t) (remove_inside pos xs ys (omega arith))

insert_last :
    (c z : ℕ) (xs : List ℕ)
    → take (length xs) (xs ++ z ∷ []) ++ (c ∷ drop (length xs) (xs ++ z ∷ []))
      ≡ (xs ++ c ∷ []) ++ z ∷ []
insert_last c z [] = refl
insert_last c z (x ∷ xs) = ap (λ t. x ∷ t) (insert_last c z xs)

-- `string_remove` stops at its assertion for a position past the last character, and otherwise takes
-- the character at that position out of the text.
pub string_remove-Holds :
    {t : Text} {xs : List ℕ} (pos : ℕ)
    → Holds t xs
    → ((length xs ≤ pos) × (string_remove t pos ≡ stop assertion))
      ⊎ ((u : Text) × (pos < length xs)
          × (string_remove t pos ≡ done u)
          × Holds u (take pos xs ++ drop (suc pos) xs))
unfolding string_remove
string_remove-Holds {t} {xs} pos h = elim (dec_lt pos (length xs)) [
  | no past ↦
      inl (omega arith, rw (string_len-eq-length h, le→ltb_false (length xs) pos (omega arith)))
  | yes inside ↦ elim (remove-Models pos h.models) [
    | inl (past, stopped) ↦ absurd (omega (arith, length-append xs (0 ∷ [])))
    | inr (v, below, run, models) ↦ inr (
      record { storage = v },
      inside,
      rw (string_len-eq-length h, lt→ltb _ _ inside, run),
      record { models = rw (remove_inside pos xs (0 ∷ []) inside) at models },
    )
  ]
]

drop_all : (n : ℕ) (xs : List ℕ) → length xs ≤ n → drop n xs ≡ []
drop_all zero [] h = refl
drop_all zero (x ∷ xs) h = absurd (omega arith)
drop_all (suc n) [] h = refl
drop_all (suc n) (x ∷ xs) h = drop_all n xs (omega arith)

-- `string_pop` stops at its assertion on the empty text, and otherwise drops the last character.
pub string_pop-Holds :
    {t : Text} {xs : List ℕ}
    → Holds t xs
    → ((length xs ≡ 0) × (string_pop t ≡ stop assertion))
      ⊎ ((u : Text) × (0 < length xs) × (string_pop t ≡ done u) × Holds u (pop xs))
unfolding string_pop
string_pop-Holds {t} {xs} h = elim (dec_lt 0 (length xs)) [
  | no empty ↦
      inl (omega arith, rw (string_len-eq-length h, le→ltb_false (length xs) 0 (omega arith)))
  | yes some_left ↦
      let last : u64 (length xs + 2 ^ 64 - 1) ≡ length xs - 1 =
        omega (arith, Holds-length h, Holds-small h) in
      elim (string_remove-Holds (length xs - 1) h) [
        | inl (past, stopped) ↦ absurd (omega arith)
        | inr (u, below, run, holds) ↦ inr (
          u,
          some_left,
          rw (string_len-eq-length h, lt→ltb _ _ some_left, last) refl ∙ run,
          rw (drop_all (suc (length xs - 1)) xs (omega arith), append-nil, ← pop-eq-take) at holds,
        )
      ]
]

-- Whatever `push` of a text with a certain room for more gives, the call gives.
abbrev pub PushResult : List ℕ → ℕ → Outcome (ErrorCode × Text) → Type 0
PushResult xs c r =
    (room : Room) × (code : ErrorCode) × (u : Text) × (r ≡ done (code, u))
    × Holds u (Buffer.push room xs c).0
    × (is_null (Buffer.push room xs c).1 ≡ is_ok code)

-- Where `realloc` refuses a request of more than `PTRDIFF_MAX` bytes, `string_push` of a well-formed
-- text adds the character at the end, or answers with an error and leaves the characters as they are:
-- it does what `push` does to the characters with a certain room.
pub string_push-Holds :
    (grant : Allocator) {t : Text} {xs : List ℕ} (c : ℕ)
    → RefusesHuge grant
    → Holds t xs
    → PushResult xs c (string_push grant t c)
unfolding string_push string_insert Buffer.push
string_push-Holds grant {t} {xs} c huge h =
    let at_nul : u64 (t.storage.len + 2 ^ 64 - 1) ≡ length xs =
      omega (arith, Holds-length h, Holds-small h) in
    let inside : length xs < t.storage.len = omega (arith, Holds-length h) in
    elim (insert-Models grant 1 huge (length xs) c h.models
      (omega (arith, length-append xs (0 ∷ [])))) [
        | inl (v, run, models) ↦ (
          λ n k. true,
          ErrorCode.ok,
          record { storage = v },
          rw (at_nul, lt→ltb _ _ inside, run),
          record { models = rw (insert_last c 0 xs) at models },
          refl,
        )
        | inr (run, full, refused) ↦ (
          λ n k. false,
          ErrorCode.memory_allocation_failure,
          t,
          rw (at_nul, lt→ltb _ _ inside, run),
          h,
          refl,
        )
      ]

-- A copy of the characters, or the status of a refused allocation.
abbrev pub CopyResult : List ℕ → Outcome (ErrorCode × Option Text) → Type 0
CopyResult xs r =
    ((u : Text) × (r ≡ done (ErrorCode.ok, some u)) × Holds u xs)
    ⊎ ((code : ErrorCode) × (rest : Option Text) × (r ≡ done (code, rest)) × (is_ok code ≡ false))

push-null :
    (room : Room) (xs : List ℕ) (c : ℕ) (b : Bool)
    → room (length xs) 1 ≡ b
    → is_null (Buffer.push room xs c).1 ≡ b
unfolding Buffer.push
push-null room xs c true h = rw h refl
push-null room xs c false h = rw h refl

push_given :
    (room : Room) (xs : List ℕ) (c : ℕ)
    → room (length xs) 1 ≡ true
    → (Buffer.push room xs c).0 ≡ xs ++ c ∷ []
unfolding Buffer.push
push_given room xs c h = rw h refl

module _ (grant : Allocator) (huge : RefusesHuge grant) where
  push_each-Holds :
      (t : Text) (xs cs : List ℕ)
      → Holds t xs
      → CopyResult (xs ++ cs) (push_each grant t cs >>= λ q. done (q.0, some q.1))
  unfolding push_each
  push_each-Holds t xs [] h = inl (t, refl, rw append-nil h)
  push_each-Holds t xs (c ∷ cs) h =
      let (room, code, u, run, holds, same) = string_push-Holds grant c huge h in
      elim (Bool-cases (room (length xs) 1)) [
        | inl given ↦
            let accepted : is_ok code ≡ true = sym same ∙ push-null room xs c true given in
            let longer : Holds u (xs ++ c ∷ []) = rw (push_given room xs c given) at holds in
            rw (run) (
              rw (accepted, ← append_assoc xs (c ∷ []) cs)
                (push_each-Holds u (xs ++ c ∷ []) cs longer))
        | inr refused ↦
            let failed : is_ok code ≡ false = sym same ∙ push-null room xs c false refused in
            rw (run) (rw (failed) (inr (code, some (string_free u), refl, failed)))
      ]

  empty : Models 1 (new {A = ℕ}) []
  unfolding new
  empty = record {
    valid = record {
      slots = refl;
      fits = omega arith;
      small = omega arith;
      sized = omega arith;
      narrow = omega arith;
    };
    holds = refl;
  }

  string_new-Holds :
      ((u : Text) × (string_new grant ≡ done (ErrorCode.ok, some u)) × Holds u [])
      ⊎ (string_new grant ≡ done (ErrorCode.memory_allocation_failure, none))
  unfolding string_new push new
  string_new-Holds = elim (insert-Models grant 1 huge 0 0 empty (omega arith)) [
    | inl (v, run, models) ↦ inl (record { storage = v }, rw run refl, record { models = models })
    | inr (run, full, refused) ↦ inr (rw run refl)
  ]

  -- Where `realloc` refuses a request of more than `PTRDIFF_MAX` bytes, `string_from_slice` stops at no
  -- assertion and at no access outside an object. It copies exactly the characters it is given, or
  -- answers with an error.
  pub string_from_slice-Holds : (cs : List ℕ) → CopyResult cs (string_from_slice grant cs)
  unfolding string_from_slice
  string_from_slice-Holds cs = elim string_new-Holds [
    | inl (t, run, holds) ↦ rw run (push_each-Holds t [] cs holds)
    | inr run ↦ rw run (inr (ErrorCode.memory_allocation_failure, none, refl, refl))
  ]
