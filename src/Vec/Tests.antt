-- ===== src/Vec/Tests.antt =====
-- The laws of the vector at a vector of two elements.
use posix_threads.Common.{
  ◌<◌, ℕ, ◌^◌, ◌≤◌, ◌≡◌, refl, ◌⊎◌, some, [], ◌∷◌, ◌++◌, arith, ltb, ltb→lt, length, take, drop,
  assertion, done, stop,
}
use posix_threads.Vec.{Vec, Allocator, insert, remove, get, resize, enlarge}
use posix_threads.Vec.Edit.{Models, InsertResult, insert-Models, remove-Models, get-Models}
use posix_threads.Vec.Grow.{
  RefusesHuge, IsValid, ResizeResult, next_capacity, resize-Resized, enlarge-Resized,
}

abbrev below_half : Allocator
below_half n = ltb n (2 ^ 63)

below_half-RefusesHuge : RefusesHuge below_half
below_half-RefusesHuge n h = ltb→lt n (2 ^ 63) h

abbrev two : Vec ℕ
two = record { storage = some 5 ∷ some 7 ∷ []; capacity = 2; len = 2 }

two-IsValid : IsValid 8 two
two-IsValid = record {
  slots = refl;
  fits = omega arith;
  small = omega arith;
  sized = omega arith;
  narrow = omega arith;
}

two-Models : Models 8 two (5 ∷ 7 ∷ [])
two-Models = record { valid = two-IsValid; holds = refl }

insert-Models_example : InsertResult below_half 8 two (5 ∷ 7 ∷ []) 1 6 (insert below_half 8 two 1 6)
insert-Models_example =
    insert-Models below_half 8 below_half-RefusesHuge 1 6 two-Models (omega arith)

remove-Models_example :
    ((length {A = ℕ} (5 ∷ 7 ∷ []) ≤ 0) × (remove two 0 ≡ stop assertion))
    ⊎ ((u : Vec ℕ) × (0 < length {A = ℕ} (5 ∷ 7 ∷ []))
        × (remove two 0 ≡ done u)
        × Models 8 u (take 0 (5 ∷ 7 ∷ []) ++ drop 1 (5 ∷ 7 ∷ [])))
remove-Models_example = remove-Models 0 two-Models

get-Models_example : get two 1 ≡ some (some 7)
get-Models_example = get-Models 1 two-Models

resize-Resized_example : ResizeResult below_half 8 two 5 (resize below_half 8 two 5)
resize-Resized_example =
    resize-Resized below_half 8 below_half-RefusesHuge two 5 two-IsValid (omega arith) (omega arith)

enlarge-Resized_example :
    ResizeResult below_half 8 two (next_capacity two.capacity) (enlarge below_half 8 two)
enlarge-Resized_example = enlarge-Resized below_half 8 below_half-RefusesHuge two two-IsValid
