-- ===== src/Text/Tests.antt =====
-- The laws of texts at the text "ab".
use posix_threads.Common.{
  ℕ, ◌^◌, ◌≤◌, ◌<◌, ◌≡◌, refl, ◌⊎◌, true, none, some, [], ◌∷◌, arith, ltb, ltb→lt, length, take,
  assertion, done, stop,
}
use posix_threads.Vec.{Allocator}
use posix_threads.Vec.Grow.{RefusesHuge}
use posix_threads.Buffer.{pop}
use posix_threads.Text.Cut.{string_set_len-Holds}
use posix_threads.Text.{
  string_set_len, Text, string_push, string_pop, string_from_slice, string_equals,
}
use posix_threads.Text.Laws.{
  Holds, PushResult, CopyResult, string_push-Holds, string_pop-Holds, string_from_slice-Holds,
}
use posix_threads.Text.Compare.{string_equals-same_text}

abbrev below_half : Allocator
below_half n = ltb n (2 ^ 63)

below_half-RefusesHuge : RefusesHuge below_half
below_half-RefusesHuge n h = ltb→lt n (2 ^ 63) h

abbrev text_ab : Text
text_ab = record {
  storage = record { storage = some 97 ∷ some 98 ∷ some 0 ∷ none ∷ []; capacity = 4; len = 3 };
}

text_ab-Holds : Holds text_ab (97 ∷ 98 ∷ [])
text_ab-Holds = record {
  models = record {
    valid = record {
      slots = refl;
      fits = omega arith;
      small = omega arith;
      sized = omega arith;
      narrow = omega arith;
    };
    holds = refl;
  };
}

string_push-Holds_example : PushResult (97 ∷ 98 ∷ []) 99 (string_push below_half text_ab 99)
string_push-Holds_example = string_push-Holds below_half 99 below_half-RefusesHuge text_ab-Holds

string_pop-Holds_example :
    ((length {A = ℕ} (97 ∷ 98 ∷ []) ≡ 0) × (string_pop text_ab ≡ stop assertion))
    ⊎ ((u : Text) × (0 < length {A = ℕ} (97 ∷ 98 ∷ []))
        × (string_pop text_ab ≡ done u)
        × Holds u (pop (97 ∷ 98 ∷ [])))
string_pop-Holds_example = string_pop-Holds text_ab-Holds

string_from_slice-Holds_example :
    CopyResult (97 ∷ 98 ∷ []) (string_from_slice below_half (97 ∷ 98 ∷ []))
string_from_slice-Holds_example =
    string_from_slice-Holds below_half below_half-RefusesHuge (97 ∷ 98 ∷ [])

string_equals-same_text_example : string_equals text_ab text_ab ≡ done true
string_equals-same_text_example = string_equals-same_text text_ab-Holds text_ab-Holds

string_set_len-Holds_example :
    ((length {A = ℕ} (97 ∷ 98 ∷ []) < 1) × (string_set_len text_ab 1 ≡ stop assertion))
    ⊎ ((u : Text) × (1 ≤ length {A = ℕ} (97 ∷ 98 ∷ []))
        × (string_set_len text_ab 1 ≡ done u)
        × Holds u (take 1 (97 ∷ 98 ∷ [])))
string_set_len-Holds_example = string_set_len-Holds 1 text_ab-Holds
