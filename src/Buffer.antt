-- ===== src/Buffer.antt =====
-- a.yanin/common/collections.string as a client sees it, and a.yanin/common/error: the characters of
-- a `string_t` without their terminator, and the errors of the calls.
pub mod Reports
pub mod Laws
pub use Reports.{Problem, Report, null, message, combined, sentinel, is_null}
unfoldable pub use Reports.{error_combine}
use posix_threads.Common.{
  ℕ, suc, ◌+◌, List, [], ◌∷◌, ◌++◌, Option, none, some, Bool, true, false, if◌then◌else◌, length,
}

abbrev pub Buffer : Type 0
Buffer = List ℕ

-- Whether a text of so many characters may grow by so many; `room 0 0` is for the terminator of a
-- new text.
abbrev pub Room : Type 0
Room = ℕ → ℕ → Bool

-- `string_push`, and the error of its code
unfoldable pub push : Room → Buffer → ℕ → Buffer × Report
push room s c =
    if room (length s) 1 then (s ++ c ∷ [], null) else (s, message Problem.out_of_memory)

-- `string_appendf` of a text that has been formatted
unfoldable pub append_bytes : Room → Buffer → List ℕ → Buffer × Report
append_bytes room s xs =
    if room (length s) (length xs) then (s ++ xs, null) else (s, message Problem.out_of_memory)

-- the loop of `string_from_slice`
unfoldable pub push_all : Room → Buffer → List ℕ → Option Buffer
push_all room s [] = some s
push_all room s (c ∷ cs) =
    let rest = push_all room (s ++ c ∷ []) cs in if room (length s) 1 then rest else none

unfoldable pub from_slice : Room → List ℕ → Option Buffer
unfolding push_all
from_slice room xs = if room 0 0 then push_all room [] xs else none

-- `string_pop`
unfoldable pub pop : Buffer → Buffer
pop [] = []
pop (c ∷ []) = []
pop (c ∷ d ∷ s) = c ∷ pop (d ∷ s)

unfoldable pub pop_many : ℕ → Buffer → Buffer
unfolding pop
pop_many ℕ.zero s = s
pop_many (suc n) s = pop_many n (pop s)
