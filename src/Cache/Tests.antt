-- ===== src/Cache/Tests.antt =====
-- Runs of a.yanin/waxy/src/cache.c with numbers for URLs and for bytes.
use posix_threads.Common.{
  ℕ, ◌≡◌, refl, inl, inr, Bool, true, false, none, List, [], ◌∷◌, arith, ◌==◌, Bool-cases, length,
  Outcome, done, stop, ◌>>=◌,
}
use posix_threads.Hash.{get, insert, remove}
use posix_threads.Hash.Tests.{
  numbers, collision, numbers-IsRight, collision-IsSparse, collision-IsMap, below_half,
  below_half-RefusesHuge,
}
use posix_threads.Cache.Table.{IsLike, Inserted, Erased, table-acts_as_list}
use posix_threads.Cache.Content.{write, read, EntryState, Entry}
use posix_threads.Cache.{lookup, Cache, new, evict}
use posix_threads.Cache.Ledger.{IsEquivalence}
use posix_threads.Cache.Invariant.{IsCache}
use posix_threads.Cache.Evict.{Evicted, evict-Evicted}
use posix_threads.Cache.Session.{Session, IsPrefix, Reaches-IsPrefix}
use posix_threads.Cache.Session as Sessions
use posix_threads.Cache.Runs.{Action, IsAllowed, perform, Reaches, here, next, Reaches-IsCache}

abbrev same_number : ℕ → ℕ → Bool
same_number a b = a == b

same_number-IsEquivalence : IsEquivalence same_number
same_number-IsEquivalence = record {
  reflexive = λ u. ground arith;
  symmetric = λ u v h. ground (arith, h);
  transitive = λ u v w h k. ground (arith, h, k);
}

abbrev unused : ℕ → Entry ℕ ℕ
unused a = record {
  url = 0;
  buf = [];
  state = EntryState.invalid;
  attached = false;
  committed = false;
  handles = [];
}

abbrev calls : List (Action ℕ ℕ)
calls =
    Action.fetches true 1 70
    ∷ Action.writes true 0 (1 ∷ 2 ∷ 3 ∷ [])
    ∷ Action.commits true true 0 0
    ∷ Action.finishes 0
    ∷ Action.fetches true 2 80
    ∷ Action.writes true 1 (4 ∷ 5 ∷ [])
    ∷ Action.commits true true 0 1
    ∷ []

abbrev run : List (Action ℕ ℕ) → Cache ℕ ℕ → Outcome (Cache ℕ ℕ)
run [] c = done c
run (a ∷ more) c = perform same_number a c >>= run more

-- The limit is four bytes, so that the second entry makes the cache too large.
abbrev view : Cache ℕ ℕ → List ℕ × ℕ × List (ℕ × ℕ)
view c = (c.entries, c.current_size, c.map)

grows_past_the_limit :
    (run calls (new unused 4) >>= λ c. done (view c)) ≡ done (0 ∷ 1 ∷ [], 5, (80, 1) ∷ (70, 0) ∷ [])
unfolding perform new
grows_past_the_limit = refl

evicts_the_first :
    (run calls (new unused 4) >>= evict same_number >>= λ c. done (view c))
    ≡ done (1 ∷ [], 2, (80, 1) ∷ [])
unfolding perform new evict
evicts_the_first = refl

abbrev after : Action ℕ ℕ → Cache ℕ ℕ → Cache ℕ ℕ
after a c = elim (perform same_number a c) [ done d ↦ d | stop f ↦ c ]

abbrev one_entry : Cache ℕ ℕ
one_entry = after (Action.commits true true 0 0) (
    after (Action.writes true 0 (1 ∷ 2 ∷ 3 ∷ [])) (after (Action.fetches true 1 70) (new unused 2)))

one_entry-Reaches : Reaches same_number (new unused 2) one_entry
unfolding perform new
one_entry-Reaches =
    next (Action.commits true true 0 0)
      (next (Action.writes true 0 (1 ∷ 2 ∷ 3 ∷ [])) (next (Action.fetches true 1 70) here tt refl)
        (omega arith, omega arith) refl)
      (omega arith, omega arith) refl

Reaches-IsCache_example :
    IsCache same_number same_number-IsEquivalence one_entry
    × ((a : Action ℕ ℕ)
        → IsAllowed one_entry a
        → (d : Cache ℕ ℕ) × (perform same_number a one_entry ≡ done d))
Reaches-IsCache_example =
    Reaches-IsCache same_number same_number-IsEquivalence unused 2 one_entry one_entry-Reaches

evict-Evicted_example :
    (d : Cache ℕ ℕ) × (evict same_number one_entry ≡ done d)
    × Evicted same_number same_number-IsEquivalence one_entry d
evict-Evicted_example =
    evict-Evicted same_number same_number-IsEquivalence one_entry Reaches-IsCache_example.0

-- A longer response does not replace a shorter one, and a shorter one replaces a longer one.
abbrev two_fetches : List ℕ → List ℕ → List (Action ℕ ℕ)
two_fetches first second =
    Action.fetches true 1 70
    ∷ Action.fetches true 2 70
    ∷ Action.writes true 0 first
    ∷ Action.writes true 1 second
    ∷ Action.commits true true 0 0
    ∷ Action.commits true true (length first) 1
    ∷ []

longer_response_dropped :
    (run (two_fetches (1 ∷ []) (1 ∷ 2 ∷ [])) (new unused 9) >>= λ c. done (view c))
    ≡ done (0 ∷ [], 1, (70, 0) ∷ [])
unfolding perform new
longer_response_dropped = refl

shorter_response_replaces :
    (run (two_fetches (1 ∷ 2 ∷ []) (1 ∷ [])) (new unused 9) >>= λ c. done (view c))
    ≡ done (1 ∷ [], 1, (70, 1) ∷ [])
unfolding perform new
shorter_response_replaces = refl

abbrev opened : Session ℕ ℕ
opened = record {
  entry = record (unused 0) { url = 70; state = EntryState.partial };
  reader = record { name = 1; count = 0; last_state = none; forced = false };
  writer = true;
  seen = [];
  ended = false;
}

abbrev half_read : Session ℕ ℕ
half_read = record opened {
  entry = record (unused 0) { url = 70; state = EntryState.partial; buf = 5 ∷ 6 ∷ [] };
  reader = record { name = 1; count = 1; last_state = none; forced = false };
  seen = 5 ∷ [];
}

half_read-Reaches : Sessions.Reaches opened half_read
unfolding write read
half_read-Reaches =
    Sessions.next
      (Sessions.next Sessions.here (Sessions.writes true (5 ∷ 6 ∷ []) refl (omega arith) refl))
      (Sessions.reads 1 refl)

Reaches-IsPrefix_example : IsPrefix half_read
Reaches-IsPrefix_example =
    Reaches-IsPrefix opened half_read refl refl refl (omega arith) (λ h. absurd (ground (arith, h)))
      half_read-Reaches

-- The table of one pair and the list of that pair.
collision-IsLike : IsLike numbers collision ((9, 4) ∷ [])
collision-IsLike = record {
  sparse = collision-IsSparse;
  map = collision-IsMap;
  same = λ u. elim (Bool-cases (u == 9)) [ inl e ↦ rw e refl | inr e ↦ rw e refl ];
}

table-acts_as_list_example :
    (get numbers collision 9 ≡ done (lookup numbers.eq 9 ((9, 4) ∷ [])))
    × Inserted numbers numbers-IsRight below_half 24 below_half-RefusesHuge
        (omega arith)
        ((9, 4) ∷ [])
        17
        5
        collision
        (insert numbers below_half 24 collision 17 5)
    × Erased numbers numbers-IsRight below_half 24 below_half-RefusesHuge
        (omega arith)
        ((9, 4) ∷ [])
        9
        collision
        (remove numbers collision 9)
table-acts_as_list_example =
    table-acts_as_list numbers numbers-IsRight below_half 24 below_half-RefusesHuge (omega arith)
      collision ((9, 4) ∷ []) 9 17 9 5 (refl, tt) collision-IsLike refl
