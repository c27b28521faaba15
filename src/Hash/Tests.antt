-- ===== src/Hash/Tests.antt =====
-- The table on a storage of eight slots with a collision.
use posix_threads.Common.{
  ℕ, ◌+◌, ◌*◌, ◌^◌, ◌<◌, ◌≡◌, refl, sym, ap, ◌∙◌, ◌⊎◌, true, false, none, [], ◌∷◌, arith,
  ℕ_discrete, ltb, ◌==◌, ltb→lt, ==_iff, ne→==_false, done, ErrorCode,
}
use posix_threads.Hash.{Slot, Hash, Hashers, index_for_key}
use posix_threads.Vec.{Allocator}
use posix_threads.Vec.Grow.{RefusesHuge}
use posix_threads.Hash.{insert, remove, new, get, probe, ends_probe}
use posix_threads.Hash.Invariant.{IsOdd, IsSparse}
use posix_threads.Hash.Insertion.{new-IsSparse}
use posix_threads.Hash.Updates.{InsertResult, insert-InsertResult}
use posix_threads.Hash.Pairs.{IsRight, find, first_of}
use posix_threads.Hash.Maps.{IsMap}
use posix_threads.Hash.Others.{get-absent}
use posix_threads.Hash.Removal.{RemoveResult, remove-RemoveResult}
use posix_threads.Hash.Bytes.{byte_hashers, byte_hashers-IsOdd, digest_u8}
use posix_threads.Hash.Index.{index_for_key-Found, Found}

digest_u8_small : (key : ℕ) → digest_u8 7 key < 2 ^ 64
unfolding digest_u8
digest_u8_small key = omega arith

abbrev pub numbers : Hashers ℕ
numbers = record { primary = λ k. k; secondary = λ k. 2 * k + 1; eq = λ a b. a == b }

abbrev pub collision : Hash ℕ ℕ
collision = record {
  storage =
      Slot.free
      ∷ Slot.occupied 9 4
      ∷ Slot.deleted 2 2
      ∷ Slot.free
      ∷ Slot.free
      ∷ Slot.free
      ∷ Slot.free
      ∷ Slot.free
      ∷ [];
  capacity = 8;
  len = 1;
  non_free_entries = 2;
  rehashing = false;
}

index_for_key-Found_example :
    Found numbers.eq collision 1 true (index_for_key numbers collision 1 true)
index_for_key-Found_example =
    index_for_key-Found numbers collision 1 true 2 0 refl refl (omega arith) refl refl

numbers-IsOdd : IsOdd numbers
numbers-IsOdd key = omega arith

abbrev pub below_half : Allocator
below_half n = ltb n (2 ^ 63)

pub below_half-RefusesHuge : RefusesHuge below_half
below_half-RefusesHuge n h = ltb→lt n (2 ^ 63) h

pub collision-IsSparse : IsSparse collision
collision-IsSparse = record {
  table = record {
    exponent = 2;
    power = refl;
    slots = refl;
    small = omega arith;
    counted = omega arith;
  };
  half = omega arith;
  calm = refl;
}

pub numbers-IsRight : IsRight numbers
numbers-IsRight = record {
  odd = numbers-IsOdd;
  reflexive = λ a. (==_iff a a).1 refl;
  symmetric = λ a b h. (==_iff b a).1 (sym ((==_iff a b).0 h));
  transitive = λ a b c h k. (==_iff a c).1 ((==_iff a b).0 h ∙ (==_iff b c).0 k);
  same_primary = λ a b h. (==_iff a b).0 h;
  same_secondary = λ a b h. ap (λ k. 2 * k + 1) ((==_iff a b).0 h);
}

pub collision-IsMap : IsMap numbers collision
unfolding get index_for_key probe ends_probe
collision-IsMap = record {
  apart = (refl, tt);
  found = λ key. elim (ℕ_discrete key 9) [
    | yes same ↦ rw same refl
    | no other ↦
        let missing : find numbers collision.storage key ≡ none =
          ap (λ b. first_of b 4 none) (ne→==_false key 9 other) in
        get-absent numbers numbers-IsOdd collision key collision-IsSparse.table (omega arith)
          missing
        ∙ ap done (sym missing)
  ];
}

insert-InsertResult_example :
    InsertResult numbers numbers-IsRight below_half 24 below_half-RefusesHuge
      (omega arith)
      collision
      17
      5
      (insert numbers below_half 24 collision 17 5)
insert-InsertResult_example =
    insert-InsertResult numbers numbers-IsRight below_half 24 below_half-RefusesHuge (omega arith)
      collision 17 5 collision-IsSparse collision-IsMap

remove-RemoveResult_example : RemoveResult numbers collision 9 (remove numbers collision 9)
remove-RemoveResult_example =
    remove-RemoveResult numbers numbers-IsRight collision 9 collision-IsSparse collision-IsMap

new-IsSparse_example :
    ((u : Hash ℕ ℕ) × (new numbers below_half 24 ≡ done (ErrorCode.ok, u)) × IsSparse u)
    ⊎ ((u : Hash ℕ ℕ) × (new numbers below_half 24 ≡ done (ErrorCode.memory_allocation_failure, u)))
new-IsSparse_example =
    new-IsSparse numbers numbers-IsOdd below_half 24 below_half-RefusesHuge (omega arith)

byte_hashers-IsOdd_example :
    IsOdd (byte_hashers 3 7 (λ key state. digest_u8 state key) (λ a b. a == b))
byte_hashers-IsOdd_example =
    byte_hashers-IsOdd 3 7 (λ key state. digest_u8 state key) (λ a b. a == b) digest_u8_small
