-- ===== src/Dlist/Tests.antt =====
-- Runs of the list of a.yanin/common/collections.dlist on small heaps.
use posix_threads.Common.{
  ℕ, ◌≡◌, refl, true, false, Option, none, some, [], ◌∷◌, arith, ◌==◌, if◌then◌else◌, Outcome, done,
  ◌>>=◌, ErrorCode,
}
use posix_threads.Dlist.Nodes.{Ptr, Node, node, Heap, write}
use posix_threads.Dlist.{Dlist, insert_after, remove, free, concat}
use posix_threads.Dlist.Moves.{move_after, swap}
use posix_threads.Dlist.Chain.{Cells, has}
use posix_threads.Dlist.Spec.{IsDlist}
use posix_threads.Dlist.Insert.{Inserted, insert_after-Inserted}
use posix_threads.Dlist.Pluck.{Removed, remove-Removed}
use posix_threads.Dlist.Whole.{Joined, concat-Joined, free-empties}

-- The values 70, 80 and 90 at the addresses 7, 8 and 9.
abbrev three_nodes : Heap ℕ
three_nodes a =
    if a == 7
    then some (node 70 0 8)
    else if a == 8
    then some (node 80 7 9)
    else if a == 9
    then some (node 90 8 0)
    else none

abbrev three : Dlist
three = record { head = 7; end = 9; len = 3 }

abbrev three_cells : Cells ℕ
three_cells = (7, 70) ∷ (8, 80) ∷ (9, 90) ∷ []

three-IsDlist : IsDlist three_nodes three three_cells
three-IsDlist = record {
  chain = (refl, (refl, (refl, tt)));
  apart = (omega arith, refl, (omega arith, refl, (omega arith, refl, tt)));
  head_first = refl;
  end_last = refl;
  counted = refl;
  small = omega arith;
}

-- the list of a call's result
abbrev order :
    Outcome (Heap ℕ × Dlist)
    → Outcome (Ptr × Ptr × Option (Node ℕ) × Option (Node ℕ) × Option (Node ℕ))
order r = r >>= λ (h, l). done (l.head, l.end, h 7, h 8, h 9)

moves_to_second :
    order (move_after three_nodes three 9 0)
    ≡ done (7, 8, some (node 70 0 9), some (node 80 9 0), some (node 90 7 8))
unfolding move_after write
moves_to_second = refl

swaps_neighbours :
    order (swap three_nodes three 7 8)
    ≡ done (8, 9, some (node 70 8 9), some (node 80 0 7), some (node 90 7 0))
unfolding swap write
swaps_neighbours = refl

-- With the nodes named in the other order, the pointers stay and the head moves.
swap_keeps_links :
    order (swap three_nodes three 8 7)
    ≡ done (8, 9, some (node 70 0 8), some (node 80 7 9), some (node 90 8 0))
unfolding swap write
swap_keeps_links = refl

insert_after-Inserted_example :
    (g : Heap ℕ) × (l : Dlist) × (insert_after 5 three_nodes three 50 7 ≡ done (ErrorCode.ok, g, l))
    × Inserted three_nodes 5 50 ((7, 70) ∷ []) ((8, 80) ∷ (9, 90) ∷ []) g l
insert_after-Inserted_example =
    insert_after-Inserted three_nodes three ((7, 70) ∷ []) ((8, 80) ∷ (9, 90) ∷ []) 50 5
      three-IsDlist (omega arith) refl (omega arith)

remove-Removed_example :
    (g : Heap ℕ) × (rest : Dlist) × (remove three_nodes three 8 ≡ done (80, g, rest))
    × Removed three_nodes three 8 80 ((7, 70) ∷ []) ((9, 90) ∷ []) g rest
remove-Removed_example =
    remove-Removed three_nodes three 8 80 ((7, 70) ∷ []) ((9, 90) ∷ []) three-IsDlist

abbrev pair_nodes : Heap ℕ
pair_nodes a = if a == 4 then some (node 40 0 0) else three_nodes a

abbrev single : Dlist
single = record { head = 4; end = 4; len = 1 }

single-IsDlist : IsDlist pair_nodes single ((4, 40) ∷ [])
single-IsDlist = record {
  chain = (refl, tt);
  apart = (omega arith, refl, tt);
  head_first = refl;
  end_last = refl;
  counted = refl;
  small = omega arith;
}

beside-IsDlist : IsDlist pair_nodes three three_cells
beside-IsDlist = record {
  chain = (refl, (refl, (refl, tt)));
  apart = (omega arith, refl, (omega arith, refl, (omega arith, refl, tt)));
  head_first = refl;
  end_last = refl;
  counted = refl;
  small = omega arith;
}

concat-Joined_example :
    (g : Heap ℕ) × (l : Dlist) × (concat pair_nodes single three ≡ done (g, l))
    × Joined pair_nodes ((4, 40) ∷ []) three_cells g l
concat-Joined_example =
    concat-Joined pair_nodes single three ((4, 40) ∷ []) three_cells single-IsDlist beside-IsDlist
      (λ a inside. ground (arith, inside)) (omega arith)

free-empties_example :
    (g : Heap ℕ) × (free three_nodes three ≡ done g)
    × ((a : Ptr) → has a three_cells ≡ true → g a ≡ none)
    × ((a : Ptr) → has a three_cells ≡ false → g a ≡ three_nodes a)
free-empties_example = free-empties three_nodes three three_cells three-IsDlist
