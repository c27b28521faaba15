-- ===== src/Dlist/Insert.antt =====
-- a.yanin/common/collections.dlist: `insert_after`, `append` and `insert_before` as insertions into a list.
use posix_threads.Common.{
  ℕ, ◌+◌, ◌^◌, ◌<◌, ◌≡◌, refl, sym, ap, ◌∙◌, ◌≢◌, inl, inr, Bool, true, false, ◌||◌, none, some, [],
  ◌∷◌, ◌++◌, arith, ◌==◌, if◌then◌else◌, ne→==_false, length, length-append, Outcome, done, ◌>>=◌,
  assert, ErrorCode,
}
use mathlib.Core.List.{append-nil}
use mathlib.Core.Path.{subst}
use posix_threads.Vec.{u64}
use posix_threads.Dlist.Nodes.{Ptr, Node, node, Heap, write, load}
use posix_threads.Dlist.{Dlist, contains, successor, splice, insert_after, append, insert_before}
use posix_threads.Dlist.Chain.{
  Cells, first, last, has, Chain, Apart, split, join, frame, has-append, last-append,
}
use posix_threads.Dlist.Updates.{load-eq-done}
use posix_threads.Dlist.Trio.{Placed, Trio, last-cases, first-cases}
use posix_threads.Dlist.Links.{last_node, write-here, write-apart}
use posix_threads.Dlist.Splice.{splice-Trio}
use posix_threads.Dlist.Spec.{
  IsDlist, Apart-left, Apart-right, disjoint, has-fresh, Placed-Apart, contains-eq-done,
}

module _ {ℓ} {A : Type ℓ} where
  -- The node behind the last one of the left cells is the first one of the right cells.
  pub successor-eq-done :
      (h : Heap A) (l : Dlist) (xs ys : Cells A)
      → Chain h 0 (xs ++ ys) 0
      → Apart (xs ++ ys)
      → l.head ≡ first 0 (xs ++ ys)
      → l.len ≡ length (xs ++ ys)
      → successor h l (last 0 xs) ≡ done (first 0 ys)
  unfolding successor
  successor-eq-done h l xs ys c apart head_first counted =
      elim (last-cases xs (Apart-left xs ys apart)) [
        | inl none_left ↦
            rw (none_left) (ap done (head_first ∙ ap (λ zs. first 0 (zs ++ ys)) none_left))
        | inr (nonzero, inside) ↦
            elim (last_node h 0 (first 0 ys) xs (Apart-left xs ys apart) (split h 0 0 xs ys c).0) [
              | inl none_left ↦ absurd (nonzero (ap (last 0) none_left))
              | inr n ↦
                  ap (λ b. if b then done l.head else found) (ne→==_false (last 0 xs) 0 nonzero)
                  ∙ ap (λ x. x >>= after)
                      (contains-eq-done h l (last 0 xs) (xs ++ ys) nonzero c apart head_first
                        counted)
                  ∙ ap (λ b. assert b >>= λ _. load h (last 0 xs) >>= onward) (listed inside)
                  ∙ ap (λ x. x >>= onward) (load-eq-done h (last 0 xs) n.it n.filled n.here)
                  ∙ ap done n.leads
            ]
      ]
    where
      listed : has (last 0 xs) xs ≡ true → has (last 0 xs) (xs ++ ys) ≡ true
      listed inside = has-append (last 0 xs) xs ys ∙ ap (λ b. b || has (last 0 xs) ys) inside

      onward : Node A → Outcome Ptr
      onward n = done n.next

      after : Bool → Outcome Ptr
      after b = assert b >>= λ _. load h (last 0 xs) >>= onward

      found : Outcome Ptr
      found = contains h l (last 0 xs) >>= after

  -- What an insertion at `fresh` between the cells leaves.
  pub record Inserted (h : Heap A) (fresh : Ptr) (v : A) (xs ys : Cells A) (g : Heap A) (l : Dlist)
      : Type ℓ where
    pub holds : IsDlist g l (xs ++ (fresh, v) ∷ ys)
    pub elsewhere : (a : Ptr) → has a (xs ++ ys) ≡ false → a ≢ fresh → g a ≡ h a

  module _ (h : Heap A) (self : Dlist) (xs ys : Cells A) (v : A) (fresh : Ptr) where
    prepared :
        IsDlist h self (xs ++ ys)
        → fresh ≢ 0
        → h fresh ≡ none
        → Placed fresh xs ys
          × Trio h fresh v xs ys (first 0 ys) (last 0 xs) 0 0 (write h fresh (some (node v 0 0)))
          × Chain (write h fresh (some (node v 0 0))) 0 (xs ++ ys) 0
    prepared it filled unused =
        let out = has-fresh h 0 0 fresh (xs ++ ys) it.chain unused in
        let grown = write h fresh (some (node v 0 0)) in
        let kept = frame h grown 0 0 (xs ++ ys) it.chain (λ a inside.
          write-apart h fresh (node v 0 0) a
            (λ e. absurd (ground (arith, out, inside, ap (λ b. has b (xs ++ ys)) e)))) in
        let (left, right) = split grown 0 0 xs ys kept in
        (
          record {
            filled = filled;
            left_apart = Apart-left xs ys it.apart;
            right_apart = Apart-right xs ys it.apart;
            disjoint = disjoint xs ys it.apart;
            not_left = ground (arith, out, has-append fresh xs ys);
            not_right = ground (arith, out, has-append fresh xs ys);
          },
          record {
            left = left;
            right = right;
            mid = write-here h fresh (node v 0 0);
            spared = λ a no_left no_right other. write-apart h fresh (node v 0 0) a other;
          },
          kept,
        )

    new_head :
        self.head ≡ first 0 (xs ++ ys)
        → Apart xs
        → (if last 0 xs == 0 then fresh else self.head) ≡ first 0 (xs ++ (fresh, v) ∷ ys)
    new_head head_first apart = elim (last-cases xs apart) [
      | inl none_left ↦ rw (none_left) refl
      | inr (nonzero, inside) ↦
          rw (ne→==_false (last 0 xs) 0 nonzero) (head_first ∙ first-either xs inside)
    ]
      where
        first-either :
            (zs : Cells A)
            → has (last 0 zs) zs ≡ true
            → first 0 (zs ++ ys) ≡ first 0 (zs ++ (fresh, v) ∷ ys)
        first-either [] inside = absurd (ground (arith, inside))
        first-either (z ∷ zs) inside = refl

    new_end :
        self.end ≡ last 0 (xs ++ ys)
        → Apart ys
        → (if first 0 ys == 0 then fresh else self.end) ≡ last 0 (xs ++ (fresh, v) ∷ ys)
    new_end end_last apart = elim (first-cases ys apart) [
      | inl none_right ↦ rw (none_right) (sym (last-append 0 xs ((fresh, v) ∷ [])))
      | inr (nonzero, inside) ↦ rw (ne→==_false (first 0 ys) 0 nonzero) (
          end_last
          ∙ last-append 0 xs ys
          ∙ last-either ys inside
          ∙ sym (last-append 0 xs ((fresh, v) ∷ ys)))
    ]
      where
        last-either :
            (zs : Cells A) → has (first 0 zs) zs ≡ true → last (last 0 xs) zs ≡ last fresh zs
        last-either [] inside = absurd (ground (arith, inside))
        last-either (z ∷ zs) inside = refl

    -- Where the heap holds a list and `malloc` answers an address without a node, `insert_after` gives the
    -- list with the new node behind the last of the left cells, in front of all if there is none, and
    -- leaves what is no node of the list as it was; the length must fit.
    pub insert_after-Inserted :
        IsDlist h self (xs ++ ys)
        → fresh ≢ 0
        → h fresh ≡ none
        → length (xs ++ ys) + 1 < 2 ^ 64
        → (g : Heap A) × (l : Dlist) × (insert_after fresh h self v (last 0 xs)
            ≡ done (ErrorCode.ok, g, l))
          × Inserted h fresh v xs ys g l
    unfolding insert_after
    insert_after-Inserted it filled unused room =
        let grown = write h fresh (some (node v 0 0)) in
        let (placed, t, kept) = prepared it filled unused in
        let (g, run, s) = splice-Trio h fresh v xs ys placed grown t in
        (
          g,
          longer (first 0 ys),
          ap
                (λ b.
                  if b
                  then done (ErrorCode.memory_allocation_failure, h, self)
                  else (successor grown self (last 0 xs) >>= rest))
                (ne→==_false fresh 0 filled)
              ∙ ap (λ x. x >>= rest)
                  (successor-eq-done grown self xs ys kept it.apart it.head_first it.counted)
              ∙ ap (λ x. x >>= answer (first 0 ys)) run,
          record {
            holds = record {
              chain = join g 0 0 xs ((fresh, v) ∷ ys) s.left (s.mid, s.right);
              apart = Placed-Apart fresh v xs ys placed;
              head_first = new_head it.head_first placed.left_apart;
              end_last = new_end it.end_last placed.right_apart;
              counted = counted;
              small = omega (arith, room, grows);
            };
            elsewhere = λ a out other.
                s.spared a (ground (arith, out, has-append a xs ys))
                  (ground (arith, out, has-append a xs ys)) other;
          },
        )
      where
        u64_small : (n : ℕ) → n < 2 ^ 64 → u64 n ≡ n
        u64_small n bound = omega (arith, bound)

        longer : Ptr → Dlist
        longer next = record {
          head = if last 0 xs == 0 then fresh else self.head;
          end = if next == 0 then fresh else self.end;
          len = u64 (self.len + 1);
        }

        answer : Ptr → Heap A → Outcome (ErrorCode × Heap A × Dlist)
        answer next g = done (ErrorCode.ok, g, longer next)

        rest : Ptr → Outcome (ErrorCode × Heap A × Dlist)
        rest next =
            splice (write h fresh (some (node v 0 0))) fresh (last 0 xs) next >>= answer next

        grows : length (xs ++ (fresh, v) ∷ ys) ≡ length (xs ++ ys) + 1
        grows = rw (length-append xs ((fresh, v) ∷ ys), length-append xs ys) (omega arith)

        counted : u64 (self.len + 1) ≡ length (xs ++ (fresh, v) ∷ ys)
        counted = rw (it.counted) (u64_small (length (xs ++ ys) + 1) room ∙ sym grows)

  -- `append` inserts behind the last cell, under the same conditions.
  pub append-Inserted :
      (h : Heap A) (self : Dlist) (cells : Cells A) (v : A) (fresh : Ptr)
      → IsDlist h self cells
      → fresh ≢ 0
      → h fresh ≡ none
      → length cells + 1 < 2 ^ 64
      → (g : Heap A) × (l : Dlist) × (append fresh h self v ≡ done (ErrorCode.ok, g, l))
        × Inserted h fresh v cells [] g l
  unfolding append
  append-Inserted h self cells v fresh it filled unused room =
      let same = append-nil cells in
      let (g, l, run, inserted) =
        insert_after-Inserted h self cells [] v fresh
          (subst (λ cs. IsDlist h self cs) (sym same) it) filled unused (rw same room) in
      (g, l, ap (insert_after fresh h self v) it.end_last ∙ run, inserted)

  -- `insert_before` inserts in front of the cell it names, under the same conditions.
  pub insert_before-Inserted :
      (h : Heap A) (self : Dlist) (xs ys : Cells A) (p : Ptr) (w v : A) (fresh : Ptr)
      → IsDlist h self (xs ++ (p, w) ∷ ys)
      → fresh ≢ 0
      → h fresh ≡ none
      → length (xs ++ (p, w) ∷ ys) + 1 < 2 ^ 64
      → (g : Heap A) × (l : Dlist) × (insert_before fresh h self v p ≡ done (ErrorCode.ok, g, l))
        × Inserted h fresh v xs ((p, w) ∷ ys) g l
  unfolding insert_before
  insert_before-Inserted h self xs ys p w v fresh it filled unused room =
      let (g, l, run, inserted) =
        insert_after-Inserted h self xs ((p, w) ∷ ys) v fresh it filled unused room in
      let (left, (here, right)) = split h 0 0 xs ((p, w) ∷ ys) it.chain in
      let (nonzero, out, apart) = Apart-right xs ((p, w) ∷ ys) it.apart in
      (
        g,
        l,
        ap
              (λ b.
                if b
                then append fresh h self v
                else (load h p >>= λ n. insert_after fresh h self v n.prev))
              (ne→==_false p 0 nonzero)
            ∙ ap (λ x. x >>= λ n. insert_after fresh h self v n.prev)
                (load-eq-done h p (node w (last 0 xs) (first 0 ys)) nonzero here)
            ∙ run,
        inserted,
      )
