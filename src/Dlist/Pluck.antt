-- ===== src/Dlist/Pluck.antt =====
-- a.yanin/common/collections.dlist: `pluck` and `remove` take one node out of a list.
use posix_threads.Common.{
  ◌+◌, ◌-◌, ◌^◌, ◌≡◌, refl, sym, ap, ◌∙◌, ◌≢◌, Bool, true, false, not, ◌||◌, none, [], ◌∷◌, ◌++◌,
  arith, ◌==◌, if◌then◌else◌, ==_iff, ne→==_false, length, length-append, Outcome, done, ◌>>=◌,
  assert,
}
use posix_threads.Vec.{u64}
use posix_threads.Dlist.Nodes.{Ptr, Node, node, Heap, write, load}
use posix_threads.Dlist.{Dlist, contains, unlink_both, detach, pluck, remove}
use posix_threads.Dlist.Chain.{Cells, first, last, has, split, join, frame, has-append, last-append}
use posix_threads.Dlist.Updates.{load-eq-done}
use posix_threads.Dlist.Trio.{Placed, Trio}
use posix_threads.Dlist.Links.{unlink_both-Trio}
use posix_threads.Dlist.Spec.{IsDlist, Placed-cells, Apart-append, contains-eq-done}

-- the list without the node at `p`, when `before` and `after` are its neighbours
abbrev pub shorter : Dlist → Ptr → Ptr → Ptr → Dlist
shorter self p before after = record self {
  head = if p == self.head then after else self.head;
  end = if p == self.end then before else self.end;
}

abbrev pub without : Dlist → Ptr → Ptr → Ptr → Dlist
without self p before after = record (shorter self p before after) {
  len = u64 (self.len + 2 ^ 64 - 1);
}

abbrev pub alone : Ptr → Dlist
alone p = record { head = p; end = p; len = 1 }

module _ {ℓ} {A : Type ℓ} where
  pub cleared : (g : Heap A) (p a : Ptr) → a ≢ p → write g p none a ≡ g a
  unfolding write
  cleared g p a other = rw (ne→==_false a p other) refl

  pub emptied : (g : Heap A) (p : Ptr) → write g p none p ≡ none
  unfolding write
  emptied g p = rw ((==_iff p p).1 refl) refl

  -- What is left when the cell has been taken out.
  pub record Plucked (h : Heap A) (p : Ptr) (v : A) (xs ys : Cells A) (g : Heap A)
      (rest out : Dlist) : Type ℓ where
    pub remains : IsDlist g rest (xs ++ ys)
    pub leaves : IsDlist g out ((p, v) ∷ [])
    pub elsewhere : (a : Ptr) → has a (xs ++ (p, v) ∷ ys) ≡ false → g a ≡ h a

module _ {ℓ} {A : Type ℓ} (h : Heap A) (self : Dlist) (p : Ptr) (v : A) (xs ys : Cells A) where
  new_head :
      Placed p xs ys
      → self.head ≡ first 0 (xs ++ (p, v) ∷ ys)
      → (if p == self.head then first 0 ys else self.head) ≡ first 0 (xs ++ ys)
  new_head placed head_first = rw (head_first) (from xs placed.not_left)
    where
      from :
          (zs : Cells A)
          → has p zs ≡ false
          → (if p == first 0 (zs ++ (p, v) ∷ ys) then first 0 ys else first 0 (zs ++ (p, v) ∷ ys))
            ≡ first 0 (zs ++ ys)
      from [] out = rw ((==_iff p p).1 refl) refl
      from ((q, w) ∷ zs) out = ground (arith, out)

  other_last : (before : Ptr) (zs : Cells A) → has p zs ≡ false → zs ≢ [] → last before zs ≢ p
  other_last before [] out some_cell = absurd (some_cell refl)
  other_last before ((q, w) ∷ []) out some_cell =
      λ e. absurd (ground (arith, out, (==_iff p q).1 (sym e)))
  other_last before ((q, w) ∷ z ∷ zs) out some_cell =
      other_last q (z ∷ zs) (ground (arith, out)) (λ e. absurd (cc e))

  new_end :
      Placed p xs ys
      → self.end ≡ last 0 (xs ++ (p, v) ∷ ys)
      → (if p == self.end then last 0 xs else self.end) ≡ last 0 (xs ++ ys)
  new_end placed end_last =
      rw (end_last, last-append 0 xs ((p, v) ∷ ys), last-append 0 xs ys) (from ys placed.not_right)
    where
      from :
          (zs : Cells A)
          → has p zs ≡ false
          → (if p == last p zs then last 0 xs else last p zs) ≡ last (last 0 xs) zs
      from [] out = rw ((==_iff p p).1 refl) refl
      from (z ∷ zs) out =
          rw
            (ne→==_false p (last z.0 zs)
              (λ e. other_last p (z ∷ zs) out (λ n. absurd (cc n)) (sym e)))
            refl

  listed-Trio : IsDlist h self (xs ++ (p, v) ∷ ys) → Trio h p v xs ys p p (last 0 xs) (first 0 ys) h
  listed-Trio it =
      let (left, (here, right)) = split h 0 0 xs ((p, v) ∷ ys) it.chain in
      record { left = left; right = right; mid = here; spared = λ a no_left no_right other. refl }

  is_listed : IsDlist h self (xs ++ (p, v) ∷ ys) → contains h self p ≡ done true
  is_listed it =
      let placed = Placed-cells p v xs ys it.apart in
      contains-eq-done h self p (xs ++ (p, v) ∷ ys) placed.filled it.chain it.apart it.head_first
        it.counted
      ∙ ap done (has-append p xs ((p, v) ∷ ys) ∙ ground (arith, (==_iff p p).1 refl))

  length-cells : length (xs ++ (p, v) ∷ ys) ≡ length (xs ++ ys) + 1
  length-cells = rw (length-append xs ((p, v) ∷ ys), length-append xs ys) (omega arith)

  without-IsDlist :
      (g : Heap A)
      → IsDlist h self (xs ++ (p, v) ∷ ys)
      → Trio h p v xs ys (first 0 ys) (last 0 xs) 0 0 g
      → IsDlist g (without self p (last 0 xs) (first 0 ys)) (xs ++ ys)
  without-IsDlist g it t =
      let placed = Placed-cells p v xs ys it.apart in
      record {
        chain = join g 0 0 xs ys t.left t.right;
        apart = Apart-append xs ys placed.left_apart placed.right_apart placed.disjoint;
        head_first = new_head placed it.head_first;
        end_last = new_end placed it.end_last;
        counted = omega (arith, length-cells, it.counted, it.small);
        small = omega (arith, length-cells, it.small);
      }

  -- `pluck` of a node of the list makes two lists: the other cells and the node alone.
  pub pluck-Plucked :
      IsDlist h self (xs ++ (p, v) ∷ ys)
      → (g : Heap A) × (pluck h self p ≡ done (g, without self p (last 0 xs) (first 0 ys), alone p))
        × Plucked h p v xs ys g (without self p (last 0 xs) (first 0 ys)) (alone p)
  unfolding pluck detach
  pluck-Plucked it =
      let placed = Placed-cells p v xs ys it.apart in
      let t = listed-Trio it in
      let (g, run, s) = unlink_both-Trio h p v xs ys placed h t in
      let remains = without-IsDlist g it s in
      let gone : has p (xs ++ ys) ≡ false =
        has-append p xs ys ∙ ground (arith, placed.not_left, placed.not_right) in
      (
        g,
        ap (λ x. x >>= λ b. assert b >>= λ _. detach h self p >>= λ l. unlink_both p h >>= finish l)
              (is_listed it)
            ∙ ap (λ x. (x >>= λ n. done (off n)) >>= λ l. unlink_both p h >>= finish l)
                (load-eq-done h p (node v (last 0 xs) (first 0 ys)) placed.filled t.mid)
            ∙ ap (λ x. x >>= finish (shorter self p (last 0 xs) (first 0 ys))) run
            ∙ ap (λ x. x >>= last_check g (without self p (last 0 xs) (first 0 ys)))
                (contains-eq-done g (without self p (last 0 xs) (first 0 ys)) p (xs ++ ys)
                  placed.filled remains.chain remains.apart remains.head_first remains.counted)
            ∙ ap (λ b. last_check g (without self p (last 0 xs) (first 0 ys)) b) gone,
        record {
          remains = remains;
          leaves = record {
            chain = (s.mid, tt);
            apart = (placed.filled, refl, tt);
            head_first = refl;
            end_last = refl;
            counted = refl;
            small = omega arith;
          };
          elsewhere = λ a out.
              let parts : (has a xs || has a ((p, v) ∷ ys)) ≡ false =
                sym (has-append a xs ((p, v) ∷ ys)) ∙ out in
              s.spared a (ground (arith, parts)) (ground (arith, parts))
                (λ e. absurd (ground (arith, parts, (==_iff a p).1 e)));
        },
      )
    where
      off : Node A → Dlist
      off n = record self {
        head = if p == self.head then n.next else self.head;
        end = if p == self.end then n.prev else self.end;
      }

      last_check : Heap A → Dlist → Bool → Outcome (Heap A × Dlist × Dlist)
      last_check g rest still = assert (not still) >>= λ _. done (g, rest, alone p)

      finish : Dlist → Heap A → Outcome (Heap A × Dlist × Dlist)
      finish l g =
          let rest : Dlist = record l { len = u64 (self.len + 2 ^ 64 - 1) } in
          contains g rest p >>= last_check g rest

  -- What `remove` leaves: the node is gone from the heap.
  pub record Removed (g : Heap A) (rest : Dlist) : Type ℓ where
    pub remains : IsDlist g rest (xs ++ ys)
    pub freed : g p ≡ none
    pub elsewhere : (a : Ptr) → has a (xs ++ (p, v) ∷ ys) ≡ false → g a ≡ h a

  -- `remove` of a node of the list gives the value of that node and the list of the other cells in their
  -- order, frees the node, and leaves what is no node of the list as it was.
  pub remove-Removed :
      IsDlist h self (xs ++ (p, v) ∷ ys)
      → (g : Heap A) × (rest : Dlist) × (remove h self p ≡ done (v, g, rest)) × Removed g rest
  unfolding remove
  remove-Removed it =
      let (g, run, s) = pluck-Plucked it in
      let placed = Placed-cells p v xs ys it.apart in
      let rest = without self p (last 0 xs) (first 0 ys) in
      let (here, c) = s.leaves.chain in
      let gone : has p (xs ++ ys) ≡ false =
        has-append p xs ys ∙ ground (arith, placed.not_left, placed.not_right) in
      let same : (a : Ptr) → a ≢ p → write g p none a ≡ g a = cleared g p in
      (
        write g p none,
        rest,
        ap (λ x. x >>= λ b. assert b >>= λ _. pluck h self p >>= finish) (is_listed it)
            ∙ ap (λ x. x >>= finish) run
            ∙ ap (λ x. x >>= λ n. done (n.value, write g p none, rest))
                (load-eq-done g p (node v 0 0) placed.filled here),
        record {
          remains = record {
            chain = frame g (write g p none) 0 0 (xs ++ ys) s.remains.chain (λ a inside.
                same a (λ e. absurd (ground (arith, gone, inside, ap (λ b. has b (xs ++ ys)) e))));
            apart = s.remains.apart;
            head_first = s.remains.head_first;
            end_last = s.remains.end_last;
            counted = s.remains.counted;
            small = s.remains.small;
          };
          freed = emptied g p;
          elsewhere = λ a out.
              same a
                (λ e. absurd (ground (arith, out, has-append a xs ((p, v) ∷ ys), (==_iff a p).1 e)))
              ∙ s.elsewhere a out;
        },
      )
    where
      finish : Heap A × Dlist × Dlist → Outcome (A × Heap A × Dlist)
      finish (g, rest, out) = load g p >>= λ n. done (n.value, write g p none, rest)
