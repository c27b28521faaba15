-- ===== src/Dlist/Moves.antt =====
-- a.yanin/common/collections.dlist/include/common/collections/dlist.h: `swap`, `move_before`, `move_after`
-- and the check `is_valid` of their assertions.
use posix_threads.Common.{
  ℕ, zero, suc, ◌+◌, Bool, true, not, ◌||◌, ◌==◌, if◌then◌else◌, out_of_fuel, Outcome, done, stop,
  ◌>>=◌, ◌>>◌, assert,
}
use posix_threads.Dlist.Nodes.{Ptr, Node, Heap, load}
use posix_threads.Dlist.{Dlist, contains, link, unlink_both, next, prev}

-- what `is_valid` has counted at the end of its loop
record Survey : Type 0 where
  actual_len : ℕ
  actual_end : Ptr

-- `rhs` for `lhs` and `lhs` for `rhs`
abbrev traded : Ptr → Ptr → Ptr → Ptr
traded lhs rhs p = if p == lhs then rhs else if p == rhs then lhs else p

module _ {ℓ} {A : Type ℓ} where
  -- `q == NULL`, or the node behind it passes the test
  abbrev null_or : Heap A → Ptr → (Node A → Bool) → Outcome Bool
  null_or h q test = if q == 0 then done true else (load h q >>= λ n. done (test n))

  survey : ℕ → Heap A → Ptr → Survey → Outcome Survey
  unfolding load
  survey zero h p s = stop out_of_fuel
  survey (suc fuel) h p s = if p == 0 then done s else do
    n ← load h p
    forth ← null_or h n.next (λ m. m.prev == p)
    assert forth
    back ← null_or h n.prev (λ m. m.next == p)
    assert back
    survey fuel h n.next (record { actual_len = s.actual_len + 1; actual_end = p })

  unfoldable pub is_valid : Heap A → Dlist → Outcome Bool
  unfolding survey
  is_valid h self = do
    s ← survey (self.len + 1) h self.head (record { actual_len = 0; actual_end = 0 })
    assert (self.len == s.actual_len)
    assert (self.end == s.actual_end)
    done true

  -- the assertions that `move_before` and `move_after` begin with
  unfoldable pub check_both : Heap A → Dlist → Ptr → Ptr → Outcome Bool
  unfolding contains is_valid
  check_both h self p other = do
    found ← contains h self p
    assert found
    known ← (if other == 0 then done true else contains h self other)
    assert known
    is_valid h self

  -- the part of `move_after` behind its early returns, for a node to follow
  unfoldable pub relink_after : Heap A → Dlist → Ptr → Ptr → Outcome (Heap A × Dlist)
  unfolding next prev unlink_both link is_valid
  relink_after h self p after = do
    p_prev ← prev h p
    p_next ← next h p
    after_next ← next h after
    g ← unlink_both p h
    k ← link after p g
    m ← link p after_next k
    let moved = record self {
      head = if p == self.head then p_next else self.head;
      end = if p == self.end then p_prev else if after == self.end then p else self.end;
    }
    valid ← is_valid m moved
    assert valid
    done (m, moved)

  -- The call of itself for `NULL`, with the head for a node to follow, makes no further one, since the
  -- head of a list that holds a node is a node.
  unfoldable pub move_after : Heap A → Dlist → Ptr → Ptr → Outcome (Heap A × Dlist)
  unfolding check_both prev relink_after
  move_after h self p after = do
    checked ← check_both h self p after
    assert checked
    p_prev ← prev h p
    if after == p || after == p_prev
        then done (h, self)
        else if after == 0
        then (check_both h self p self.head >>= λ again.
            assert again
            >> (if self.head == p || self.head == p_prev
                then done (h, self)
                else relink_after h self p self.head))
        else relink_after h self p after

  unfoldable pub move_before : Heap A → Dlist → Ptr → Ptr → Outcome (Heap A × Dlist)
  unfolding check_both next prev unlink_both link is_valid move_after
  move_before h self p before = do
    checked ← check_both h self p before
    assert checked
    p_next ← next h p
    if before == p || before == p_next
        then done (h, self)
        else if before == 0
        then move_after h self p self.end
        else do
          p_prev ← prev h p
          before_prev ← prev h before
          g ← unlink_both p h
          k ← link before_prev p g
          m ← link p before k
          let moved = record self {
            head = if p == self.head then p_next else if before == self.head then p else self.head;
            end = if p == self.end then p_prev else self.end;
          }
          valid ← is_valid m moved
          assert valid
          done (m, moved)

  -- The links of `swap`. The neighbours have been read before the two nodes trade their names.
  unfoldable pub cross : Ptr → Ptr → Ptr → Ptr → Ptr → Ptr → Heap A → Outcome (Heap A)
  unfolding link
  cross lhs rhs lhs_prev lhs_next rhs_prev rhs_next h = do
    g ← link lhs_prev rhs h
    k ← link lhs rhs_next g
    if lhs_next == rhs then link rhs lhs k else (link rhs lhs_next k >>= link rhs_prev lhs)

  unfoldable pub swap : Heap A → Dlist → Ptr → Ptr → Outcome (Heap A × Dlist)
  unfolding contains next prev cross
  swap h self lhs rhs = do
    assert (not (lhs == 0))
    assert (not (rhs == 0))
    left ← contains h self lhs
    assert left
    right ← contains h self rhs
    assert right
    if lhs == rhs then done (h, self) else do
      lhs_prev ← prev h lhs
      lhs_next ← next h lhs
      rhs_prev ← prev h rhs
      rhs_next ← next h rhs
      let first = if rhs_next == lhs then rhs else lhs
      let second = if rhs_next == lhs then lhs else rhs
      g ← cross first second lhs_prev lhs_next rhs_prev rhs_next h
      done (
        g,
        record self { head = traded first second self.head; end = traded first second self.end },
      )
