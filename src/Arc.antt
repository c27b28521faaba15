-- ===== src/Arc.antt =====
-- a.yanin/common/memory.arc/include/common/memory/arc.h: an object with an atomic count of its
-- references. Each atomic operation on the count is one step, with what the thread does at once with
-- the old count.
pub mod Runs
pub mod Tests
use posix_threads.Common.{
  ℕ, zero, suc, ◌+◌, ◌-◌, ◌*◌, ◌/◌, ◌%◌, ◌^◌, ◌≤◌, ◌<◌, min, max, ◌≡◌, refl, sym, ap, ◌∙◌, ◌≢◌, ◌↔◌,
  ◌⊎◌, inl, inr, Bool, true, false, not, ◌&&◌, ◌||◌, Option, none, some, List, [], ◌∷◌, ◌++◌, map,
  arith, dec_lt, dec_le, ℕ_discrete, ltb, leb, ◌==◌, if◌then◌else◌, ltb→lt, lt→ltb, leb→le, ==_iff,
  Bool-cases, Option-cases, le→leb, le→ltb_false, lt→leb_false, ne→==_false, some_inj, none-ne-some,
  get_elem?-set_self, get_elem?-set_ne, out_of_fuel, length, get_elem?, set, length-append,
  length-set, get_or, take, drop, replicate, length-take, length-drop, length-replicate, length-map,
  take-take, take_all, Fault, assertion, out_of_bounds, Outcome, done, stop, ◌>>=◌, ◌>>◌, assert,
  ErrorCode, is_ok,
}
use posix_threads.Vec.{u64}

-- `ARC_TYPE`; an `atomic_long` as its 64 bits
pub record Arc {ℓ} (A : Type ℓ) : Type ℓ where
  pub ref_count : ℕ
  pub object : A

-- the comparison `1 < n` of a `long`
abbrev pub above_one : ℕ → Bool
above_one n = ltb 1 n && ltb n (2 ^ 63)

module _ {ℓ} {A : Type ℓ} where
  -- `*self`; the memory is `none` once it has been freed.
  abbrev pub load : Option (Arc A) → Outcome (Arc A)
  load none = stop out_of_bounds
  load (some arc) = done arc

  -- `new`, once `malloc` has given the memory
  unfoldable pub new : A → Arc A
  new object = record { ref_count = 1; object = object }

  unfoldable pub share : Option (Arc A) → Outcome (Option (Arc A))
  share cell = do
    arc ← load cell
    assert (leb 1 arc.ref_count)
    done (some (record arc { ref_count = u64 (arc.ref_count + 1) }))

  -- `free`, to where it knows whether it frees the object
  unfoldable pub release : Option (Arc A) → Outcome (Bool × Option (Arc A))
  release cell = do
    arc ← load cell
    let left = some (record arc { ref_count = u64 (arc.ref_count + 2 ^ 64 - 1) })
    if above_one arc.ref_count
        then done (false, left)
        else (assert (arc.ref_count == 1) >> done (true, left))

  -- the rest of `free`: what is given to `free_cb`, and the memory without the arc
  unfoldable pub destroy : Option (Arc A) → Outcome (A × Option (Arc A))
  destroy cell = do arc ← load cell; done (arc.object, none)

  unfoldable pub get : Option (Arc A) → Outcome A
  get cell = do
    arc ← load cell
    assert (ltb 0 arc.ref_count && ltb arc.ref_count (2 ^ 63))
    done arc.object
