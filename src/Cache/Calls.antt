-- ===== src/Cache/Calls.antt =====
-- The calls of a write handle in a.yanin/waxy/src/cache.c keep the invariant of the cache.
use posix_threads.Common.{
  ℕ, ◌+◌, ◌^◌, ◌<◌, ◌≡◌, refl, sym, ap, ◌∙◌, ◌⊎◌, inl, inr, Bool, true, false, ◌&&◌, List, ◌++◌,
  arith, ◌==◌, if◌then◌else◌, Bool-cases, length, length-append,
}
use mathlib.Core.Path.{subst}
use posix_threads.Vec.{u64}
use posix_threads.Cache.Content.{
  EntryState, same_state, Entry, wake, set_state, write, finish, drop_writer,
}
use posix_threads.Cache.{
  member, lookup, Cache, put, buf_len, write_entry, finish_entry, drop_entry_writer,
}
use posix_threads.Cache.Ledger.{total, Unique, total-same, total-change, IsEquivalence, UniqueKeys}
use posix_threads.Cache.Invariant.{IsCache, put-here, put-apart, put-same}

module _ {ℓ κ} {U : Type ℓ} {B : Type κ} (eq : U → U → Bool) (equiv : IsEquivalence eq) where
  -- The map, the members of the list and the marks of the entries are the same.
  pub record Alike (c d : Cache U B) : Type (ℓ ⊔ κ) where
    pub map : d.map ≡ c.map
    pub fresh : d.fresh ≡ c.fresh
    pub members : (a : ℕ) → member a d.entries ≡ member a c.entries
    pub url : (a : ℕ) → (d.store a).url ≡ (c.store a).url
    pub attached : (a : ℕ) → (d.store a).attached ≡ (c.store a).attached
    pub committed : (a : ℕ) → (d.store a).committed ≡ (c.store a).committed

  pub Alike-IsCache :
      (c d : Cache U B)
      → Alike c d
      → Unique d.entries
      → d.current_size ≡ total (buf_len d) d.entries
      → total (buf_len d) d.entries < 2 ^ 64
      → IsCache eq equiv c
      → IsCache eq equiv d
  Alike-IsCache c d k unique sized small i = record {
    sized = sized;
    small = small;
    unique = unique;
    keys = subst (UniqueKeys eq equiv) (sym k.map) i.keys;
    listed = λ a h.
        ap (lookup eq (d.store a).url) k.map
        ∙ ap (λ u. lookup eq u c.map) (k.url a)
        ∙ i.listed a (sym (k.members a) ∙ h);
    mapped = λ u a h.
        let (inside, same) = i.mapped u a (ap (lookup eq u) (sym k.map) ∙ h) in
        (k.members a ∙ inside, ap (eq u) (k.url a) ∙ same);
    bound = λ a h.
        let (committed, attached, old) = i.bound a (sym (k.members a) ∙ h) in
        (k.committed a ∙ committed, k.attached a ∙ attached, omega (arith, old, k.fresh));
    kept = λ a old committed attached.
        k.members a
        ∙ i.kept a (omega (arith, old, k.fresh)) (sym (k.committed a) ∙ committed)
            (sym (k.attached a) ∙ attached);
    loose = λ a old free.
        k.committed a ∙ i.loose a (omega (arith, old, k.fresh)) (sym (k.attached a) ∙ free);
  }

  -- an entry changes in its content only
  put-Alike :
      (c : Cache U B) (id n : ℕ) (e : Entry U B)
      → e.url ≡ (c.store id).url
      → e.attached ≡ (c.store id).attached
      → e.committed ≡ (c.store id).committed
      → Alike c (record c { store = put c.store id e; current_size = n })
  put-Alike c id n e url attached committed = record {
    map = refl;
    fresh = refl;
    members = λ a. refl;
    url = λ a. put-same (λ x. x.url) c.store id e a url;
    attached = λ a. put-same (λ x. x.attached) c.store id e a attached;
    committed = λ a. put-same (λ x. x.committed) c.store id e a committed;
  }

  -- an entry changes, but not in its buffer
  same_buf-IsCache :
      (c : Cache U B) (id : ℕ) (e : Entry U B)
      → e.url ≡ (c.store id).url
      → e.attached ≡ (c.store id).attached
      → e.committed ≡ (c.store id).committed
      → e.buf ≡ (c.store id).buf
      → IsCache eq equiv c
      → IsCache eq equiv (record c { store = put c.store id e })
  same_buf-IsCache c id e url attached committed buf i =
      let same =
        total-same (buf_len c) (λ a. length (put c.store id e a).buf) c.entries
          (λ a _. put-same (λ x. length x.buf) c.store id e a (ap length buf)) in
      Alike-IsCache c (record c { store = put c.store id e })
        (put-Alike c id c.current_size e url attached committed) i.unique (i.sized ∙ sym same)
        (omega (arith, same, i.small)) i

  set_state-IsCache :
      (c : Cache U B) (id : ℕ) (s : EntryState)
      → IsCache eq equiv c
      → IsCache eq equiv (record c { store = put c.store id (set_state (c.store id) s) })
  unfolding set_state wake
  set_state-IsCache c id s i = elim (Bool-cases (same_state (c.store id).state s)) [
    | inl equal ↦ rw equal (same_buf-IsCache c id (c.store id) refl refl refl refl i)
    | inr other ↦ elim (Bool-cases (same_state (c.store id).state EntryState.invalid)) [
      | inl off ↦ rw (other, off) (same_buf-IsCache c id (c.store id) refl refl refl refl i)
      | inr valid ↦
          rw (other, valid)
            (same_buf-IsCache c id (wake (record (c.store id) { state = s })) refl refl refl refl i)
    ]
  ]

  pub finish_entry-IsCache :
      (c : Cache U B) (id : ℕ) → IsCache eq equiv c → IsCache eq equiv (finish_entry c id)
  unfolding finish_entry finish
  finish_entry-IsCache c id i = set_state-IsCache c id EntryState.complete i

  pub drop_entry_writer-IsCache :
      (c : Cache U B) (id : ℕ) → IsCache eq equiv c → IsCache eq equiv (drop_entry_writer c id)
  unfolding drop_entry_writer drop_writer
  drop_entry_writer-IsCache c id i =
      elim (Bool-cases (same_state (c.store id).state EntryState.partial)) [
        | inl unfinished ↦ rw unfinished (set_state-IsCache c id EntryState.invalid i)
        | inr over ↦ rw over (same_buf-IsCache c id (c.store id) refl refl refl refl i)
      ]

  -- The bytes of a write have come to an entry, and the cache has counted what it should.
  longer-IsCache :
      (c : Cache U B) (id added : ℕ) (slice : List B)
      → (member id c.entries ≡ true → added ≡ length slice)
      → (member id c.entries ≡ false → added ≡ 0)
      → total (buf_len c) c.entries + length slice < 2 ^ 64
      → IsCache eq equiv c
      → IsCache eq equiv (record c {
        store = put c.store id (wake (record (c.store id) { buf = (c.store id).buf ++ slice }));
        current_size = u64 (c.current_size + added);
      })
  unfolding wake
  longer-IsCache c id added slice counted uncounted room i =
      elim (Bool-cases (member id c.entries)) [
        | inl inside ↦
            let change =
              total-change (buf_len c) longer id c.entries i.unique inside
                (λ b other. ap (λ x. length x.buf) (put-apart c.store id e b other)) in
            let here : longer id ≡ buf_len c id + length slice =
              ap (λ x. length x.buf) (put-here c.store id e)
              ∙ length-append (c.store id).buf slice in
            Alike-IsCache c after (put-Alike c id (u64 (c.current_size + added)) e refl refl refl)
              i.unique (omega (arith, change, here, room, i.sized, counted inside))
              (omega (arith, change, here, room)) i
        | inr outside ↦
            let same = total-same (buf_len c) longer c.entries (λ b inside.
              ap (λ x. length x.buf)
                (put-apart c.store id e b (λ z.
                  absurd (ground (arith, inside, outside, ap (λ y. member y c.entries) z))))) in
            Alike-IsCache c after (put-Alike c id (u64 (c.current_size + added)) e refl refl refl)
              i.unique (omega (arith, same, room, i.sized, uncounted outside))
              (omega (arith, same, room)) i
      ]
    where
      e : Entry U B
      e = wake (record (c.store id) { buf = (c.store id).buf ++ slice })

      longer : ℕ → ℕ
      longer a = length (put c.store id e a).buf

      after : Cache U B
      after = record c { store = put c.store id e; current_size = u64 (c.current_size + added) }

  pub write_entry-IsCache :
      (c : Cache U B) (grant : Bool) (id : ℕ) (slice : List B)
      → id < c.fresh
      → total (buf_len c) c.entries + length slice < 2 ^ 64
      → IsCache eq equiv c
      → IsCache eq equiv (write_entry grant c id slice).1
  unfolding write_entry write
  write_entry-IsCache c grant id slice old room i = elim (Bool-cases (length slice == 0)) [
    | inl nothing ↦ rw nothing unchanged
    | inr some_bytes ↦ elim (Bool-cases (same_state (c.store id).state EntryState.complete)) [
      | inl closed ↦ rw (some_bytes, closed) unchanged
      | inr unfinished ↦ elim (Bool-cases grant) [
        | inr refused ↦ rw (some_bytes, unfinished, refused) unchanged
        | inl granted ↦
            rw (some_bytes, unfinished, granted)
              (longer-IsCache c id
                (if (c.store id).attached && (c.store id).committed then length slice else 0) slice
                (λ inside.
                  let (committed, attached, _) = i.bound id inside in
                  ap (λ b. if b then length slice else 0) (marks attached committed))
                (λ outside.
                  ap (λ b. if b then length slice else 0)
                    (unmarked outside (Bool-cases (c.store id).attached)
                      (Bool-cases (c.store id).committed)))
                room i)
      ]
    ]
  ]
    where
      marks :
          (c.store id).attached ≡ true
          → (c.store id).committed ≡ true
          → ((c.store id).attached && (c.store id).committed) ≡ true
      marks a b = ground (arith, a, b)

      unmarked :
          member id c.entries ≡ false
          → (((c.store id).attached ≡ true) ⊎ ((c.store id).attached ≡ false))
          → (((c.store id).committed ≡ true) ⊎ ((c.store id).committed ≡ false))
          → ((c.store id).attached && (c.store id).committed) ≡ false
      unmarked outside (inl a) (inl b) = absurd (ground (arith, outside, i.kept id old b a))
      unmarked outside (inr a) b = ground (arith, a)
      unmarked outside (inl a) (inr b) = ground (arith, a, b)

      unchanged : IsCache eq equiv (record c {
        store = put c.store id (c.store id);
        current_size = u64 (c.current_size + 0);
      })
      unchanged =
          let same =
            total-same (buf_len c) (λ a. length (put c.store id (c.store id) a).buf) c.entries
              (λ a _. put-same (λ x. length x.buf) c.store id (c.store id) a refl) in
          Alike-IsCache c
            (record c {
              store = put c.store id (c.store id);
              current_size = u64 (c.current_size + 0);
            })
            (put-Alike c id (u64 (c.current_size + 0)) (c.store id) refl refl refl) i.unique
            (omega (arith, same, i.sized, i.small)) (omega (arith, same, i.small)) i
