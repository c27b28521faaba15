-- ===== src/Cache/Runs.antt =====
-- All runs of the cache of a.yanin/waxy/src/cache.c: its calls, in any order, each of them as one step. In the
-- source `cache_wr_write` holds only the mutex of the entry.
use posix_threads.Common.{
  done_inj, ℕ, ◌+◌, ◌^◌, ◌<◌, ◌≡◌, refl, sym, ap, ◌∙◌, Bool, List, arith, none-ne-some, length,
  Outcome, done, ◌>>=◌,
}
use mathlib.Core.Path.{subst}
use posix_threads.Cache.Content.{Entry}
use posix_threads.Cache.{
  Cache, buf_len, new, fetch, commit, write_entry, finish_entry, drop_entry_writer,
}
use posix_threads.Cache.Ledger.{total, IsEquivalence}
use posix_threads.Cache.Invariant.{IsCache}
use posix_threads.Cache.Calls.{write_entry-IsCache, finish_entry-IsCache, drop_entry_writer-IsCache}
use posix_threads.Cache.Fetches.{fetch-IsCache}
use posix_threads.Cache.Binding.{commit-IsCache}

-- A call, with what its allocations answer and the length that a commit has read.
pub data Action {ℓ κ} (U : Type ℓ) (B : Type κ) : Type (ℓ ⊔ κ) where
  fetches : Bool → ℕ → U → Action U B
  writes : Bool → ℕ → List B → Action U B
  finishes : ℕ → Action U B
  drops : ℕ → Action U B
  commits : Bool → Bool → ℕ → ℕ → Action U B

module _ {ℓ κ} {U : Type ℓ} {B : Type κ} where
  -- The entry is one of the store, and the bytes of all entries of the list and those that come to them
  -- fit into the memory.
  abbrev pub IsAllowed : Cache U B → Action U B → Type 0
  IsAllowed c (fetches grant name url) = Unit
  IsAllowed c (writes grant id slice) =
      (id < c.fresh) × (total (buf_len c) c.entries + length slice < 2 ^ 64)
  IsAllowed c (finishes id) = Unit
  IsAllowed c (drops id) = Unit
  IsAllowed c (commits list_ok map_ok stored_size id) =
      (id < c.fresh) × (total (buf_len c) c.entries + buf_len c id < 2 ^ 64)

module _ {ℓ κ} {U : Type ℓ} {B : Type κ} (eq : U → U → Bool) where
  unfoldable pub perform : Action U B → Cache U B → Outcome (Cache U B)
  unfolding fetch write_entry finish_entry drop_entry_writer commit
  perform (fetches grant name url) c = fetch eq grant name c url >>= λ (answer, d). done d
  perform (writes grant id slice) c = let (err, d) = write_entry grant c id slice in done d
  perform (finishes id) c = done (finish_entry c id)
  perform (drops id) c = done (drop_entry_writer c id)
  perform (commits list_ok map_ok stored_size id) c =
      commit eq list_ok map_ok stored_size c id >>= λ (err, d). done d

  pub data Reaches (c : Cache U B) : Cache U B → Type (ℓ ⊔ κ) where
    here : Reaches c c
    next :
        {d e : Cache U B} (a : Action U B)
        → Reaches c d
        → IsAllowed d a
        → perform a d ≡ done e
        → Reaches c e

module _ {ℓ κ} {U : Type ℓ} {B : Type κ} (eq : U → U → Bool) (equiv : IsEquivalence eq) where
  perform-IsCache :
      (a : Action U B) (c : Cache U B)
      → IsAllowed c a
      → IsCache eq equiv c
      → (d : Cache U B) × (perform eq a c ≡ done d) × IsCache eq equiv d
  unfolding perform
  perform-IsCache (fetches grant name url) c allowed i =
      let (r, run, valid) = fetch-IsCache eq equiv c grant name url i in
      (r.1, ap (λ x. x >>= λ (answer, d). done d) run, valid)
  perform-IsCache (writes grant id slice) c (old, room) i = (
    (write_entry grant c id slice).1,
    refl,
    write_entry-IsCache eq equiv c grant id slice old room i,
  )
  perform-IsCache (finishes id) c allowed i =
      (finish_entry c id, refl, finish_entry-IsCache eq equiv c id i)
  perform-IsCache (drops id) c allowed i =
      (drop_entry_writer c id, refl, drop_entry_writer-IsCache eq equiv c id i)
  perform-IsCache (commits list_ok map_ok stored_size id) c (old, room) i =
      let (r, run, valid) = commit-IsCache eq equiv c list_ok map_ok stored_size id old room i in
      (r.1, ap (λ x. x >>= λ (err, d). done d) run, valid)

  new-IsCache : (store : ℕ → Entry U B) (size_limit : ℕ) → IsCache eq equiv (new store size_limit)
  unfolding new
  new-IsCache store size_limit = record {
    sized = refl;
    small = omega arith;
    unique = tt;
    keys = tt;
    listed = λ a h. absurd (ground (arith, h));
    mapped = λ u a h. absurd (none-ne-some h);
    bound = λ a h. absurd (ground (arith, h));
    kept = λ a old committed attached. absurd (omega (arith, old));
    loose = λ a old free. absurd (omega (arith, old));
  }

  -- In every run of the calls of a cache, each call one step on an association list for the hash table and a
  -- sequence for the list: a URL is in the map exactly if the list has an entry with that URL, and the
  -- map leads to this entry; no entry is in the list twice; the recorded size is the sum of the sizes of
  -- the entries in the list. And no call stops at an assertion of the model or goes on for ever, if the
  -- bytes fit into the memory. A commit may have read any length of the stored entry.
  pub Reaches-IsCache :
      (store : ℕ → Entry U B) (size_limit : ℕ) (c : Cache U B)
      → Reaches eq (new store size_limit) c
      → IsCache eq equiv c
        × ((a : Action U B) → IsAllowed c a → (d : Cache U B) × (perform eq a c ≡ done d))
  Reaches-IsCache store size_limit c here =
      let i = new-IsCache store size_limit in
      (i, λ a allowed. let (d, run, valid) = perform-IsCache a c allowed i in (d, run))
  Reaches-IsCache store size_limit c (next {d = d} a r allowed e) =
      let (before, total) = Reaches-IsCache store size_limit d r in
      let (f, run, valid) = perform-IsCache a d allowed before in
      let i = subst (IsCache eq equiv) (done_inj (sym run ∙ e)) valid in
      (i, λ b allowed. let (g, run, valid) = perform-IsCache b c allowed i in (g, run))
