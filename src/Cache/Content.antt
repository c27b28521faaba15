-- ===== src/Cache/Content.antt =====
-- a.yanin/waxy/src/cache.c: one entry of the cache, its write handle and its read handles. What is here
-- happens while the mutex of the entry is held, but for `rd_process`, which releases it before it reads.
use posix_threads.Common.{
  ℕ, ◌+◌, ◌-◌, ◌^◌, Bool, true, false, not, ◌&&◌, ◌||◌, Option, none, some, List, [], ◌∷◌, ◌++◌,
  map, ltb, leb, ◌==◌, if◌then◌else◌, length, take, drop,
}
use posix_threads.Vec.{u64}

-- `cache_entry_state_t`
pub data EntryState : Type 0 where
  complete partial invalid : EntryState

abbrev pub same_state : EntryState → EntryState → Bool
same_state EntryState.complete EntryState.complete = true
same_state EntryState.partial EntryState.partial = true
same_state EntryState.invalid EntryState.invalid = true
same_state _ _ = false

-- `cache_rd_t`, by a number in place of its address. `last_state` is `none` for the -1 that it begins
-- with, and `forced` is the flag that `handler_force` sets for the event loop.
pub record Reader : Type 0 where
  pub name : ℕ
  pub count : ℕ
  pub last_state : Option EntryState
  pub forced : Bool

-- `cache_entry_t`; `attached` tells whether `cache` is not `NULL`.
pub record Entry {ℓ κ} (U : Type ℓ) (B : Type κ) : Type (ℓ ⊔ κ) where
  pub url : U
  pub buf : List B
  pub state : EntryState
  pub attached : Bool
  pub committed : Bool
  pub handles : List Reader

abbrev pub force : Reader → Reader
force r = record r { forced = true }

abbrev pub known : EntryState → Option EntryState → Bool
known s none = false
known s (some t) = same_state s t

abbrev without_handle : ℕ → List Reader → List Reader
without_handle name [] = []
without_handle name (r ∷ rs) = if r.name == name then rs else r ∷ without_handle name rs

module _ {ℓ κ} {U : Type ℓ} {B : Type κ} where
  -- `cache_entry_wake_unsync`
  unfoldable pub wake : Entry U B → Entry U B
  wake e = record e { handles = map force e.handles }

  -- `cache_entry_set_state_unsync`
  unfoldable pub set_state : Entry U B → EntryState → Entry U B
  unfolding wake
  set_state e s =
      if same_state e.state s
      then e
      else if same_state e.state EntryState.invalid
      then e
      else wake (record e { state = s })

  -- `cache_wr_write`: whether it answers an error, the entry, and what it adds to `current_size`
  unfoldable pub write : Bool → Entry U B → List B → Bool × Entry U B × ℕ
  unfolding wake
  write grant e slice =
      if length slice == 0
      then (false, e, 0)
      else if same_state e.state EntryState.complete
      then (true, e, 0)
      else if not grant
      then (true, e, 0)
      else (
        false,
        wake (record e { buf = e.buf ++ slice }),
        (if e.attached && e.committed then length slice else 0),
      )

  -- `cache_wr_complete`
  unfoldable pub finish : Entry U B → Entry U B
  unfolding set_state
  finish e = set_state e EntryState.complete

  -- `cache_wr_free`
  unfoldable pub drop_writer : Entry U B → Entry U B
  unfolding set_state
  drop_writer e =
      if same_state e.state EntryState.partial then set_state e EntryState.invalid else e

  -- `cache_entry_new_rd_unsync`, once its memory is there
  unfoldable pub new_reader : ℕ → Entry U B → Entry U B
  new_reader name e = record e {
    handles =
        e.handles
        ++ record { name = name; count = 0; last_state = none; forced = not (length e.buf == 0) }
          ∷ [];
  }

  -- `cache_rd_read`: the bytes, the handle, and whether it sets `*eof`
  unfoldable pub read : Entry U B → Reader → ℕ → List B × Reader × Bool
  read e r size =
      let unread = u64 (length e.buf + 2 ^ 64 - r.count) in
      let copied = if ltb unread size then unread else size in
      let count = u64 (r.count + copied) in
      (
        take copied (drop r.count e.buf),
        record r { count = count },
        not (same_state e.state EntryState.partial) && leb (length e.buf) count,
      )

  -- The first half of `rd_process`. `new_len` and `state` are what it has read of the entry before it
  -- released the mutex, and `e` is the entry when `on_read` reads. `want` is how much `on_read` reads, and
  -- `read_ok` whether it answers without an error; the Boolean is the error of this function.
  unfoldable pub process_data :
      Bool → ℕ → ℕ → EntryState → Entry U B → Reader → Bool × List B × Reader
  unfolding read
  process_data read_ok want new_len state e r =
      if ltb r.count new_len
        || (not (known state r.last_state) && same_state state EntryState.complete)
      then (let (bytes, s, eof) = read e r want in
          if not read_ok
          then (true, bytes, s)
          else (false, bytes, (if ltb s.count new_len then force s else s)))
      else (false, [], r)

  -- `rd_process`; `update_ok` is what `on_update` answers.
  unfoldable pub process :
      Bool → Bool → ℕ → ℕ → EntryState → Entry U B → Reader → Bool × List B × Reader
  unfolding process_data
  process read_ok update_ok want new_len state e r =
      let (err, bytes, s) = process_data read_ok want new_len state e r in
      if err
      then (true, bytes, s)
      else if known state r.last_state
      then (false, bytes, s)
      else if not update_ok
      then (true, bytes, s)
      else (false, bytes, record s { last_state = some state })

  -- `rd_free` of a registered handle
  unfoldable pub drop_reader : ℕ → Entry U B → Entry U B
  drop_reader name e = record e { handles = without_handle name e.handles }
