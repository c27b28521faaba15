-- ===== src/Cache.antt =====
-- a.yanin/waxy/src/cache.c: the cache of responses. The entries live in a store and are named by their
-- numbers; the node of an entry in the list of the cache is named by the entry that it holds. The list
-- is taken as a sequence of entries and the hash table as an association list; Cache/Table shows that the
-- table of hash.h acts as such a list does. That the list's `move_before` moves a node to the end is not
-- proved of dlist.h but assumed. Each call is one step.
pub mod Content
pub mod Keys
pub mod Session
pub mod Ledger
pub mod Invariant
pub mod Evict
pub mod Calls
pub mod Fetches
pub mod Binding
pub mod Runs
pub mod Table
pub mod Tests
use posix_threads.Common.{
  ℕ, zero, suc, ◌+◌, ◌-◌, ◌*◌, ◌/◌, ◌%◌, ◌^◌, ◌≤◌, ◌<◌, min, max, ◌≡◌, refl, sym, ap, ◌∙◌, ◌≢◌, ◌↔◌,
  ◌⊎◌, inl, inr, Bool, true, false, not, ◌&&◌, ◌||◌, Option, none, some, List, [], ◌∷◌, ◌++◌, map,
  arith, dec_lt, dec_le, ℕ_discrete, ltb, leb, ◌==◌, if◌then◌else◌, ltb→lt, lt→ltb, leb→le, ==_iff,
  Bool-cases, Option-cases, le→leb, le→ltb_false, lt→leb_false, ne→==_false, some_inj, none-ne-some,
  get_elem?-set_self, get_elem?-set_ne, out_of_fuel, length, get_elem?, set, length-append,
  length-set, get_or, take, drop, replicate, length-take, length-drop, length-replicate, length-map,
  take-take, take_all, Fault, assertion, out_of_bounds, Outcome, done, stop, ◌>>=◌, ◌>>◌, assert,
  ErrorCode, is_ok,
}
use posix_threads.Vec.{u64}
use posix_threads.Cache.Content.{
  EntryState, same_state, Entry, write, finish, drop_writer, new_reader,
}

abbrev pub member : ℕ → List ℕ → Bool
member a [] = false
member a (x ∷ xs) = (a == x) || member a xs

-- the first occurrence goes
abbrev pub erase : ℕ → List ℕ → List ℕ
erase a [] = []
erase a (x ∷ xs) = let rest = erase a xs in if a == x then xs else x ∷ rest

module _ {ℓ} {U : Type ℓ} (eq : U → U → Bool) where
  abbrev pub lookup : U → List (U × ℕ) → Option ℕ
  lookup u [] = none
  lookup u ((v, a) ∷ m) = let rest = lookup u m in if eq u v then some a else rest

  abbrev pub erase_key : U → List (U × ℕ) → List (U × ℕ)
  erase_key u [] = []
  erase_key u ((v, a) ∷ m) = let rest = erase_key u m in if eq u v then m else (v, a) ∷ rest

-- `cache_t`, with the store of the entries and the number of the next one
pub record Cache {ℓ κ} (U : Type ℓ) (B : Type κ) : Type (ℓ ⊔ κ) where
  pub map : List (U × ℕ)
  pub entries : List ℕ
  pub size_limit : ℕ
  pub current_size : ℕ
  pub store : ℕ → Entry U B
  pub fresh : ℕ

-- What `cache_fetch` does: it calls `on_hit`, it calls `on_miss`, or it answers an error.
pub data Fetched : Type 0 where
  hit miss : ℕ → Fetched
  failed : Fetched

module _ {ℓ κ} {U : Type ℓ} {B : Type κ} where
  abbrev pub put : (ℕ → Entry U B) → ℕ → Entry U B → ℕ → Entry U B
  put store id e a = if a == id then e else store a

  unfoldable pub new : (ℕ → Entry U B) → ℕ → Cache U B
  new store size_limit = record {
    map = [];
    entries = [];
    size_limit = size_limit;
    current_size = 0;
    store = store;
    fresh = 0;
  }

  abbrev pub buf_len : Cache U B → ℕ → ℕ
  buf_len c id = length (c.store id).buf

  module _ (eq : U → U → Bool) where
    -- `cache_remove_entry_unsync`, once `hash_entry_remove` has found a node
    unfoldable pub unbind : Cache U B → ℕ → ℕ → Outcome (Cache U B)
    unbind c id node = do
      assert (leb (buf_len c id) c.current_size)
      assert (id == node)
      done (record c {
        map = erase_key eq (c.store id).url c.map;
        entries = erase id c.entries;
        current_size = u64 (c.current_size + 2 ^ 64 - buf_len c id);
        store = put c.store id (record (c.store id) { attached = false });
      })

    unfoldable pub remove_entry : Cache U B → ℕ → Outcome (Cache U B)
    unfolding unbind
    remove_entry c id = do
      assert (member id c.entries)
      elim (lookup eq (c.store id).url c.map) [
        | none ↦ stop assertion
        | some node ↦ unbind c id node
      ]

    -- the loop of `cache_evict_if_necessary_unsync`
    unfoldable pub evict_loop : ℕ → Cache U B → Outcome (Cache U B)
    unfolding remove_entry
    evict_loop zero c = stop out_of_fuel
    evict_loop (suc fuel) c =
        if not (ltb c.size_limit c.current_size)
        then done c
        else elim c.entries [ [] ↦ done c | head ∷ rest ↦ remove_entry c head >>= evict_loop fuel ]

    unfoldable pub evict : Cache U B → Outcome (Cache U B)
    unfolding evict_loop
    evict c = evict_loop (length c.entries + 1) c

    -- `cache_create_entry_unsync`; `grant` tells whether it gets all its memory, and `name` is the
    -- read handle.
    unfoldable pub create_entry : Bool → ℕ → Cache U B → U → Fetched × Cache U B
    unfolding new_reader
    create_entry grant name c url = if not grant then (failed, c) else (
      miss c.fresh,
      record c {
        store = put c.store c.fresh (
            new_reader name (record {
              url = url;
              buf = [];
              state = EntryState.partial;
              attached = true;
              committed = false;
              handles = [];
            }));
        fresh = c.fresh + 1;
      },
    )

    -- `cache_create_handle_unsync`
    unfoldable pub create_handle : Bool → ℕ → Cache U B → ℕ → U → Outcome (Fetched × Cache U B)
    unfolding evict create_entry new_reader
    create_handle grant name c id url =
        if same_state (c.store id).state EntryState.invalid
        then (evict c >>= λ d. done (create_entry grant name d url))
        else if not grant
        then done (failed, c)
        else do
          assert (member id c.entries)
          done (
            hit id,
            record c {
              entries = erase id c.entries ++ id ∷ [];
              store = put c.store id (new_reader name (c.store id));
            },
          )

    unfoldable pub fetch : Bool → ℕ → Cache U B → U → Outcome (Fetched × Cache U B)
    unfolding create_handle evict create_entry
    fetch grant name c url = elim (lookup eq url c.map) [
      | none ↦ evict c >>= λ d. done (create_entry grant name d url)
      | some id ↦ create_handle grant name c id url
    ]

    -- the end of `cache_wr_commit`: the entry goes into the list and the map. `list_ok` and `map_ok`
    -- tell whether these get memory; if the map does not, the node is taken out of the list again.
    unfoldable pub bind : Bool → Bool → Cache U B → ℕ → Bool × Cache U B
    bind list_ok map_ok c id = if not (list_ok && map_ok) then (true, c) else (
      false,
      record c {
        map = ((c.store id).url, id) ∷ c.map;
        entries = c.entries ++ id ∷ [];
        current_size = u64 (c.current_size + buf_len c id);
        store = put c.store id (record (c.store id) { committed = true });
      },
    )

    -- `cache_wr_commit`; `stored_size` is the length of the stored entry, which was read before its mutex
    -- was released, so that writes may have come in between.
    unfoldable pub commit : Bool → Bool → ℕ → Cache U B → ℕ → Outcome (Bool × Cache U B)
    unfolding remove_entry bind
    commit list_ok map_ok stored_size c id = if (c.store id).committed then done (false, c) else do
      assert (c.store id).attached
      elim (lookup eq (c.store id).url c.map) [
        | none ↦ done (bind list_ok map_ok c id)
        | some node ↦
            if ltb stored_size (buf_len c id)
            then done (false, c)
            else (remove_entry c node >>= λ d. done (bind list_ok map_ok d id))
      ]

  -- the calls of an entry's write handle
  unfoldable pub write_entry : Bool → Cache U B → ℕ → List B → Bool × Cache U B
  unfolding write
  write_entry grant c id slice =
      let (err, e, added) = write grant (c.store id) slice in
      (err, record c { store = put c.store id e; current_size = u64 (c.current_size + added) })

  unfoldable pub finish_entry : Cache U B → ℕ → Cache U B
  unfolding finish
  finish_entry c id = record c { store = put c.store id (finish (c.store id)) }

  unfoldable pub drop_entry_writer : Cache U B → ℕ → Cache U B
  unfolding drop_writer
  drop_entry_writer c id = record c { store = put c.store id (drop_writer (c.store id)) }
