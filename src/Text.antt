-- ===== src/Text.antt =====
-- a.yanin/common/collections.string/src/string.c: `string_t`, a vector of bytes that ends in NUL.
pub mod Laws
pub mod Compare
pub mod Cut
pub mod Tests
use posix_threads.Common.{
  leb, assert, [], ◌++◌, out_of_bounds, none, some, suc, is_ok, stop, ◌>>=◌, ◌>>◌, take, ◌==◌, done,
  length, ◌-◌, false, map, true, not, ◌∷◌, ErrorCode, ◌^◌, Option, ltb, List, ◌+◌, if◌then◌else◌,
  Bool, Outcome, ℕ,
}
use posix_threads.Vec.{
  Vec, Allocator, u64, new, free, from_raw, insert, push, append, append_slice, remove,
  remove_slice, resize, set_len, get, write, clone, fetch, put,
}

-- `string_t`
pub record Text : Type 0 where
  pub storage : Vec ℕ

abbrev strlen : List ℕ → ℕ
strlen [] = 0
strlen (c ∷ s) = if c == 0 then 0 else suc (strlen s)

-- Each byte of the slice is a slot that has been written.
abbrev bytes : List ℕ → List (Option ℕ)
bytes s = map some s

-- the sign of `memcmp`
pub data Comparison : Type 0 where
  below : Comparison
  same : Comparison
  above : Comparison

abbrev is_same : Comparison → Bool
is_same Comparison.same = true
is_same _ = false

-- A slot that has not been written has no value to compare.
memcmp : List (Option ℕ) → List (Option ℕ) → Outcome Comparison
memcmp [] ys = done Comparison.same
memcmp (x ∷ xs) [] = done Comparison.same
memcmp (none ∷ xs) (y ∷ ys) = stop out_of_bounds
memcmp (some a ∷ xs) (none ∷ ys) = stop out_of_bounds
memcmp (some a ∷ xs) (some b ∷ ys) =
    let rest = memcmp xs ys in
    if ltb a b then done Comparison.below else if ltb b a then done Comparison.above else rest

unfoldable pub string_len : Text → ℕ
string_len t = u64 (t.storage.len + 2 ^ 64 - 1)

unfoldable pub string_free : Text → Text
unfolding free
string_free t = record { storage = free t.storage }

unfoldable pub string_remove : Text → ℕ → Outcome Text
unfolding string_len remove
string_remove t pos = do
  assert (ltb pos (string_len t))
  v ← remove t.storage pos
  done (record { storage = v })

unfoldable pub string_pop : Text → Outcome Text
unfolding string_len string_remove
string_pop t = do assert (ltb 0 (string_len t)); string_remove t (u64 (string_len t + 2 ^ 64 - 1))

unfoldable pub string_clear : Text → Outcome Text
unfolding set_len write
string_clear t = do v ← set_len t.storage 1; w ← write v 0 0; done (record { storage = w })

unfoldable pub string_set_len : Text → ℕ → Outcome Text
unfolding string_len set_len write
string_set_len t len = do
  assert (leb len (string_len t))
  v ← set_len t.storage (u64 (len + 1))
  w ← write v len 0
  done (record { storage = w })

unfoldable pub string_remove_slice : Text → ℕ → ℕ → Outcome Text
unfolding string_len remove_slice
string_remove_slice t start end = do
  assert (leb start end)
  v ← remove_slice 1 t.storage start (if ltb (string_len t) end then string_len t else end)
  done (record { storage = v })

-- The pointer of `vec_uchar_get` is read at once.
unfoldable pub string_get : Text → ℕ → Outcome (Option ℕ)
unfolding get
string_get t pos = elim (get t.storage pos) [ none ↦ stop out_of_bounds | some slot ↦ done slot ]

-- a write through the pointer of `string_get_mut`
unfoldable pub string_write : Text → ℕ → ℕ → Outcome Text
unfolding string_len write
string_write t pos c = do
  assert (ltb pos (string_len t))
  v ← write t.storage pos c
  done (record { storage = v })

unfoldable pub string_from_raw : List ℕ → ℕ → Outcome Text
unfolding from_raw
string_from_raw buf capacity = do
  assert (ltb 0 capacity)
  assert (ltb (strlen buf) capacity)
  v ← from_raw (bytes buf) capacity (u64 (strlen buf + 1))
  done (record { storage = v })

-- the shorter of both lengths
abbrev compared_len : Text → Text → ℕ
compared_len s t = if ltb (string_len t) (string_len s) then string_len t else string_len s

unfoldable pub string_cmp : Text → Text → Outcome Comparison
unfolding string_len memcmp
string_cmp s t = do
  xs ← fetch 0 (u64 (compared_len s t + 1)) s.storage.storage
  ys ← fetch 0 (u64 (compared_len s t + 1)) t.storage.storage
  memcmp xs ys

unfoldable pub string_equals : Text → Text → Outcome Bool
unfolding string_len string_cmp
string_equals s t =
    if not (string_len s == string_len t)
    then done false
    else (string_cmp s t >>= λ c. done (is_same c))

-- The calls that allocate.
module _ (grant : Allocator) where
  -- `none` is a result that has not been written.
  unfoldable pub string_new : Outcome (ErrorCode × Option Text)
  unfolding new push
  string_new = do
    (code, v) ← push grant 1 new 0
    done (code, if is_ok code then some (record { storage = v }) else none)

  unfoldable pub string_insert : Text → ℕ → ℕ → Outcome (ErrorCode × Text)
  unfolding insert
  string_insert t pos c = do
    assert (ltb pos t.storage.len)
    (code, v) ← insert grant 1 t.storage pos c
    done (code, record { storage = v })

  unfoldable pub string_push : Text → ℕ → Outcome (ErrorCode × Text)
  unfolding string_insert
  string_push t c = string_insert t (u64 (t.storage.len + 2 ^ 64 - 1)) c

  -- the loop of `string_from_slice` and of `string_from_cstr`, whose text is freed when it fails
  unfoldable pub push_each : Text → List ℕ → Outcome (ErrorCode × Text)
  unfolding string_push string_free
  push_each t [] = done (ErrorCode.ok, t)
  push_each t (c ∷ cs) =
      string_push t c >>= λ r. if is_ok r.0 then push_each r.1 cs else done (r.0, string_free r.1)

  unfoldable pub string_from_slice : List ℕ → Outcome (ErrorCode × Option Text)
  unfolding string_new push_each
  string_from_slice cs = string_new >>= λ r. elim r.1 [
    | none ↦ done (r.0, none)
    | some t ↦ (push_each t cs >>= λ q. done (q.0, some q.1))
  ]

  -- The characters of a C string are those before its NUL.
  unfoldable pub string_from_cstr : List ℕ → Outcome (ErrorCode × Option Text)
  unfolding string_from_slice
  string_from_cstr cs = string_from_slice (take (strlen cs) cs)

  -- `formatted` is what `vsnprintf` writes.
  unfoldable pub string_sprintf : List ℕ → Outcome (ErrorCode × Option Text)
  unfolding new resize set_len
  string_sprintf formatted = do
    let size = length formatted + 1
    (code, v) ← resize grant 1 new size
    if is_ok code
        then (set_len v size >>= λ w. put 0 (bytes (formatted ++ 0 ∷ [])) w.storage >>= λ s.
            done (code, some (record { storage = record w { storage = s } })))
        else done (code, none)

  unfoldable pub string_appendf : Text → List ℕ → Outcome (ErrorCode × Text)
  unfolding resize set_len
  string_appendf t formatted = do
    let start = t.storage.len - 1
    let size = u64 (start + length formatted + 1)
    (code, v) ← resize grant 1 t.storage size
    if is_ok code
        then (set_len v size >>= λ w. put start (bytes (formatted ++ 0 ∷ [])) w.storage >>= λ s.
            done (code, record { storage = record w { storage = s } }))
        else done (code, record { storage = v })

  unfoldable pub string_clone : Text → Outcome (ErrorCode × Text)
  unfolding clone
  string_clone t = do (code, v) ← clone grant 1 t.storage; done (code, record { storage = v })

  unfoldable pub string_append : Text → Text → Outcome (ErrorCode × Text)
  unfolding remove append push
  string_append t other = do
    v ← remove t.storage (u64 (t.storage.len + 2 ^ 64 - 1))
    (code, w) ← append grant 1 v other.storage
    if is_ok code
        then done (code, record { storage = w })
        else (push grant 1 w 0 >>= λ r. done (code, record { storage = r.1 }))

  unfoldable pub string_append_slice : Text → List ℕ → ℕ → Outcome (ErrorCode × Text)
  unfolding remove append_slice push write set_len
  string_append_slice t begin count = do
    let len = t.storage.len
    v ← remove t.storage (u64 (len + 2 ^ 64 - 1))
    (code, w) ← append_slice grant 1 v (bytes begin) count
    (null_code, x) ← push grant 1 w 0
    let status = if is_ok code then null_code else code
    if is_ok status
        then done (status, record { storage = x })
        else (write x (u64 (len + 2 ^ 64 - 1)) 0 >>= λ y.
            set_len y len >>= λ z. done (status, record { storage = z }))
