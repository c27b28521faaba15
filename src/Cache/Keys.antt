-- ===== src/Cache/Keys.antt =====
-- The keys of the map of a.yanin/waxy/src/cache.c: URLs, with their hashers and their comparison.
use posix_threads.Common.{
  ℕ, ◌+◌, ◌%◌, ◌^◌, ◌<◌, ◌≡◌, refl, sym, ap, ◌∙◌, Bool, true, false, Option, none, some, List, [],
  ◌∷◌, arith, ◌==◌, if◌then◌else◌, ==_iff, some_inj, none-ne-some,
}
use posix_threads.Cache.Ledger.{IsEquivalence}
use posix_threads.Vec.{u64}
use posix_threads.Hash.{Hashers}
use posix_threads.Hash.Invariant.{IsOdd}
use posix_threads.Hash.Pairs.{IsRight}
use posix_threads.Hash.Bytes.{
  digest_u8, digest_u16, digest_u32, digest_u64, digest_bytes, digest_slice, digest_bool,
  byte_hasher, byte_hasher_secondary, byte_hashers, byte_hashers-IsOdd,
}
use posix_threads.Url.Parse.{Url}
use posix_threads.Url.State.{same_bytes}
use posix_threads.Url.Compare.{
  View, field, unless, view, url_eq, url_eq-view, url_eq_refl, same_bytes_refl, both_null_or,
}

-- `digest_bool` of the flag, and the value unless the flag is set
abbrev digest_unless : Bool → (ℕ → ℕ) → ℕ → ℕ
digest_unless null digest state = let s = digest_bool state null in if null then s else digest s

unfoldable pub url_hash : Url → ℕ → ℕ
unfolding digest_slice digest_bool digest_u16
url_hash u state =
    let r = u.regions in
    let s₁ = digest_slice state (field (λ r. r.scheme) u) in
    let s₂ = digest_slice s₁ (field (λ r. r.username) u) in
    let s₃ = digest_slice s₂ (field (λ r. r.password) u) in
    let s₄ = digest_unless r.host_null (λ s. digest_slice s (field (λ r. r.host) u)) s₃ in
    let s₅ = digest_unless r.port_null (λ s. digest_u16 s r.port) s₄ in
    let s₆ = digest_slice s₅ (field (λ r. r.path) u) in
    let s₇ = digest_unless r.query_null (λ s. digest_slice s (field (λ r. r.query) u)) s₆ in
    digest_unless r.fragment_null (λ s. digest_slice s (field (λ r. r.fragment) u)) s₇

-- `url_ptr_primary_hasher`, `url_ptr_secondary_hasher` and `url_ptr_eq`
unfoldable pub url_hashers : Hashers Url
unfolding byte_hashers url_hash url_eq
url_hashers = byte_hashers 164 235 url_hash url_eq

digest_part : {A : Type 0} → (ℕ → A → ℕ) → Option A → ℕ → ℕ
digest_part digest none state = digest_bool state true
digest_part digest (some x) state = digest (digest_bool state false) x

-- the hash of what a client sees
view_hash : View → ℕ → ℕ
unfolding digest_part
view_hash v state = digest_part digest_slice v.fragment (
    digest_part digest_slice v.query (
      digest_slice
        (digest_part digest_u16 v.port (
          digest_part digest_slice v.host
            (digest_slice (digest_slice (digest_slice state v.scheme) v.username) v.password)))
        v.path))

digest_unless-part :
    {A : Type 0} (digest : ℕ → A → ℕ) (null : Bool) (x : A) (state : ℕ)
    → digest_unless null (λ s. digest s x) state ≡ digest_part digest (unless null x) state
unfolding digest_part
digest_unless-part digest true x state = refl
digest_unless-part digest false x state = refl

url_hash-view : (u : Url) (state : ℕ) → url_hash u state ≡ view_hash (view u) state
unfolding url_hash view_hash
url_hash-view u state =
    let r = u.regions in
    let v = view u in
    let host = field (λ r. r.host) u in
    let query = field (λ r. r.query) u in
    let fragment = field (λ r. r.fragment) u in
    let s₃ = digest_slice (digest_slice (digest_slice state v.scheme) v.username) v.password in
    let s₄ = digest_unless r.host_null (λ s. digest_slice s host) s₃ in
    let s₅ = digest_unless r.port_null (λ s. digest_u16 s r.port) s₄ in
    let s₆ = digest_slice s₅ v.path in
    let s₇ = digest_unless r.query_null (λ s. digest_slice s query) s₆ in
    digest_unless-part digest_slice r.fragment_null fragment s₇
    ∙ ap (digest_part digest_slice v.fragment) (
        digest_unless-part digest_slice r.query_null query s₆
        ∙ ap (λ s. digest_part digest_slice v.query (digest_slice s v.path))
            (digest_unless-part digest_u16 r.port_null r.port s₄
              ∙ ap (digest_part digest_u16 v.port)
                  (digest_unless-part digest_slice r.host_null host s₃)))

same_bytes_complete : (xs ys : List ℕ) → xs ≡ ys → same_bytes xs ys ≡ true
same_bytes_complete xs ys e = ap (same_bytes xs) (sym e) ∙ same_bytes_refl xs

both_null_or_complete :
    {A : Type 0} (a b test : Bool) (x y : A)
    → (x ≡ y → test ≡ true)
    → unless a x ≡ unless b y
    → both_null_or a b test ≡ true
both_null_or_complete true true test x y complete e = refl
both_null_or_complete true false test x y complete e = absurd (none-ne-some e)
both_null_or_complete false true test x y complete e = absurd (none-ne-some (sym e))
both_null_or_complete false false test x y complete e = complete (some_inj e)

view-url_eq : (u v : Url) → view u ≡ view v → url_eq u v ≡ true
unfolding url_eq
view-url_eq u v e =
    let a = u.regions in
    let b = v.regions in
    rw
      (
        same_bytes_complete (field (λ r. r.scheme) u) (field (λ r. r.scheme) v)
            (ap (λ w. w.scheme) e),
        same_bytes_complete (field (λ r. r.username) u) (field (λ r. r.username) v)
            (ap (λ w. w.username) e),
        same_bytes_complete (field (λ r. r.password) u) (field (λ r. r.password) v)
            (ap (λ w. w.password) e),
        both_null_or_complete a.host_null b.host_null _ _ _
            (same_bytes_complete (field (λ r. r.host) u) (field (λ r. r.host) v))
            (ap (λ w. w.host) e),
        both_null_or_complete a.port_null b.port_null _ _ _ (==_iff a.port b.port).1
            (ap (λ w. w.port) e),
        same_bytes_complete (field (λ r. r.path) u) (field (λ r. r.path) v) (ap (λ w. w.path) e),
        both_null_or_complete a.query_null b.query_null _ _ _
            (same_bytes_complete (field (λ r. r.query) u) (field (λ r. r.query) v))
            (ap (λ w. w.query) e),
        both_null_or_complete a.fragment_null b.fragment_null _ _ _
            (same_bytes_complete (field (λ r. r.fragment) u) (field (λ r. r.fragment) v))
            (ap (λ w. w.fragment) e),
      )
      refl

pub url_eq-IsEquivalence : IsEquivalence url_eq
url_eq-IsEquivalence = record {
  reflexive = url_eq_refl;
  symmetric = λ u v h. view-url_eq v u (sym (url_eq-view u v h));
  transitive = λ u v w h k. view-url_eq u w (url_eq-view u v h ∙ url_eq-view v w k);
}

-- a number below 2^64
u8_small : (state value : ℕ) → digest_u8 state value < 2 ^ 64
unfolding digest_u8
u8_small state value = omega arith

bytes_small : (bytes : List ℕ) (state : ℕ) → state < 2 ^ 64 → digest_bytes state bytes < 2 ^ 64
unfolding digest_bytes
bytes_small [] state small = small
bytes_small (c ∷ bytes) state small = bytes_small bytes (digest_u8 state c) (u8_small state c)

slice_small : (state : ℕ) (bytes : List ℕ) → digest_slice state bytes < 2 ^ 64
unfolding digest_slice digest_u64 digest_u32 digest_u16
slice_small state bytes = bytes_small bytes _ (u8_small _ _)

bool_small : (state : ℕ) (value : Bool) → digest_bool state value < 2 ^ 64
unfolding digest_bool
bool_small state value = u8_small state (if value then 1 else 0)

part_small : (part : Option (List ℕ)) (state : ℕ) → digest_part digest_slice part state < 2 ^ 64
unfolding digest_part
part_small none state = bool_small state true
part_small (some bytes) state = slice_small (digest_bool state false) bytes

url_hash_small : (u : Url) (state : ℕ) → url_hash u state < 2 ^ 64
unfolding view_hash
url_hash_small u state = rw (url_hash-view u state) (part_small (view u).fragment _)

-- The hashers that the cache gives to its map are right for it: `url_eq` is an equivalence, URLs that it
-- takes for the same have the same two hashes, and the secondary hashes are odd.
pub url_hashers_right :
    IsEquivalence url_eq
    × ((u v : Url)
        → url_eq u v ≡ true
        → (url_hashers.primary u ≡ url_hashers.primary v)
          × (url_hashers.secondary u ≡ url_hashers.secondary v))
    × IsOdd url_hashers
unfolding url_hashers byte_hasher byte_hasher_secondary
url_hashers_right = (
  url_eq-IsEquivalence,
  (λ u v h. (same u v 164 h, ap (λ n. if n % 2 == 0 then u64 (n + 1) else n) (same u v 235 h))),
  byte_hashers-IsOdd 164 235 url_hash url_eq (λ u. url_hash_small u 235),
)
  where
    same : (u v : Url) (state : ℕ) → url_eq u v ≡ true → url_hash u state ≡ url_hash v state
    same u v state h =
        url_hash-view u state
        ∙ ap (λ w. view_hash w state) (url_eq-view u v h)
        ∙ sym (url_hash-view v state)

-- The hashers of the cache are what the table asks for.
pub url_hashers-IsRight : IsRight url_hashers
unfolding url_hashers
url_hashers-IsRight =
    let (equiv, same, odd) = url_hashers_right in
    record {
      odd = odd;
      reflexive = equiv.reflexive;
      symmetric = equiv.symmetric;
      transitive = equiv.transitive;
      same_primary = λ u v h. (same u v h).0;
      same_secondary = λ u v h. (same u v h).1;
    }
