-- ===== src/Hash/Bytes.antt =====
-- a.yanin/common/collections.hash/src/byte_hasher.c: the hash of a key, byte by byte. A state is its
-- `value`.
use posix_threads.Common.{
  ℕ, ◌+◌, ◌*◌, ◌/◌, ◌%◌, ◌^◌, ◌<◌, ◌≡◌, Bool, List, [], ◌∷◌, arith, ◌==◌, if◌then◌else◌, length,
}
use posix_threads.Vec.{u64}
use posix_threads.Hash.{Hashers}
use posix_threads.Hash.Invariant.{IsOdd}

unfoldable pub digest_u8 : ℕ → ℕ → ℕ
digest_u8 state value = u64 (u64 (state * 33) + value % 2 ^ 8)

unfoldable pub digest_u16 : ℕ → ℕ → ℕ
unfolding digest_u8
digest_u16 state value = digest_u8 (digest_u8 state (value % 2 ^ 16 / 2 ^ 8)) (value % 2 ^ 16)

unfoldable pub digest_u32 : ℕ → ℕ → ℕ
unfolding digest_u16
digest_u32 state value = digest_u16 (digest_u16 state (value % 2 ^ 32 / 2 ^ 16)) (value % 2 ^ 32)

unfoldable pub digest_u64 : ℕ → ℕ → ℕ
unfolding digest_u32
digest_u64 state value = digest_u32 (digest_u32 state (u64 value / 2 ^ 32)) (u64 value)

unfoldable pub digest_bytes : ℕ → List ℕ → ℕ
unfolding digest_u8
digest_bytes state [] = state
digest_bytes state (c ∷ s) = digest_bytes (digest_u8 state c) s

-- The length comes first.
unfoldable pub digest_slice : ℕ → List ℕ → ℕ
unfolding digest_u64 digest_bytes
digest_slice state s = digest_bytes (digest_u64 state (length s)) s

unfoldable pub digest_bool : ℕ → Bool → ℕ
unfolding digest_u8
digest_bool state value = digest_u8 state (if value then 1 else 0)

-- The configuration is the seed, and what the `hash` of a value does to the state.
unfoldable pub byte_hasher {ℓ} : {A : Type ℓ} → ℕ → (A → ℕ → ℕ) → A → ℕ
byte_hasher seed hash value = hash value seed

unfoldable pub byte_hasher_secondary {ℓ} : {A : Type ℓ} → ℕ → (A → ℕ → ℕ) → A → ℕ
unfolding byte_hasher
byte_hasher_secondary seed hash value =
    let answer = byte_hasher seed hash value in if answer % 2 == 0 then u64 (answer + 1) else answer

byte_hasher_secondary_odd {ℓ} :
    {A : Type ℓ} (seed : ℕ) (hash : A → ℕ → ℕ) (value : A)
    → hash value seed < 2 ^ 64
    → byte_hasher_secondary seed hash value % 2 ≡ 1
unfolding byte_hasher_secondary
byte_hasher_secondary_odd seed hash value small = ground arith

-- The hashers of a table whose keys are hashed byte by byte, each with its seed.
unfoldable pub byte_hashers {ℓ} : {K : Type ℓ} → ℕ → ℕ → (K → ℕ → ℕ) → (K → K → Bool) → Hashers K
byte_hashers first second hash eq = record {
  primary = byte_hasher first hash;
  secondary = byte_hasher_secondary second hash;
  eq = eq;
}

-- Where the state of the hasher stays below 2^64, the secondary hashes of `byte_hasher_secondary` are
-- odd, as the search in a table needs them.
pub byte_hashers-IsOdd {ℓ} :
    {K : Type ℓ} (first second : ℕ) (hash : K → ℕ → ℕ) (eq : K → K → Bool)
    → ((key : K) → hash key second < 2 ^ 64)
    → IsOdd (byte_hashers first second hash eq)
unfolding byte_hashers
byte_hashers-IsOdd first second hash eq small key =
    byte_hasher_secondary_odd second hash key (small key)
