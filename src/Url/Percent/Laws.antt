-- ===== src/Url/Percent/Laws.antt =====
-- What the percent-encoding writes: nothing of the set, and bytes that decode to the character.
use posix_threads.Common.{
  ℕ, ◌+◌, ◌-◌, ◌*◌, ◌/◌, ◌%◌, ◌<◌, ◌≡◌, refl, ap, ◌≢◌, inl, inr, true, false, not, Option, none,
  some, List, [], ◌∷◌, ◌++◌, arith, leb, ◌==◌, if◌then◌else◌, Bool-cases, first_pass,
  first_pass_sound, length,
}
use posix_threads.Buffer.{Room, Buffer, null, push, append_bytes}
use posix_threads.Url.Percent.{
  PercencSet, percenc_contains, hex_digit, percent_bytes, percent_encode,
}

-- the value of a lower-case hexadecimal digit
unfoldable pub hex_value : ℕ → ℕ
hex_value d = if leb d b'9' then d - b'0' else d + 10 - b'a'

-- One character back from its bytes: the character itself, or a percent sign and two digits.
unfoldable pub decode : List ℕ → Option ℕ
decode (c ∷ []) = some c
decode (p ∷ a ∷ b ∷ []) = if p == b'%' then some (16 * hex_value a + hex_value b) else none
decode _ = none

abbrev pub All : (ℕ → Type 0) → List ℕ → Type 0
All P [] = Unit
All P (x ∷ xs) = P x × All P xs

abbrev pub Outside : PercencSet → ℕ → Type 0
Outside which c = percenc_contains c which ≡ false

hex_digit-outside_table :
    (which : PercencSet) → first_pass (λ n. not (percenc_contains (hex_digit n) which)) 16 ≡ true
unfolding first_pass percenc_contains hex_digit
hex_digit-outside_table PercencSet.c0 = refl
hex_digit-outside_table PercencSet.fragment = refl
hex_digit-outside_table PercencSet.query = refl
hex_digit-outside_table PercencSet.spec_query = refl
hex_digit-outside_table PercencSet.path = refl
hex_digit-outside_table PercencSet.userinfo = refl
hex_digit-outside_table PercencSet.component = refl

hex_digit-Outside : (which : PercencSet) (n : ℕ) → n < 16 → Outside which (hex_digit n)
hex_digit-Outside which n small = ground (
  arith,
  first_pass_sound (λ n. not (percenc_contains (hex_digit n) which)) 16
      (hex_digit-outside_table which) n small,
)

percent_sign-Outside : (which : PercencSet) → which ≢ PercencSet.component → Outside which b'%'
unfolding percenc_contains
percent_sign-Outside PercencSet.c0 h = refl
percent_sign-Outside PercencSet.fragment h = refl
percent_sign-Outside PercencSet.query h = refl
percent_sign-Outside PercencSet.spec_query h = refl
percent_sign-Outside PercencSet.path h = refl
percent_sign-Outside PercencSet.userinfo h = refl
percent_sign-Outside PercencSet.component h = absurd (h refl)

hex_value-hex_digit : (n : ℕ) → n < 16 → hex_value (hex_digit n) ≡ n
unfolding hex_value hex_digit
hex_value-hex_digit n small = ground arith

decode-percent_bytes : (c : ℕ) → c < 256 → decode (percent_bytes c) ≡ some c
unfolding decode percent_bytes
decode-percent_bytes c small =
    let high : hex_value (hex_digit (c / 16)) ≡ c / 16 =
      hex_value-hex_digit (c / 16) (omega arith) in
    let low : hex_value (hex_digit (c % 16)) ≡ c % 16 =
      hex_value-hex_digit (c % 16) (omega arith) in
    rw (high, low) (ap (λ n. some n) (omega arith))

-- For a set other than that of components, which holds the percent sign, a byte that is encoded
-- without an error adds bytes that lie outside the set and decode to it: the byte itself, or a percent
-- sign and the two digits of the byte.
pub percent_encode-Outside :
    (room : Room) (c : ℕ) (buf t : Buffer) (which : PercencSet)
    → c < 256
    → which ≢ PercencSet.component
    → percent_encode room c buf which ≡ (t, null)
    → (xs : List ℕ) × (t ≡ buf ++ xs) × All (Outside which) xs × (decode xs ≡ some c)
unfolding percent_encode push append_bytes percent_bytes decode
percent_encode-Outside room c buf t which small plain h =
    elim (Bool-cases (percenc_contains c which)) [
      | inl inside ↦ elim (Bool-cases (room (length buf) (length (percent_bytes c)))) [
        | inl given ↦ (
          percent_bytes c,
          ground arith,
          ground (
            arith,
            percent_sign-Outside which plain,
            hex_digit-Outside which (c / 16) (omega arith),
            hex_digit-Outside which (c % 16) (omega arith),
          ),
          decode-percent_bytes c small,
        )
        | inr refused ↦ absurd (ground arith)
      ]
      | inr outside ↦ elim (Bool-cases (room (length buf) 1)) [
        | inl given ↦ (c ∷ [], ground arith, (outside, tt), refl)
        | inr refused ↦ absurd (ground arith)
      ]
    ]
