-- ===== src/Url/Chars.antt =====
-- a.yanin/waxy/src/url.c: the character classes. A character is a byte; `none` is `EOF`.
use Prim.Native.Nat.{ℕ, ◌+◌}
use posix_threads.Common.{
  List, [], ◌∷◌, Option, none, some, Bool, true, false, not, ◌&&◌, ◌||◌, ltb, leb, ◌==◌,
  if◌then◌else◌,
}

unfoldable pub is_c0 : ℕ → Bool
is_c0 c = ltb c 0x20

unfoldable pub is_c0_space : ℕ → Bool
is_c0_space c = leb c 0x20

unfoldable pub is_ascii_upper_alpha : ℕ → Bool
is_ascii_upper_alpha c = leb b'A' c && leb c b'Z'

unfoldable pub is_ascii_lower_alpha : ℕ → Bool
is_ascii_lower_alpha c = leb b'a' c && leb c b'z'

unfoldable pub is_ascii_alpha : ℕ → Bool
unfolding is_ascii_lower_alpha is_ascii_upper_alpha
is_ascii_alpha c = is_ascii_lower_alpha c || is_ascii_upper_alpha c

unfoldable pub is_ascii_digit : ℕ → Bool
is_ascii_digit c = leb b'0' c && leb c b'9'

unfoldable pub is_ascii_alphanum : ℕ → Bool
unfolding is_ascii_alpha is_ascii_digit
is_ascii_alphanum c = is_ascii_alpha c || is_ascii_digit c

unfoldable pub is_ascii_lower_hex : ℕ → Bool
unfolding is_ascii_digit
is_ascii_lower_hex c = is_ascii_digit c || (leb b'a' c && leb c b'f')

unfoldable pub is_ascii_upper_hex : ℕ → Bool
unfolding is_ascii_digit
is_ascii_upper_hex c = is_ascii_digit c || (leb b'A' c && leb c b'F')

unfoldable pub is_ascii_hex : ℕ → Bool
unfolding is_ascii_lower_hex is_ascii_upper_hex
is_ascii_hex c = is_ascii_lower_hex c || is_ascii_upper_hex c

unfoldable pub is_windows_drive_letter : List ℕ → Bool
unfolding is_ascii_alpha
is_windows_drive_letter (a ∷ b ∷ []) = is_ascii_alpha a && (b == b':' || b == b'|')
is_windows_drive_letter _ = false

abbrev pub one_of : List ℕ → ℕ → Bool
one_of [] c = false
one_of (x ∷ xs) c = c == x || one_of xs c

-- ! $ & ' ( ) * + , - . / : ; = ? @ _ ~
abbrev url_marks : List ℕ
url_marks =
    0x21 ∷ 0x24 ∷ 0x26 ∷ 0x27 ∷ 0x28 ∷ 0x29 ∷ 0x2a ∷ 0x2b ∷ 0x2c ∷ 0x2d ∷ 0x2e ∷ 0x2f ∷ 0x3a ∷ 0x3b
    ∷ 0x3d ∷ 0x3f ∷ 0x40 ∷ 0x5f ∷ 0x7e ∷ []

unfoldable pub is_url_ascii : ℕ → Bool
unfolding is_ascii_alphanum
is_url_ascii c = is_ascii_alphanum c || one_of url_marks c

unfoldable pub is_invalid_percent_escape : List ℕ → Bool
unfolding is_ascii_hex
is_invalid_percent_escape (a ∷ b ∷ _) = not (is_ascii_hex a) || not (is_ascii_hex b)
is_invalid_percent_escape _ = true

-- `tolower` in the C locale
unfoldable pub tolower : ℕ → ℕ
unfolding is_ascii_upper_alpha
tolower c = if is_ascii_upper_alpha c then c + 32 else c

-- A test of `int c` that no `EOF` passes.
abbrev pub meets : (ℕ → Bool) → Option ℕ → Bool
meets p none = false
meets p (some c) = p c

abbrev pub is_char : ℕ → Option ℕ → Bool
is_char x = meets (λ c. c == x)

abbrev pub is_none : Option ℕ → Bool
is_none none = true
is_none (some _) = false

-- `(unsigned char) c`
abbrev pub byte : Option ℕ → ℕ
byte none = 0xff
byte (some c) = c
