-- ===== src/Url/Percent.antt =====
-- a.yanin/waxy/src/url.c: the sets of characters that are percent-encoded, and the encoding.
pub mod Laws
use posix_threads.Common.{
  ℕ, ◌+◌, ◌-◌, ◌/◌, ◌%◌, List, [], ◌∷◌, Bool, ◌&&◌, ◌||◌, ltb, leb, ◌==◌, if◌then◌else◌,
}
use posix_threads.Buffer.{Room, Buffer, Report, push, append_bytes}
use posix_threads.Url.Chars.{is_c0, one_of}

pub data PercencSet : Type 0 where
  c0 : PercencSet
  fragment : PercencSet
  query : PercencSet
  spec_query : PercencSet
  path : PercencSet
  userinfo : PercencSet
  component : PercencSet

-- A byte from 0x80 on is negative as a `char`: it passes the first test where `char` is signed, and
-- the second where it is not.
in_c0 : ℕ → Bool
unfolding is_c0
in_c0 c = is_c0 c || ltb 0x7e c

-- blank " # < >
in_query : ℕ → Bool
unfolding in_c0
in_query c = one_of (0x20 ∷ 0x22 ∷ 0x23 ∷ 0x3c ∷ 0x3e ∷ []) c || in_c0 c

-- ? ` { }
in_path : ℕ → Bool
unfolding in_query
in_path c = one_of (0x3f ∷ 0x60 ∷ 0x7b ∷ 0x7d ∷ []) c || in_query c

-- / : ; = @ [ .. ^ |
in_userinfo : ℕ → Bool
unfolding in_path
in_userinfo c =
    one_of (0x2f ∷ 0x3a ∷ 0x3b ∷ 0x3d ∷ 0x40 ∷ []) c
    || (leb 0x5b c && leb c 0x5e)
    || c == 0x7c
    || in_path c

unfoldable pub percenc_contains : ℕ → PercencSet → Bool
unfolding in_c0 in_query in_path in_userinfo
percenc_contains c PercencSet.c0 = in_c0 c
percenc_contains c PercencSet.fragment = one_of (0x20 ∷ 0x22 ∷ 0x3c ∷ 0x3e ∷ 0x60 ∷ []) c || in_c0 c
percenc_contains c PercencSet.query = in_query c
percenc_contains c PercencSet.spec_query = c == 0x27 || in_query c
percenc_contains c PercencSet.path = in_path c
percenc_contains c PercencSet.userinfo = in_userinfo c
percenc_contains c PercencSet.component =
    (leb 0x24 c && leb c 0x26) || c == 0x2b || c == 0x2c || in_userinfo c

-- one digit of `%02x`
unfoldable pub hex_digit : ℕ → ℕ
hex_digit n = if ltb n 10 then b'0' + n else b'a' + n - 10

-- `"%%%02x"` of a byte
unfoldable pub percent_bytes : ℕ → List ℕ
unfolding hex_digit
percent_bytes c = b'%' ∷ hex_digit (c / 16) ∷ hex_digit (c % 16) ∷ []

unfoldable pub percent_encode : Room → ℕ → Buffer → PercencSet → Buffer × Report
percent_encode room c buf set =
    if percenc_contains c set then append_bytes room buf (percent_bytes c) else push room buf c
