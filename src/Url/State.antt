-- ===== src/Url/State.antt =====
-- a.yanin/waxy/src/url.c: the state of the parser, and its view of the input and of the buffer.
use posix_threads.Common.{
  ℕ, ◌+◌, ◌-◌, ◌^◌, List, [], ◌∷◌, ◌++◌, Option, none, Bool, true, false, ◌&&◌, leb, ◌==◌,
  if◌then◌else◌, length, take, drop, get_elem?,
}
use posix_threads.Buffer.{Buffer, Report, is_null}
use posix_threads.Vec.{u64}

pub record Region : Type 0 where
  pub start : ℕ
  pub len : ℕ

abbrev pub region_empty : Region
region_empty = record { start = 0; len = 0 }

-- `region_to_slice`, without its assertion on the length, and the bytes that the slice names
abbrev pub region_bytes : Buffer → Region → List ℕ
region_bytes buf r = take r.len (drop r.start buf)

-- `url_region_t`
pub record UrlRegion : Type 0 where
  pub scheme : Region
  pub username : Region
  pub password : Region
  pub host : Region
  pub path : Region
  pub query : Region
  pub fragment : Region
  pub port : ℕ
  pub host_null : Bool
  pub port_null : Bool
  pub query_null : Bool
  pub fragment_null : Bool

pub data ParserState : Type 0 where
  scheme_start : ParserState
  scheme : ParserState
  no_scheme : ParserState
  path_or_auth : ParserState
  spec_auth_slash : ParserState
  spec_auth_ignore_slash : ParserState
  auth : ParserState
  host : ParserState
  port : ParserState
  file : ParserState
  file_slash : ParserState
  file_host : ParserState
  path_start : ParserState
  path : ParserState
  opaque_path : ParserState
  query : ParserState
  fragment : ParserState
  fail : ParserState

-- `url_parser_t`; `input` is the text after `url_remove_trailing` and `url_remove_tab_nl`.
pub record Parser : Type 0 where
  pub result : UrlRegion
  pub input : List ℕ
  pub buf : Buffer
  pub slice_start : ℕ
  pub pos : ℕ
  pub state : ParserState
  pub at_sign_seen : Bool
  pub inside_brackets : Bool
  pub password_token_seen : Bool
  pub special : Bool

-- `++` and `--` on a `size_t`, and a subtraction
abbrev pub inc : ℕ → ℕ
inc n = u64 (n + 1)

abbrev pub sub64 : ℕ → ℕ → ℕ
sub64 n k = u64 (n + 2 ^ 64 - u64 k)

abbrev pub dec : ℕ → ℕ
dec n = sub64 n 1

abbrev pub is_eof : Parser → Bool
is_eof p = leb (length p.input) p.pos

-- `url_parser_c`
abbrev pub parser_c : Parser → Option ℕ
parser_c p = if is_eof p then none else get_elem? p.input p.pos

-- `url_parser_buf_len`
abbrev pub buf_len : Parser → ℕ
buf_len p = sub64 (length p.buf) p.slice_start

-- `url_parser_buf`, as a region of the buffer, without its assertion that the start is not past the end
abbrev pub parser_buf : Parser → Region
parser_buf p = record { start = p.slice_start; len = buf_len p }

abbrev pub buf_bytes : Parser → List ℕ
buf_bytes p = region_bytes p.buf (parser_buf p)

-- `url_parser_slice`: the region is that of `parser_buf`.
abbrev pub sliced : Parser → Parser
sliced p = record p { slice_start = length p.buf }

-- `url_parser_remaining`: the slice begins one past the position and its length is counted from the
-- position, so its last byte is the terminator of the input.
unfoldable pub remaining : Parser → List ℕ
remaining p =
    if is_eof p then [] else take (length p.input - p.pos) (drop (p.pos + 1) (p.input ++ 0 ∷ []))

abbrev pub starts_with : List ℕ → List ℕ → Bool
starts_with [] s = true
starts_with (x ∷ xs) [] = false
starts_with (x ∷ xs) (y ∷ s) = x == y && starts_with xs s

unfoldable pub rem_starts_with : Parser → List ℕ → Bool
unfolding remaining
rem_starts_with p str = starts_with str (remaining p)

-- `slice_cmp(a, b) == 0`
abbrev pub same_bytes : List ℕ → List ℕ → Bool
same_bytes [] [] = true
same_bytes [] (y ∷ ys) = false
same_bytes (x ∷ xs) [] = false
same_bytes (x ∷ xs) (y ∷ ys) = x == y && same_bytes xs ys

abbrev pub scheme_bytes : Parser → List ℕ
scheme_bytes p = region_bytes p.buf p.result.scheme

abbrev pub file_name : List ℕ
file_name = b'f' ∷ b'i' ∷ b'l' ∷ b'e' ∷ []

abbrev pub scheme_is_file : Parser → Bool
scheme_is_file p = same_bytes (scheme_bytes p) file_name

abbrev pub http_name : List ℕ
http_name = b'h' ∷ b't' ∷ b't' ∷ b'p' ∷ []

-- The answer of the code is a `uint32_t`, so its -1 and -2 are 2^32 - 1 and 2^32 - 2.
unfoldable pub parser_is_special : Parser → ℕ
parser_is_special p =
    let name = scheme_bytes p in
    if same_bytes name (b'f' ∷ b't' ∷ b'p' ∷ [])
    then 21
    else if same_bytes name file_name
    then 2 ^ 32 - 1
    else if same_bytes name http_name
    then 80
    else if same_bytes name (http_name ++ b's' ∷ [])
    then 443
    else if same_bytes name (b'w' ∷ b's' ∷ [])
    then 80
    else if same_bytes name (b'w' ∷ b's' ∷ b's' ∷ [])
    then 443
    else 2 ^ 32 - 2

-- The end of a handler that grew the buffer: it goes to `STATE_FAIL` if that failed.
abbrev pub emit : Parser → ParserState → Buffer × Report → Parser × Report
emit p next (buf, e) =
    if is_null e
    then (record p { buf = buf; state = next }, e)
    else (record p { buf = buf; state = ParserState.fail }, e)

-- `self->state = STATE_FAIL; goto fail;`
abbrev pub failing : Parser → Report → Parser × Report
failing p e = (record p { state = ParserState.fail }, e)
