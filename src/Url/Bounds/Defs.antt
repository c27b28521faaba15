-- ===== src/Url/Bounds/Defs.antt =====
-- The invariant of the parser's buffer and regions.
use posix_threads.Common.{ℕ, ◌+◌, ◌^◌, ◌≤◌, ◌<◌, ◌≡◌, length, arith}
use posix_threads.Buffer.{Room, Buffer}
use posix_threads.Buffer.Laws.{IsBounded, Grows, push-Grows, append_bytes-Grows}
use posix_threads.Url.Percent.{PercencSet, percent_bytes, percent_encode}
use posix_threads.Url.State.{Region, Parser, ParserState}

abbrev pub region_end : Region → ℕ
region_end r = r.start + r.len

-- Nothing is cut off before the scheme, and the buffer may still be cleared.
abbrev pub IsFresh : ParserState → ℕ → Type 0
IsFresh ParserState.scheme_start n = n ≡ 0
IsFresh ParserState.scheme n = n ≡ 0
IsFresh _ n = Unit

-- The user information is left out: its regions may lie outside.
pub record InBounds (p : Parser) : Type 0 where
  pub cut : p.slice_start ≤ length p.buf
  pub small : length p.buf < 2 ^ 63
  pub fresh : IsFresh p.state p.slice_start
  pub scheme : region_end p.result.scheme ≤ p.slice_start
  pub host : region_end p.result.host ≤ p.slice_start
  pub path : region_end p.result.path ≤ p.slice_start
  pub query : region_end p.result.query ≤ p.slice_start
  pub fragment : region_end p.result.fragment ≤ p.slice_start

module _ (room : Room) (bounded : IsBounded room) where
  pub percent_encode-Grows :
      (c : ℕ) (s : Buffer) (which : PercencSet)
      → length s < 2 ^ 63
      → Grows s (percent_encode room c s which).0
  unfolding percent_encode
  percent_encode-Grows c s which small =
      ground
        (arith, push-Grows room bounded s c, append_bytes-Grows room bounded s (percent_bytes c))
