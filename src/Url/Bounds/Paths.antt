-- ===== src/Url/Bounds/Paths.antt =====
-- Path, query and fragment keep the regions in the buffer.
use posix_threads.Common.{◌-◌, ◌≡◌, Bool, length, length-set, arith}
use posix_threads.Buffer.{Room}
use posix_threads.Buffer.Laws.{IsBounded, Grows, push-Grows}
use posix_threads.Url.Chars.{byte}
use posix_threads.Url.Percent.{PercencSet, percent_encode}
use posix_threads.Url.State.{Parser, ParserState, parser_c}
use posix_threads.Url.Bounds.Defs.{InBounds, percent_encode-Grows}
use posix_threads.Url.Handlers.Paths.{
  encode_char, query_set, parse_path_start, fix_drive, end_segment, parse_path, parse_opaque_path,
  parse_query, parse_fragment,
}

module _ (room : Room) (bounded : IsBounded room) (joined : Bool) (p : Parser)
    (h : InBounds p) where
  pub path_start-InBounds :
      p.state ≡ ParserState.path_start → InBounds (parse_path_start room joined p).0
  unfolding parse_path_start
  path_start-InBounds st = ground arith

  end_segment-InBounds : p.state ≡ ParserState.path → InBounds (end_segment room joined p).0
  unfolding end_segment
  end_segment-InBounds st = ground (
    arith,
    push-Grows room bounded (fix_drive p).buf (byte (parser_c p)),
    length-set p.buf (length p.buf - 1) b':',
  )

  encoded :
      (which : PercencSet) → Grows p.buf (percent_encode room (byte (parser_c p)) p.buf which).0
  encoded which = percent_encode-Grows room bounded (byte (parser_c p)) p.buf which h.small

  pub path-InBounds : p.state ≡ ParserState.path → InBounds (parse_path room joined p).0
  unfolding parse_path encode_char
  path-InBounds st = ground (arith, end_segment-InBounds st, encoded PercencSet.path)

  pub opaque_path-InBounds :
      p.state ≡ ParserState.opaque_path → InBounds (parse_opaque_path room joined p).0
  unfolding parse_opaque_path encode_char
  opaque_path-InBounds st = ground (arith, encoded PercencSet.c0)

  pub query-InBounds : p.state ≡ ParserState.query → InBounds (parse_query room joined p).0
  unfolding parse_query encode_char
  query-InBounds st = ground (arith, encoded (query_set p))

  pub fragment-InBounds : p.state ≡ ParserState.fragment → InBounds (parse_fragment room joined p).0
  unfolding parse_fragment encode_char
  fragment-InBounds st = ground (arith, encoded PercencSet.fragment)
