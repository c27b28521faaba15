-- ===== src/Url/Progress/Paths.antt =====
-- Progress of path, query and fragment.
use posix_threads.Common.{◌≡◌, Bool, arith}
use posix_threads.Buffer.{Room}
use posix_threads.Url.State.{Parser, ParserState}
use posix_threads.Url.Progress.Defs.{Moves}
use posix_threads.Url.Handlers.Paths.{
  encode_char, parse_path_start, end_segment, parse_path, parse_opaque_path, parse_query,
  parse_fragment,
}

module _ (room : Room) (joined : Bool) (p : Parser) where
  pub path_start-Moves :
      p.state ≡ ParserState.path_start → Moves 5 p (parse_path_start room joined p).0
  unfolding parse_path_start
  path_start-Moves st = ground arith

  end_segment-Moves : p.state ≡ ParserState.path → Moves 4 p (end_segment room joined p).0
  unfolding end_segment
  end_segment-Moves st = ground arith

  pub path-Moves : p.state ≡ ParserState.path → Moves 4 p (parse_path room joined p).0
  unfolding parse_path encode_char
  path-Moves st = ground (arith, end_segment-Moves st)

  pub opaque_path-Moves :
      p.state ≡ ParserState.opaque_path → Moves 3 p (parse_opaque_path room joined p).0
  unfolding parse_opaque_path encode_char
  opaque_path-Moves st = ground arith

  pub query-Moves : p.state ≡ ParserState.query → Moves 2 p (parse_query room joined p).0
  unfolding parse_query encode_char
  query-Moves st = ground arith

  pub fragment-Moves : p.state ≡ ParserState.fragment → Moves 1 p (parse_fragment room joined p).0
  unfolding parse_fragment encode_char
  fragment-Moves st = ground arith
