-- ===== src/Url/Bounds/Scheme.antt =====
-- The states up to the authority keep the regions in the buffer.
use posix_threads.Common.{◌≡◌, arith}
use posix_threads.Buffer.{Room}
use posix_threads.Buffer.Laws.{IsBounded, push-Grows}
use posix_threads.Url.Chars.{tolower, byte}
use posix_threads.Url.State.{Parser, ParserState, parser_c}
use posix_threads.Url.Bounds.Defs.{InBounds}
use posix_threads.Url.Handlers.Scheme.{
  parse_scheme_start, parse_scheme, parse_no_scheme, parse_path_or_auth, parse_spec_auth_slash,
  parse_spec_auth_ignore_slash,
}

module _ (room : Room) (bounded : IsBounded room) (p : Parser) (h : InBounds p) where
  pub scheme_start-InBounds :
      p.state ≡ ParserState.scheme_start → InBounds (parse_scheme_start room p).0
  unfolding parse_scheme_start
  scheme_start-InBounds st =
      ground (arith, push-Grows room bounded p.buf (tolower (byte (parser_c p))))

  pub scheme-InBounds : p.state ≡ ParserState.scheme → InBounds (parse_scheme room p).0
  unfolding parse_scheme
  scheme-InBounds st = ground (arith, push-Grows room bounded p.buf (tolower (byte (parser_c p))))

  pub no_scheme-InBounds : InBounds (parse_no_scheme room p).0
  unfolding parse_no_scheme
  no_scheme-InBounds = ground arith

  pub path_or_auth-InBounds : InBounds (parse_path_or_auth room p).0
  unfolding parse_path_or_auth
  path_or_auth-InBounds = ground arith

  pub spec_auth_slash-InBounds : InBounds (parse_spec_auth_slash room p).0
  unfolding parse_spec_auth_slash
  spec_auth_slash-InBounds = ground arith

  pub ignore_slash-InBounds : InBounds (parse_spec_auth_ignore_slash room p).0
  unfolding parse_spec_auth_ignore_slash
  ignore_slash-InBounds = ground arith
