-- ===== src/Url/Progress/Scheme.antt =====
-- Progress of the states up to the authority.
use posix_threads.Common.{◌≡◌, arith}
use posix_threads.Buffer.{Room}
use posix_threads.Url.State.{Parser, ParserState}
use posix_threads.Url.Progress.Defs.{Moves}
use posix_threads.Url.Handlers.Scheme.{
  parse_scheme_start, parse_scheme, parse_no_scheme, parse_path_or_auth, parse_spec_auth_slash,
  parse_spec_auth_ignore_slash,
}

module _ (room : Room) (p : Parser) where
  pub scheme_start-Moves : Moves 17 p (parse_scheme_start room p).0
  unfolding parse_scheme_start
  scheme_start-Moves = ground arith

  pub scheme-Moves : p.state ≡ ParserState.scheme → Moves 16 p (parse_scheme room p).0
  unfolding parse_scheme
  scheme-Moves st = ground arith

  pub no_scheme-Moves : Moves 15 p (parse_no_scheme room p).0
  unfolding parse_no_scheme
  no_scheme-Moves = ground arith

  pub path_or_auth-Moves : Moves 14 p (parse_path_or_auth room p).0
  unfolding parse_path_or_auth
  path_or_auth-Moves = ground arith

  pub spec_auth_slash-Moves : Moves 13 p (parse_spec_auth_slash room p).0
  unfolding parse_spec_auth_slash
  spec_auth_slash-Moves = ground arith

  pub ignore_slash-Moves :
      p.state ≡ ParserState.spec_auth_ignore_slash
      → Moves 12 p (parse_spec_auth_ignore_slash room p).0
  unfolding parse_spec_auth_ignore_slash
  ignore_slash-Moves st = ground arith
