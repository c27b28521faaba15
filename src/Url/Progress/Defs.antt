-- ===== src/Url/Progress/Defs.antt =====
-- The order of the states that the parser goes through.
use posix_threads.Common.{ℕ, ◌≤◌, ◌≡◌}
use posix_threads.Url.State.{Parser, ParserState}

abbrev pub rank : ParserState → ℕ
rank ParserState.scheme_start = 17
rank ParserState.scheme = 16
rank ParserState.no_scheme = 15
rank ParserState.path_or_auth = 14
rank ParserState.spec_auth_slash = 13
rank ParserState.spec_auth_ignore_slash = 12
rank ParserState.auth = 11
rank ParserState.host = 10
rank ParserState.port = 9
rank ParserState.file = 8
rank ParserState.file_slash = 7
rank ParserState.file_host = 6
rank ParserState.path_start = 5
rank ParserState.path = 4
rank ParserState.opaque_path = 3
rank ParserState.query = 2
rank ParserState.fragment = 1
rank ParserState.fail = 0

-- A handler in the state of rank `k` took `p` to `q`.
pub record Moves (k : ℕ) (p q : Parser) : Type 0 where
  pub same_input : q.input ≡ p.input
  pub later : rank q.state ≤ k
  pub still : k ≤ rank q.state → q.pos ≡ p.pos
