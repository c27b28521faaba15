-- ===== src/Url/Parse.antt =====
-- a.yanin/waxy/src/url.c: the loop of `url_parse`. It takes fuel, one unit for each round.
use posix_threads.Common.{
  ℕ, zero, suc, ◌+◌, ◌-◌, ◌*◌, ◌^◌, List, [], Option, none, some, Bool, true, false, length,
}
use posix_threads.Buffer.{Room, Buffer, Report, error_combine, from_slice, message, Problem}
use posix_threads.Url.State.{region_empty, UrlRegion, Parser, ParserState, is_eof, inc}
use posix_threads.Url.Input.{url_remove_trailing, url_remove_tab_nl}
use posix_threads.Url.Handlers.Scheme.{
  parse_scheme_start, parse_scheme, parse_no_scheme, parse_path_or_auth, parse_spec_auth_slash,
  parse_spec_auth_ignore_slash,
}
use posix_threads.Url.Handlers.Authority.{parse_auth, parse_host, parse_port}
use posix_threads.Url.Handlers.Files.{parse_file, parse_file_slash, parse_file_host}
use posix_threads.Url.Handlers.Paths.{
  parse_path_start, parse_path, parse_opaque_path, parse_query, parse_fragment,
}

abbrev pub empty_result : UrlRegion
empty_result = record {
  scheme = region_empty;
  username = region_empty;
  password = region_empty;
  host = region_empty;
  path = region_empty;
  query = region_empty;
  fragment = region_empty;
  port = 0;
  host_null = true;
  port_null = true;
  query_null = true;
  fragment_null = true;
}

abbrev pub start_parser : List ℕ → Parser
start_parser input = record {
  result = empty_result;
  input = input;
  buf = [];
  slice_start = 0;
  pos = 2 ^ 64 - 1;
  state = ParserState.scheme_start;
  at_sign_seen = false;
  inside_brackets = false;
  password_token_seen = false;
  special = false;
}

-- How the loop ends: at the end of the input, or by the jump of `STATE_FAIL`.
pub data Ending : Type 0 where
  finished : Parser → Report → Ending
  failed : Report → Ending

-- `url_t`: the buffer, and the slices as regions of it
pub record Url : Type 0 where
  pub buf : Buffer
  pub regions : UrlRegion

-- What `url_parse` leaves: a URL with `*fatal == false`, or `*fatal == true`; and the error.
pub record Parsed : Type 0 where
  pub url : Option Url
  pub error : Report

abbrev pub advance : Parser → Parser
advance p = record p { pos = inc p.pos }

-- `*result` is written, and `*fatal` cleared, only behind the loop.
unfoldable pub answer : Ending → Parsed
answer (finished p err) = record {
  url = some (record { buf = p.buf; regions = p.result });
  error = err;
}
answer (failed err) = record { url = none; error = err }

-- Rounds enough for an input of so many characters: see `Url.Termination`.
abbrev pub fuel_for : ℕ → ℕ
fuel_for n = 18 * (n + 2)

module _ (room : Room) (joined : Bool) where
  -- the `switch`; `none` is the jump out of the loop
  unfoldable pub dispatch : ParserState → Parser → Option (Parser × Report)
  dispatch ParserState.scheme_start p = some (parse_scheme_start room p)
  dispatch ParserState.scheme p = some (parse_scheme room p)
  dispatch ParserState.no_scheme p = some (parse_no_scheme room p)
  dispatch ParserState.path_or_auth p = some (parse_path_or_auth room p)
  dispatch ParserState.spec_auth_slash p = some (parse_spec_auth_slash room p)
  dispatch ParserState.spec_auth_ignore_slash p = some (parse_spec_auth_ignore_slash room p)
  dispatch ParserState.auth p = some (parse_auth room joined p)
  dispatch ParserState.host p = some (parse_host room joined p)
  dispatch ParserState.port p = some (parse_port room joined p)
  dispatch ParserState.file p = some (parse_file room p)
  dispatch ParserState.file_slash p = some (parse_file_slash room p)
  dispatch ParserState.file_host p = some (parse_file_host room p)
  dispatch ParserState.path_start p = some (parse_path_start room joined p)
  dispatch ParserState.path p = some (parse_path room joined p)
  dispatch ParserState.opaque_path p = some (parse_opaque_path room joined p)
  dispatch ParserState.query p = some (parse_query room joined p)
  dispatch ParserState.fragment p = some (parse_fragment room joined p)
  dispatch ParserState.fail p = none

  -- one round of the loop, without its test
  unfoldable pub round : Parser → Option (Parser × Report)
  unfolding dispatch
  round p = dispatch p.state (advance p)

  unfoldable pub run : ℕ → Parser → Report → Option Ending
  unfolding round
  run zero p err = none
  run (suc fuel) p err = elim (round p) [
    | none ↦ some (failed err)
    | some (q, e) ↦
        let err' = error_combine joined err e in
        elim (is_eof q) [ true ↦ some (finished q err') | false ↦ run fuel q err' ]
  ]

  -- the part of `url_parse` behind the two allocations
  unfoldable pub parse_input : List ℕ → Option Parsed
  unfolding run answer
  parse_input text =
      let (trimmed, e₁) = url_remove_trailing joined text in
      let (input, e₂) = url_remove_tab_nl trimmed in
      let err = error_combine joined e₁ e₂ in
      elim (run (fuel_for (length input)) (start_parser input) err) [
        | none ↦ none
        | some ending ↦ some (answer ending)
      ]

  -- `url_parse`: `none` would mean that the fuel ran out. Both copies must be allocated first.
  unfoldable pub url_parse : List ℕ → Option Parsed
  unfolding parse_input
  url_parse slice = elim (from_slice room slice) [
    | none ↦ some (record { url = none; error = message Problem.out_of_memory })
    | some input ↦ elim (room 0 0) [
      | false ↦ some (record { url = none; error = message Problem.out_of_memory })
      | true ↦ parse_input input
    ]
  ]
