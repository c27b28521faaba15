-- ===== src/Url/Handlers/Scheme.antt =====
-- a.yanin/waxy/src/url.c: the states up to the authority.
use posix_threads.Common.{[], ◌∷◌, not, ◌&&◌, ◌||◌, ◌==◌, if◌then◌else◌}
use posix_threads.Buffer.{Room, Problem, Report, null, message, push}
use posix_threads.Url.Chars.{is_ascii_alpha, is_ascii_alphanum, tolower, meets, is_char, byte}
use posix_threads.Url.State.{
  Parser, ParserState, parser_c, parser_buf, sliced, emit, inc, dec, scheme_is_file,
  parser_is_special, rem_starts_with,
}

-- the branch at `:`, once the scheme has been cut off
unfoldable pub after_scheme : Parser → Parser × Report
after_scheme p =
    if scheme_is_file p
    then (
      record p { state = ParserState.file },
      if rem_starts_with p (b'/' ∷ b'/' ∷ []) then null else message Problem.file_slashes,
    )
    else if p.special
    then (record p { state = ParserState.spec_auth_slash }, null)
    else if rem_starts_with p (b'/' ∷ [])
    then (record p { state = ParserState.path_or_auth; pos = inc p.pos }, null)
    else (record p { state = ParserState.opaque_path }, null)

-- `self->special` is a `bool`: any answer but 0 is true.
unfoldable pub cut_scheme : Parser → Parser
cut_scheme p =
    let q = record (sliced p) { result = record p.result { scheme = parser_buf p } } in
    record q { special = not (parser_is_special q == 0) }

module _ (room : Room) where
  unfoldable pub parse_scheme_start : Parser → Parser × Report
  parse_scheme_start p =
      let c = parser_c p in
      if meets is_ascii_alpha c
      then emit p ParserState.scheme (push room p.buf (tolower (byte c)))
      else (record p { state = ParserState.no_scheme; pos = dec p.pos }, null)

  unfoldable pub parse_scheme : Parser → Parser × Report
  unfolding after_scheme cut_scheme
  parse_scheme p =
      let c = parser_c p in
      if meets is_ascii_alphanum c || is_char b'+' c || is_char b'-' c || is_char b'.' c
      then emit p ParserState.scheme (push room p.buf (tolower (byte c)))
      else if is_char b':' c
      then after_scheme (cut_scheme p)
      else (record p { buf = []; state = ParserState.no_scheme; pos = 0 }, null)

  unfoldable pub parse_no_scheme : Parser → Parser × Report
  parse_no_scheme p = (record p { state = ParserState.fail }, message Problem.no_scheme)

  unfoldable pub parse_path_or_auth : Parser → Parser × Report
  parse_path_or_auth p =
      if is_char b'/' (parser_c p)
      then (record p { state = ParserState.auth }, null)
      else (record p { state = ParserState.path; pos = dec p.pos }, null)

  unfoldable pub parse_spec_auth_slash : Parser → Parser × Report
  parse_spec_auth_slash p =
      if is_char b'/' (parser_c p) && rem_starts_with p (b'/' ∷ [])
      then (record p { state = ParserState.spec_auth_ignore_slash; pos = inc p.pos }, null)
      else (
        record p { state = ParserState.spec_auth_ignore_slash; pos = dec p.pos },
        message Problem.special_slashes,
      )

  unfoldable pub parse_spec_auth_ignore_slash : Parser → Parser × Report
  parse_spec_auth_ignore_slash p =
      let c = parser_c p in
      if not (is_char b'/' c) && not (is_char 0x5c c)
      then (record p { state = ParserState.auth; pos = dec p.pos }, null)
      else (p, message Problem.extra_slash)
