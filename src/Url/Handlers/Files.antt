-- ===== src/Url/Handlers/Files.antt =====
-- a.yanin/waxy/src/url.c: the states of a `file:` URL.
use posix_threads.Common.{false, ◌||◌, ◌==◌, if◌then◌else◌}
use posix_threads.Buffer.{Room, Problem, Report, null, message, is_null, push, append_bytes}
use posix_threads.Url.Chars.{is_windows_drive_letter, is_char, is_none, byte}
use posix_threads.Url.State.{
  region_empty, Parser, ParserState, parser_c, parser_buf, buf_len, buf_bytes, sliced, emit,
  failing, dec, scheme_is_file, file_name,
}

-- `host = region_empty(); host_null = false;`
abbrev pub empty_host : Parser → Parser
empty_host p = record p { result = record p.result { host = region_empty; host_null = false } }

-- the part of the handler after the scheme has been seen to
unfoldable pub file_branch : Parser → Parser × Report
file_branch p =
    let q = empty_host p in
    let c = parser_c q in
    if is_char 0x5c c
    then failing q (message Problem.file_backslash)
    else if is_char b'/' c
    then (record q { state = ParserState.file_slash }, null)
    else (record q { pos = dec p.pos; state = ParserState.path }, null)

module _ (room : Room) where
  unfoldable pub parse_file : Parser → Parser × Report
  unfolding file_branch
  parse_file p =
      if scheme_is_file p
      then file_branch p
      else (let (buf, e) = append_bytes room p.buf file_name in
          let q = record p { buf = buf } in
          if is_null e
          then file_branch
              (record (sliced q) { result = record p.result { scheme = parser_buf q } })
          else failing q e)

  unfoldable pub parse_file_slash : Parser → Parser × Report
  parse_file_slash p =
      let c = parser_c p in
      if is_char 0x5c c
      then failing p (message Problem.file_backslash)
      else if is_char b'/' c
      then (record p { state = ParserState.file_host }, null)
      else (record p { state = ParserState.path; pos = dec p.pos }, null)

  unfoldable pub parse_file_host : Parser → Parser × Report
  parse_file_host p =
      let c = parser_c p in
      if is_none c || is_char b'/' c || is_char 0x5c c || is_char b'?' c || is_char b'#' c
      then (if is_windows_drive_letter (buf_bytes p)
          then (
            record p { pos = dec p.pos; state = ParserState.path },
            message Problem.drive_letter,
          )
          else if buf_len p == 0
          then (record (empty_host p) { pos = dec p.pos; state = ParserState.path_start }, null)
          else (
            record (sliced p) {
              result = record p.result { host = parser_buf p; host_null = false };
              pos = dec p.pos;
              state = ParserState.path_start;
            },
            null,
          ))
      else emit p ParserState.file_host (push room p.buf (byte c))
