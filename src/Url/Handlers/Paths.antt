-- ===== src/Url/Handlers/Paths.antt =====
-- a.yanin/waxy/src/url.c: path, query and fragment.
use posix_threads.Common.{
  ℕ, ◌+◌, ◌-◌, Bool, false, not, ◌&&◌, ◌||◌, ltb, ◌==◌, if◌then◌else◌, length, set,
}
use posix_threads.Buffer.{Room, Problem, Report, null, message, is_null, error_combine, push}
use posix_threads.Url.Chars.{
  is_url_ascii, is_windows_drive_letter, is_invalid_percent_escape, meets, is_char, is_none, byte,
}
use posix_threads.Url.Percent.{PercencSet, percent_encode}
use posix_threads.Url.State.{
  region_empty, Parser, ParserState, parser_c, parser_buf, buf_len, buf_bytes, sliced, remaining,
  failing, dec, scheme_is_file,
}

-- `query = region_empty(); query_null = false; state = STATE_QUERY;`
abbrev pub to_query : Parser → Parser
to_query p = record p {
  result = record p.result { query = region_empty; query_null = false };
  state = ParserState.query;
}

-- the same for the fragment
abbrev pub to_fragment : Parser → Parser
to_fragment p = record p {
  result = record p.result { fragment = region_empty; fragment_null = false };
  state = ParserState.fragment;
}

-- `path = slice;`
abbrev pub cut_path : Parser → Parser
cut_path p = record (sliced p) { result = record p.result { path = parser_buf p } }

-- The characters that are remarked upon in the path, in an opaque path, and in query and fragment.
unfoldable pub illegal_in_path : ℕ → Bool
illegal_in_path b = not (is_url_ascii b) && ltb b 0x80

unfoldable pub illegal_in_opaque_path : ℕ → Bool
unfolding illegal_in_path
illegal_in_opaque_path b = illegal_in_path b && not (b == b'%')

unfoldable pub illegal_in_query : ℕ → Bool
illegal_in_query b = not (is_url_ascii b) && not (b == b'%')

-- The error on the next character: of the two tests the second replaces the answer of the first.
unfoldable pub remark : Parser → (ℕ → Bool) → Problem → Report
remark p illegal problem =
    if is_char b'%' (parser_c p) && is_invalid_percent_escape (remaining p)
    then message Problem.percent_escape
    else if meets illegal (parser_c p)
    then message problem
    else null

abbrev pub path_remark : Parser → Report
path_remark p = remark p illegal_in_path Problem.path_character

abbrev pub opaque_path_remark : Parser → Report
opaque_path_remark p = remark p illegal_in_opaque_path Problem.path_character

abbrev pub query_remark : Parser → Report
query_remark p = remark p illegal_in_query Problem.query_character

abbrev pub fragment_remark : Parser → Report
fragment_remark p = remark p illegal_in_query Problem.fragment_character

abbrev pub query_set : Parser → PercencSet
query_set p = if p.special then PercencSet.spec_query else PercencSet.query

-- `path = buf` for the first segment, `path.len += buf.len` for a later one
unfoldable pub grow_path : Parser → Parser
grow_path p =
    let r = p.result in
    record (sliced p) {
      result = record r {
        path =
            if r.path.len == 0
            then parser_buf p
            else record { start = r.path.start; len = r.path.len + buf_len p };
      };
    }

-- the `|` of a drive letter becomes `:`
unfoldable pub fix_drive : Parser → Parser
fix_drive p =
    if scheme_is_file p && p.result.path.len == 0 && is_windows_drive_letter (buf_bytes p)
    then record p { buf = set p.buf (length p.buf - 1) b':' }
    else p

-- `query = slice; query_null = false;`
abbrev cut_query : Parser → Parser
cut_query p = record (sliced p) {
  result = record p.result { query = parser_buf p; query_null = false };
}

module _ (room : Room) (joined : Bool) where
  -- The end of a handler that encodes a character: on failure the error is joined to the remark.
  unfoldable pub encode_char : Parser → PercencSet → Report → Parser × Report
  encode_char p which err =
      let (buf, e) = percent_encode room (byte (parser_c p)) p.buf which in
      if is_null e
      then (record p { buf = buf }, err)
      else failing (record p { buf = buf }) (error_combine joined e err)

  unfoldable pub parse_path_start : Parser → Parser × Report
  parse_path_start p =
      let c = parser_c p in
      let slash = is_char b'/' c in
      let back = is_char 0x5c c in
      if p.special
      then (
        record p { state = ParserState.path; pos = if slash || back then p.pos else dec p.pos },
        if back then message Problem.backslash else null,
      )
      else if is_char b'?' c
      then (to_query p, null)
      else if is_char b'#' c
      then (to_fragment p, null)
      else if is_none c
      then (p, null)
      else (record p { state = ParserState.path; pos = if slash then p.pos else dec p.pos }, null)

  -- the branch at the end of a segment
  unfoldable pub end_segment : Parser → Parser × Report
  unfolding grow_path fix_drive
  end_segment p =
      let c = parser_c p in
      let back = p.special && is_char 0x5c c in
      let err = if back then message Problem.backslash else null in
      let q = fix_drive p in
      let (buf, e) = if is_char b'/' c || back then push room q.buf (byte c) else (q.buf, null) in
      if is_null e
      then (let g = grow_path (record q { buf = buf }) in
          (if is_char b'?' c then to_query g else if is_char b'#' c then to_fragment g else g, err))
      else failing (record q { buf = buf }) (error_combine joined e err)

  unfoldable pub parse_path : Parser → Parser × Report
  parse_path p =
      let c = parser_c p in
      if is_none c
        || is_char b'/' c
        || (p.special && is_char 0x5c c)
        || is_char b'?' c
        || is_char b'#' c
      then end_segment p
      else encode_char p PercencSet.path (path_remark p)

  unfoldable pub parse_opaque_path : Parser → Parser × Report
  parse_opaque_path p =
      let c = parser_c p in
      if is_char b'?' c
      then (to_query (cut_path p), null)
      else if is_char b'#' c
      then (to_fragment (cut_path p), null)
      else if is_none c
      then (p, null)
      else encode_char p PercencSet.c0 (opaque_path_remark p)

  unfoldable pub parse_query : Parser → Parser × Report
  parse_query p =
      let c = parser_c p in
      if is_char b'#' c
      then (to_fragment (cut_query p), null)
      else if is_none c
      then (cut_query p, null)
      else encode_char p (query_set p) (query_remark p)

  unfoldable pub parse_fragment : Parser → Parser × Report
  parse_fragment p =
      let c = parser_c p in
      if is_none c
      then (
        record (sliced p) {
          result = record p.result { fragment = parser_buf p; fragment_null = false };
        },
        null,
      )
      else encode_char p PercencSet.fragment (fragment_remark p)
