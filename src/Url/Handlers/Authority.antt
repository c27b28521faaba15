-- ===== src/Url/Handlers/Authority.antt =====
-- a.yanin/waxy/src/url.c: user information, host and port.
use posix_threads.Common.{
  ℕ, ◌+◌, ◌-◌, ◌*◌, ◌%◌, ◌^◌, List, [], ◌∷◌, Bool, true, false, not, ◌&&◌, ◌||◌, ltb, ◌==◌,
  if◌then◌else◌, length, min,
}
use posix_threads.Buffer.{
  Room, Problem, Report, null, message, is_null, error_combine, push, append_bytes, pop_many,
}
use posix_threads.Url.Chars.{is_ascii_digit, meets, is_char, is_none, byte}
use posix_threads.Url.Percent.{PercencSet, percent_encode}
use posix_threads.Url.State.{
  region_bytes, Parser, ParserState, parser_c, parser_buf, buf_len, buf_bytes, sliced, emit,
  failing, dec, sub64,
}

-- the test that ends the authority, the host and the port
abbrev pub ends_authority : Parser → Bool
ends_authority p =
    let c = parser_c p in
    is_none c || is_char b'/' c || is_char b'?' c || is_char b'#' c || (p.special && is_char 0x5c c)

-- `strtoll` of digits, which is all that the port state puts in the buffer
unfoldable pub digits_value : ℕ → List ℕ → ℕ
digits_value n [] = n
digits_value n (c ∷ cs) = digits_value (n * 10 + (c - b'0')) cs

-- The value saturates, and the end pointer still reaches the end of the text.
unfoldable pub parse_integer : List ℕ → ℕ
unfolding digits_value
parse_integer cs = min (digits_value 0 cs) (2 ^ 63 - 1)

-- `host = slice; host_null = false;`
unfoldable pub cut_host : Parser → Parser
cut_host p = record (sliced p) {
  result = record p.result { host = parser_buf p; host_null = false };
}

module _ (room : Room) (joined : Bool) where
  -- One round of the loop over the user information, for the byte `c`; `none` stands for a failure,
  -- whose error comes with the parser.
  unfoldable pub userinfo_char : Parser → ℕ → Parser × Report
  userinfo_char p c =
      if c == b':' && not p.password_token_seen
      then (
        record p {
          password_token_seen = true;
          result = record p.result {
            password = record { start = length p.buf; len = p.result.password.len };
          };
        },
        null,
      )
      else (let (buf, e) = percent_encode room c p.buf PercencSet.userinfo in
          let r = p.result in
          if not (is_null e)
          then failing (record p { buf = buf }) e
          else if p.password_token_seen
          then (
            record p {
              buf = buf;
              result = record r {
                password = record { start = r.password.start; len = r.password.len + 1 };
              };
            },
            null,
          )
          else (
            record p {
              buf = buf;
              result = record r {
                username = record { start = r.username.start; len = r.username.len + 1 };
              };
            },
            null,
          ))

  -- The loop reads the bytes of the region that was cut off, which later pushes leave in place.
  unfoldable pub userinfo_loop : List ℕ → Parser → Parser × Report
  userinfo_loop [] p = (p, null)
  userinfo_loop (c ∷ cs) p =
      let r = userinfo_char p c in
      let rest = userinfo_loop cs r.0 in if is_null r.1 then rest else r

  -- the branch at `@`, after the text for a second `@` has been added
  unfoldable pub cut_userinfo : Parser → Parser × Report
  cut_userinfo p =
      let cut = parser_buf p in
      let r = p.result in
      let q = record (sliced p) {
        at_sign_seen = true;
        result = record r { username = record { start = cut.len; len = r.username.len } };
      } in
      let (u, e) = userinfo_loop (region_bytes p.buf cut) q in
      if is_null e
      then (u, message Problem.at_sign)
      else (u, error_combine joined e (message Problem.at_sign))

  unfoldable pub parse_auth : Parser → Parser × Report
  parse_auth p =
      let c = parser_c p in
      if is_char b'@' c
      then (if p.at_sign_seen
          then (let (buf, e) = append_bytes room p.buf (b'%' ∷ b'4' ∷ b'0' ∷ []) in
              if is_null e
              then cut_userinfo (record p { buf = buf })
              else failing (record p { buf = buf })
                  (error_combine joined e (message Problem.at_sign)))
          else cut_userinfo p)
      else if ends_authority p
      then (if p.at_sign_seen && buf_len p == 0
          then failing p (message Problem.no_hostname)
          else (let n = buf_len p in
              let kept = pop_many n p.buf in
              (
                record p {
                  buf = kept;
                  slice_start = length kept;
                  pos = sub64 p.pos (n + 1);
                  state = ParserState.host;
                },
                null,
              )))
      else emit p ParserState.auth (push room p.buf (byte c))

  unfoldable pub parse_host : Parser → Parser × Report
  unfolding cut_host
  parse_host p =
      let c = parser_c p in
      if is_char b':' c && not p.inside_brackets
      then (if buf_len p == 0
          then failing p (message Problem.empty_hostname)
          else (record (cut_host p) { state = ParserState.port }, null))
      else if ends_authority p
      then (if p.special && buf_len p == 0
          then failing (record p { pos = dec p.pos }) (message Problem.empty_hostname)
          else (record (cut_host p) { pos = dec p.pos; state = ParserState.path }, null))
      else emit
          (record p {
            inside_brackets = (p.inside_brackets || is_char b'[' c) && not (is_char b']' c);
          })
          ParserState.host (push room p.buf (byte c))

  unfoldable pub parse_port : Parser → Parser × Report
  parse_port p =
      let c = parser_c p in
      if meets is_ascii_digit c
      then emit p ParserState.port (push room p.buf (byte c))
      else if ends_authority p
      then (if buf_len p == 0
          then (record p { pos = dec p.pos; state = ParserState.path_start }, null)
          else (let port = parse_integer (buf_bytes p) in
              if ltb 65535 port then failing (sliced p) (message Problem.high_port) else (
                record (sliced p) {
                  result = record p.result { port = port % 2 ^ 16; port_null = false };
                  pos = dec p.pos;
                  state = ParserState.path_start;
                },
                null,
              )))
      else failing p (message Problem.port_characters)
