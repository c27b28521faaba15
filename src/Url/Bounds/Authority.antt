-- ===== src/Url/Bounds/Authority.antt =====
-- User information, host, port and the `file:` states keep the regions in the buffer.
use posix_threads.Common.{ℕ, ◌-◌, ◌≡◌, List, [], ◌∷◌, Bool, true, length, length-take, arith}
use posix_threads.Buffer.{Room, append_bytes, is_null}
use posix_threads.Buffer.Laws.{IsBounded, push-Grows, append_bytes-Grows, pop_many-eq-take}
use posix_threads.Url.Chars.{byte}
use posix_threads.Url.Percent.{PercencSet}
use posix_threads.Url.State.{
  Parser, ParserState, parser_c, parser_buf, sliced, region_bytes, buf_len, file_name,
}
use posix_threads.Url.Bounds.Defs.{InBounds, percent_encode-Grows}
use posix_threads.Url.Handlers.Authority.{
  userinfo_char, userinfo_loop, cut_userinfo, parse_auth, parse_host, parse_port,
}
use posix_threads.Url.Handlers.Files.{file_branch, parse_file, parse_file_slash, parse_file_host}

module _ (room : Room) (bounded : IsBounded room) where
  module _ (joined : Bool) where
    userinfo_char-InBounds :
        (p : Parser) (c : ℕ)
        → InBounds p
        → p.state ≡ ParserState.auth
        → InBounds (userinfo_char room joined p c).0
    unfolding userinfo_char
    userinfo_char-InBounds p c h st =
        ground (arith, percent_encode-Grows room bounded c p.buf PercencSet.userinfo)

    userinfo_char-state :
        (p : Parser) (c : ℕ)
        → is_null (userinfo_char room joined p c).1 ≡ true
        → (userinfo_char room joined p c).0.state ≡ p.state
    unfolding userinfo_char
    userinfo_char-state p c ok = ground arith

    userinfo_loop-InBounds :
        (cs : List ℕ) (p : Parser)
        → InBounds p
        → p.state ≡ ParserState.auth
        → InBounds (userinfo_loop room joined cs p).0
    unfolding userinfo_loop
    userinfo_loop-InBounds [] p h st = h
    userinfo_loop-InBounds (c ∷ cs) p h st =
        let q = (userinfo_char room joined p c).0 in
        ground (
          arith,
          userinfo_char-InBounds p c h st,
          userinfo_char-state p c,
          userinfo_loop-InBounds cs q,
        )

    cut_userinfo-InBounds :
        (p : Parser)
        → InBounds p
        → p.state ≡ ParserState.auth
        → InBounds (cut_userinfo room joined p).0
    unfolding cut_userinfo
    cut_userinfo-InBounds p h st =
        let cut = parser_buf p in
        let q = record (sliced p) {
          at_sign_seen = true;
          result = record p.result {
            username = record { start = cut.len; len = p.result.username.len };
          };
        } in
        ground (arith, userinfo_loop-InBounds (region_bytes p.buf cut) q)

    pub auth-InBounds :
        (p : Parser)
        → InBounds p
        → p.state ≡ ParserState.auth
        → InBounds (parse_auth room joined p).0
    unfolding parse_auth
    auth-InBounds p h st =
        let mark : List ℕ = b'%' ∷ b'4' ∷ b'0' ∷ [] in
        let (buf, e) = append_bytes room p.buf mark in
        ground (
          arith,
          cut_userinfo-InBounds p h st,
          cut_userinfo-InBounds (record p { buf = buf }),
          append_bytes-Grows room bounded p.buf mark,
          push-Grows room bounded p.buf (byte (parser_c p)),
          pop_many-eq-take (buf_len p) p.buf,
          length-take (length p.buf - buf_len p) p.buf,
        )

    pub host-InBounds :
        (p : Parser)
        → InBounds p
        → p.state ≡ ParserState.host
        → InBounds (parse_host room joined p).0
    unfolding parse_host
    host-InBounds p h st = ground (arith, push-Grows room bounded p.buf (byte (parser_c p)))

    pub port-InBounds :
        (p : Parser)
        → InBounds p
        → p.state ≡ ParserState.port
        → InBounds (parse_port room joined p).0
    unfolding parse_port
    port-InBounds p h st = ground (arith, push-Grows room bounded p.buf (byte (parser_c p)))

  file_branch-InBounds : (p : Parser) → InBounds p → InBounds (file_branch p).0
  unfolding file_branch
  file_branch-InBounds p h = ground arith

  pub file-InBounds :
      (p : Parser) → InBounds p → p.state ≡ ParserState.file → InBounds (parse_file room p).0
  unfolding parse_file
  file-InBounds p h st = ground (arith, append_bytes-Grows room bounded p.buf file_name)

  pub file_slash-InBounds : (p : Parser) → InBounds p → InBounds (parse_file_slash room p).0
  unfolding parse_file_slash
  file_slash-InBounds p h = ground arith

  pub file_host-InBounds :
      (p : Parser)
      → InBounds p
      → p.state ≡ ParserState.file_host
      → InBounds (parse_file_host room p).0
  unfolding parse_file_host
  file_host-InBounds p h st = ground (arith, push-Grows room bounded p.buf (byte (parser_c p)))
