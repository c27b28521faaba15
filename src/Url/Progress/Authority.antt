-- ===== src/Url/Progress/Authority.antt =====
-- Progress of user information, host and port, and of the `file:` states.
use posix_threads.Common.{ℕ, ◌≤◌, ◌≡◌, List, [], ◌∷◌, arith, Bool, true}
use posix_threads.Buffer.{Room, append_bytes}
use posix_threads.Url.State.{Parser, ParserState, parser_buf, sliced, region_bytes}
use posix_threads.Url.Progress.Defs.{rank, Moves}
use posix_threads.Url.Handlers.Authority.{
  userinfo_char, userinfo_loop, cut_userinfo, parse_auth, parse_host, parse_port,
}
use posix_threads.Url.Handlers.Files.{parse_file, parse_file_slash, parse_file_host}

-- The loop over the user information leaves input and position alone.
record Stays (p q : Parser) : Type 0 where
  same_input : q.input ≡ p.input
  same_pos : q.pos ≡ p.pos
  no_later : rank q.state ≤ rank p.state

module _ (room : Room) (joined : Bool) where
  userinfo_char-Stays : (p : Parser) (c : ℕ) → Stays p (userinfo_char room joined p c).0
  unfolding userinfo_char
  userinfo_char-Stays p c = ground arith

  userinfo_loop-Stays : (cs : List ℕ) (p : Parser) → Stays p (userinfo_loop room joined cs p).0
  unfolding userinfo_loop
  userinfo_loop-Stays [] p = ground arith
  userinfo_loop-Stays (c ∷ cs) p =
      let q = (userinfo_char room joined p c).0 in
      ground (arith, userinfo_char-Stays p c, userinfo_loop-Stays cs q)

  cut_userinfo-Stays : (p : Parser) → Stays p (cut_userinfo room joined p).0
  unfolding cut_userinfo
  cut_userinfo-Stays p =
      let cut = parser_buf p in
      let q = record (sliced p) {
        at_sign_seen = true;
        result = record p.result {
          username = record { start = cut.len; len = p.result.username.len };
        };
      } in
      ground (arith, userinfo_loop-Stays (region_bytes p.buf cut) q)

  pub auth-Moves :
      (p : Parser) → p.state ≡ ParserState.auth → Moves 11 p (parse_auth room joined p).0
  unfolding parse_auth
  auth-Moves p st =
      let (buf, e) = append_bytes room p.buf (b'%' ∷ b'4' ∷ b'0' ∷ []) in
      ground (arith, cut_userinfo-Stays p, cut_userinfo-Stays (record p { buf = buf }))

  pub host-Moves :
      (p : Parser) → p.state ≡ ParserState.host → Moves 10 p (parse_host room joined p).0
  unfolding parse_host
  host-Moves p st = ground arith

  pub port-Moves :
      (p : Parser) → p.state ≡ ParserState.port → Moves 9 p (parse_port room joined p).0
  unfolding parse_port
  port-Moves p st = ground arith

module _ (room : Room) (p : Parser) where
  pub file-Moves : Moves 8 p (parse_file room p).0
  unfolding parse_file
  file-Moves = ground arith

  pub file_slash-Moves : Moves 7 p (parse_file_slash room p).0
  unfolding parse_file_slash
  file_slash-Moves = ground arith

  pub file_host-Moves : p.state ≡ ParserState.file_host → Moves 6 p (parse_file_host room p).0
  unfolding parse_file_host
  file_host-Moves st = ground arith
