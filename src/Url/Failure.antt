-- ===== src/Url/Failure.antt =====
-- `url_parse` never fails without an error: the state `STATE_FAIL` always comes with one.
use posix_threads.Common.{
  ℕ, ◌≡◌, ◌≢◌, if◌then◌else◌, refl, List, [], ◌∷◌, none, some, Bool, true, false, inl, inr, ◌&&◌,
  arith,
}
use posix_threads.Buffer.{
  Room, Problem, Report, message, is_null, null, append_bytes, push, error_combine,
}
use posix_threads.Buffer.Laws.{is_null-combine}
use posix_threads.Url.Chars.{byte, is_char}
use posix_threads.Url.Percent.{PercencSet, percent_encode}
use posix_threads.Url.State.{Parser, parser_c, sliced, ParserState, region_bytes, parser_buf}
use posix_threads.Url.Parse.{
  Ending, finished, failed, Parsed, advance, dispatch, round, answer, url_parse,
}
use posix_threads.Url.Loop.{After, Ends, url_parse-Ends}
use posix_threads.Url.Handlers.Scheme.{
  parse_scheme_start, parse_scheme, parse_no_scheme, parse_path_or_auth, parse_spec_auth_slash,
  parse_spec_auth_ignore_slash,
}
use posix_threads.Url.Handlers.Authority.{
  cut_userinfo, userinfo_loop, parse_auth, parse_host, parse_port,
}
use posix_threads.Url.Handlers.Files.{parse_file, parse_file_slash, parse_file_host}
use posix_threads.Url.Handlers.Paths.{
  encode_char, fix_drive, query_set, path_remark, opaque_path_remark, query_remark, fragment_remark,
  parse_path_start, end_segment, parse_path, parse_opaque_path, parse_query, parse_fragment,
}

-- In the failing state there is an error.
abbrev Alarmed : Parser → Report → Type 0
Alarmed p e = p.state ≡ ParserState.fail → is_null e ≡ false

module _ (room : Room) (joined : Bool) where
  cut_userinfo-alarms : (p : Parser) → is_null (cut_userinfo room joined p).1 ≡ false
  unfolding cut_userinfo
  cut_userinfo-alarms p =
      let cut = parser_buf p in
      let q = record (sliced p) {
        at_sign_seen = true;
        result = record p.result {
          username = record { start = cut.len; len = p.result.username.len };
        };
      } in
      let (u, e) = userinfo_loop room joined (region_bytes p.buf cut) q in
      ground (arith, is_null-combine joined e (message Problem.at_sign))

  encode_char-Alarmed :
      (p : Parser) (which : PercencSet) (e : Report)
      → p.state ≢ ParserState.fail
      → Alarmed (encode_char room joined p which e).0 (encode_char room joined p which e).1
  unfolding encode_char
  encode_char-Alarmed p which e alive =
      let (buf, e') = percent_encode room (byte (parser_c p)) p.buf which in
      ground (arith, is_null-combine joined e' e)

  auth-Alarmed :
      (p : Parser)
      → p.state ≡ ParserState.auth
      → Alarmed (parse_auth room joined p).0 (parse_auth room joined p).1
  unfolding parse_auth
  auth-Alarmed p st =
      let (buf, e) = append_bytes room p.buf (b'%' ∷ b'4' ∷ b'0' ∷ []) in
      ground (
        arith,
        cut_userinfo-alarms p,
        cut_userinfo-alarms (record p { buf = buf }),
        is_null-combine joined e (message Problem.at_sign),
      )

  end_segment-Alarmed :
      (p : Parser)
      → p.state ≡ ParserState.path
      → Alarmed (end_segment room joined p).0 (end_segment room joined p).1
  unfolding end_segment
  end_segment-Alarmed p st =
      let c = parser_c p in
      let back = p.special && is_char 0x5c c in
      ground (
        arith,
        is_null-combine joined (push room (fix_drive p).buf (byte c)).1
            (if back then message Problem.backslash else null),
      )

  path-Alarmed :
      (p : Parser)
      → p.state ≡ ParserState.path
      → Alarmed (parse_path room joined p).0 (parse_path room joined p).1
  unfolding parse_path
  path-Alarmed p st =
      ground
        (arith, end_segment-Alarmed p st, encode_char-Alarmed p PercencSet.path (path_remark p))

module _ (room : Room) (joined : Bool) where
  dispatch-Alarmed :
      (st : ParserState) (p : Parser) → p.state ≡ st → After Alarmed (dispatch room joined st p)
  unfolding dispatch parse_scheme_start parse_scheme parse_no_scheme parse_path_or_auth
      parse_spec_auth_slash parse_spec_auth_ignore_slash parse_host parse_port parse_file
      parse_file_slash parse_file_host parse_path_start parse_opaque_path parse_query parse_fragment
  dispatch-Alarmed ParserState.scheme_start p st = ground arith
  dispatch-Alarmed ParserState.scheme p st = ground arith
  dispatch-Alarmed ParserState.no_scheme p st = ground arith
  dispatch-Alarmed ParserState.path_or_auth p st = ground arith
  dispatch-Alarmed ParserState.spec_auth_slash p st = ground arith
  dispatch-Alarmed ParserState.spec_auth_ignore_slash p st = ground arith
  dispatch-Alarmed ParserState.auth p st = auth-Alarmed room joined p st
  dispatch-Alarmed ParserState.host p st = ground arith
  dispatch-Alarmed ParserState.port p st = ground arith
  dispatch-Alarmed ParserState.file p st = ground arith
  dispatch-Alarmed ParserState.file_slash p st = ground arith
  dispatch-Alarmed ParserState.file_host p st = ground arith
  dispatch-Alarmed ParserState.path_start p st = ground arith
  dispatch-Alarmed ParserState.path p st = path-Alarmed room joined p st
  dispatch-Alarmed ParserState.opaque_path p st =
      ground (arith, encode_char-Alarmed room joined p PercencSet.c0 (opaque_path_remark p))
  dispatch-Alarmed ParserState.query p st =
      ground (arith, encode_char-Alarmed room joined p (query_set p) (query_remark p))
  dispatch-Alarmed ParserState.fragment p st =
      ground (arith, encode_char-Alarmed room joined p PercencSet.fragment (fragment_remark p))
  dispatch-Alarmed ParserState.fail p st = tt

  dispatch-eq-none :
      (st : ParserState) (p : Parser) → dispatch room joined st p ≡ none → st ≡ ParserState.fail
  unfolding dispatch
  dispatch-eq-none ParserState.fail p out = refl
  dispatch-eq-none _ p out = cc

  answer-reports :
      (ending : Ending)
      → Ends Alarmed (λ err. is_null err ≡ false) ending
      → (answer ending).url ≡ none
      → is_null (answer ending).error ≡ false
  unfolding answer
  answer-reports (finished p err) h fatal = cc
  answer-reports (failed err) h fatal = h

  -- When `url_parse` sets `*fatal`, it returns an error.
  pub url_parse-reports :
      (slice : List ℕ) (r : Parsed)
      → url_parse room joined slice ≡ some r
      → r.url ≡ none
      → is_null r.error ≡ false
  unfolding round
  url_parse-reports slice r parsed fatal =
      elim (url_parse-Ends room joined Alarmed (λ err. is_null err ≡ false) kept left
        (λ _ _ start. cc start) slice r parsed) [
          | inl refused ↦ rw refused refl
          | inr (ending, h, same) ↦ rw same (answer-reports ending h (rw same at fatal))
        ]
    where
      kept :
          (p q : Parser) (err e : Report)
          → Alarmed p err
          → round room joined p ≡ some (q, e)
          → Alarmed q (error_combine joined err e)
      kept p q err e h went failing =
          let alarm : Alarmed q e = rw went at (dispatch-Alarmed p.state (advance p) refl) in
          ground (arith, is_null-combine joined err e, alarm failing)

      left :
          (p : Parser) (err : Report)
          → Alarmed p err
          → round room joined p ≡ none
          → is_null err ≡ false
      left p err h out = h (dispatch-eq-none p.state (advance p) out)
