-- ===== src/Url/Bounds/Run.antt =====
-- The regions of every URL that `url_parse` returns lie in its buffer.
use posix_threads.Common.{
  ℕ, ◌^◌, ◌≤◌, ◌<◌, ◌≡◌, refl, List, Option, none, some, Bool, inl, inr, length, arith,
}
use posix_threads.Buffer.{Room, Report}
use posix_threads.Buffer.Laws.{IsBounded}
use posix_threads.Url.State.{Parser, ParserState}
use posix_threads.Url.Parse.{
  Ending, finished, failed, Url, Parsed, advance, dispatch, round, answer, start_parser, url_parse,
}
use posix_threads.Url.Loop.{After, Ends, url_parse-Ends}
use posix_threads.Url.Termination.{url_parse_total}
use posix_threads.Url.Bounds.Defs.{region_end, InBounds}
use posix_threads.Url.Bounds.Scheme.{
  scheme_start-InBounds, scheme-InBounds, no_scheme-InBounds, path_or_auth-InBounds,
  spec_auth_slash-InBounds, ignore_slash-InBounds,
}
use posix_threads.Url.Bounds.Authority.{
  auth-InBounds, host-InBounds, port-InBounds, file-InBounds, file_slash-InBounds,
  file_host-InBounds,
}
use posix_threads.Url.Bounds.Paths.{
  path_start-InBounds, path-InBounds, opaque_path-InBounds, query-InBounds, fragment-InBounds,
}

-- Each region but the user information ends in the buffer.
pub record Contained (u : Url) : Type 0 where
  pub scheme : region_end u.regions.scheme ≤ length u.buf
  pub host : region_end u.regions.host ≤ length u.buf
  pub path : region_end u.regions.path ≤ length u.buf
  pub query : region_end u.regions.query ≤ length u.buf
  pub fragment : region_end u.regions.fragment ≤ length u.buf

abbrev pub IfUrl : (Url → Type 0) → Option Url → Type 0
IfUrl P none = Unit
IfUrl P (some u) = P u

module _ (room : Room) (bounded : IsBounded room) (joined : Bool) where
  dispatch-InBounds :
      (st : ParserState) (p : Parser)
      → InBounds p
      → p.state ≡ st
      → After (λ q _. InBounds q) (dispatch room joined st p)
  unfolding dispatch
  dispatch-InBounds ParserState.scheme_start p h e = scheme_start-InBounds room bounded p h e
  dispatch-InBounds ParserState.scheme p h e = scheme-InBounds room bounded p h e
  dispatch-InBounds ParserState.no_scheme p h e = no_scheme-InBounds room bounded p h
  dispatch-InBounds ParserState.path_or_auth p h e = path_or_auth-InBounds room bounded p h
  dispatch-InBounds ParserState.spec_auth_slash p h e = spec_auth_slash-InBounds room bounded p h
  dispatch-InBounds ParserState.spec_auth_ignore_slash p h e =
      ignore_slash-InBounds room bounded p h
  dispatch-InBounds ParserState.auth p h e = auth-InBounds room bounded joined p h e
  dispatch-InBounds ParserState.host p h e = host-InBounds room bounded joined p h e
  dispatch-InBounds ParserState.port p h e = port-InBounds room bounded joined p h e
  dispatch-InBounds ParserState.file p h e = file-InBounds room bounded p h e
  dispatch-InBounds ParserState.file_slash p h e = file_slash-InBounds room bounded p h
  dispatch-InBounds ParserState.file_host p h e = file_host-InBounds room bounded p h e
  dispatch-InBounds ParserState.path_start p h e = path_start-InBounds room bounded joined p h e
  dispatch-InBounds ParserState.path p h e = path-InBounds room bounded joined p h e
  dispatch-InBounds ParserState.opaque_path p h e = opaque_path-InBounds room bounded joined p h e
  dispatch-InBounds ParserState.query p h e = query-InBounds room bounded joined p h e
  dispatch-InBounds ParserState.fragment p h e = fragment-InBounds room bounded joined p h e
  dispatch-InBounds ParserState.fail p h e = tt

  advance-InBounds : (p : Parser) → InBounds p → InBounds (advance p)
  advance-InBounds p h = ground arith

  round-InBounds :
      (p q : Parser) (err e : Report) → InBounds p → round room joined p ≡ some (q, e) → InBounds q
  unfolding round
  round-InBounds p q err e h went =
      rw went at (dispatch-InBounds p.state (advance p) (advance-InBounds p h) refl)

  start_parser-InBounds : (input : List ℕ) → InBounds (start_parser input)
  start_parser-InBounds input = ground arith

  answer-Contained :
      (ending : Ending)
      → Ends (λ p _. InBounds p) (λ _. Unit) ending
      → IfUrl Contained (answer ending).url
  unfolding answer
  answer-Contained (finished p err) h = ground arith
  answer-Contained (failed err) h = tt

  -- For a text of less than 2^63 bytes, where no buffer grows to 2^63 bytes, `url_parse` has a result,
  -- and if that is a URL, its scheme, host, path, query and fragment lie in its buffer.
  pub url_parse-Contained :
      (slice : List ℕ)
      → length slice < 2 ^ 63
      → (r : Parsed) × (url_parse room joined slice ≡ some r) × IfUrl Contained r.url
  url_parse-Contained slice small =
      let (r, parsed) = url_parse_total room joined slice small in
      let ends =
        url_parse-Ends room joined (λ p _. InBounds p) (λ _. Unit) round-InBounds (λ _ _ _ _. tt)
          (λ input _. start_parser-InBounds input) slice r parsed in
      (
        r,
        parsed,
        elim ends [
          | inl none_left ↦ rw none_left tt
          | inr (ending, h, same) ↦ rw same (answer-Contained ending h)
        ],
      )
