-- ===== src/Url/Scheme.antt =====
-- What the parser makes of schemes and of a text without one.
use posix_threads.Common.{
  ℕ, suc, ◌-◌, ◌^◌, ◌<◌, ◌≡◌, refl, ◌≢◌, Bool, true, false, some, List, [], ◌∷◌, arith, length,
  get_elem?,
}
use posix_threads.Buffer.{Room, Report, null, error_combine}
use posix_threads.Url.Chars.{is_ascii_alpha, meets}
use posix_threads.Url.State.{Parser, ParserState, parser_is_special}
use posix_threads.Url.Handlers.Scheme.{parse_scheme_start, parse_scheme, cut_scheme, after_scheme}
use posix_threads.Url.Parse.{finished, start_parser, run, round, dispatch}

-- No scheme answers 0: the answer for other schemes is 2^32 - 2, which is true as a `bool`.
cut_scheme-special : (p : Parser) → (cut_scheme p).special ≡ true
unfolding cut_scheme parser_is_special
cut_scheme-special p = ground arith

-- Every scheme counts as special, so a URL with another scheme than those of the list never reaches
-- the states for an opaque path and for a path or an authority.
pub scheme_never_opaque :
    (room : Room) (p : Parser)
    → ((parse_scheme room p).0.state ≢ ParserState.opaque_path)
      × ((parse_scheme room p).0.state ≢ ParserState.path_or_auth)
unfolding parse_scheme after_scheme
scheme_never_opaque room p =
    (ground (arith, cut_scheme-special p), ground (arith, cut_scheme-special p))

-- A text that does not begin with a letter is accepted in the first round, with no part set and with
-- no error beyond that of the preparation: the position goes below 0, and wraps past the end.
pub no_letter_accepted :
    (room : Room) (joined : Bool) (fuel : ℕ) (input : List ℕ) (err : Report)
    → length input < 2 ^ 64 - 1
    → meets is_ascii_alpha (get_elem? input 0) ≡ false
    → run room joined (suc fuel) (start_parser input) err
      ≡ some (
          finished
            (record (start_parser input) { state = ParserState.no_scheme; pos = 2 ^ 64 - 1 })
            (error_combine joined err null))
unfolding run round dispatch parse_scheme_start
no_letter_accepted room joined fuel [] err small h = refl
no_letter_accepted room joined fuel (c ∷ cs) err small h = ground arith
