-- ===== src/Url/Tests.antt =====
-- The parser on concrete texts.
use posix_threads.Common.{
  ℕ, ◌+◌, ◌-◌, ◌^◌, ◌≡◌, refl, ◌≢◌, ◌⊎◌, true, false, not, none, some, List, [], ◌∷◌, ◌++◌, arith,
  ltb, if◌then◌else◌, ltb→lt, length, get_elem?, get_or, take, drop,
}
use Prim.Native.Char.{code}
use Prim.Native.String.{String}
use posix_threads.Buffer.{push_all, append_bytes, from_slice, Room, null, message, Problem}
use posix_threads.Buffer.Laws.{IsBounded}
use posix_threads.Url.Parse.{answer, dispatch, round, Url, Parsed, url_parse}
use posix_threads.Buffer.{push, is_null, error_combine}
use posix_threads.Url.Chars.{
  is_ascii_alphanum, is_c0_space, is_ascii_alpha, meets, is_invalid_percent_escape,
}
use posix_threads.Url.State.{Parser, ParserState, remaining, rem_starts_with, starts_with}
use posix_threads.Url.Percent.{percent_bytes, percenc_contains, PercencSet, percent_encode}
use posix_threads.Url.Percent.Laws.{percent_encode-Outside, Outside, All, decode}
use posix_threads.Url.Input.{
  tab_nl_loop, leading, trailing_end, url_remove_trailing, url_remove_tab_nl,
}
use posix_threads.Url.Input.Laws.{
  url_remove_tab_nl-filters, url_remove_trailing-trims, AllBlank, without_tab_nl, has_tab_nl,
}
use posix_threads.Url.Handlers.Scheme.{parse_no_scheme, parse_scheme_start, parse_scheme}
use posix_threads.Url.Parse.{empty_result, start_parser, finished, run}
use posix_threads.Url.Bounds.Run.{url_parse-Contained, Contained, IfUrl}
use posix_threads.Url.Failure.{url_parse-reports}
use posix_threads.Url.Compare.{url_eq, view, url_eq-view}
use posix_threads.Url.Copy.{url_copy, placed, AreSmall, url_copy-placed}
use posix_threads.Url.Scheme.{no_letter_accepted, scheme_never_opaque}
use posix_threads.Url.Remaining.{remaining_harmless}
use posix_threads.Url.Termination.{url_parse_total}

abbrev codes : String → List ℕ
codes String.[] = []
codes (String.◌∷◌ c s) = code c ∷ codes s

abbrev ample : Room
ample n k = ltb (n + k) (2 ^ 63)

ample-IsBounded : IsBounded ample
ample-IsBounded n k h = ltb→lt (n + k) (2 ^ 63) h

-- the URL of the text "http://a/x?q"
abbrev plain : Url
plain = record {
  buf = codes "httpa/xq";
  regions = record (empty_result) {
    scheme = record { start = 0; len = 4 };
    host = record { start = 4; len = 1 };
    path = record { start = 5; len = 2 };
    query = record { start = 7; len = 1 };
    host_null = false;
    query_null = false;
  };
}

-- the same URL after other text, and with a port that is absent
abbrev moved : Url
moved = record {
  buf = codes "uhttpa/xq";
  regions = record (empty_result) {
    scheme = record { start = 1; len = 4 };
    host = record { start = 5; len = 1 };
    path = record { start = 6; len = 2 };
    query = record { start = 8; len = 1 };
    port = 80;
    host_null = false;
    query_null = false;
  };
}

url_parse_total_example : (r : Parsed) × (url_parse ample true (codes "http://a/x?q") ≡ some r)
url_parse_total_example = url_parse_total ample true (codes "http://a/x?q") (omega arith)

url_parse-Contained_example :
    (r : Parsed) × (url_parse ample true (codes "http://a/x?q") ≡ some r) × IfUrl Contained r.url
url_parse-Contained_example =
    url_parse-Contained ample ample-IsBounded true (codes "http://a/x?q") (omega arith)

abbrev no_scheme_named : Parsed
no_scheme_named = record { url = none; error = message Problem.no_scheme }

parsed_no_scheme : url_parse ample true (codes "a/b") ≡ some no_scheme_named
unfolding url_parse from_slice push_all url_remove_tab_nl tab_nl_loop url_remove_trailing
    trailing_end leading is_c0_space run round dispatch parse_scheme_start parse_scheme
    parse_no_scheme is_ascii_alpha is_ascii_alphanum push answer error_combine
parsed_no_scheme = refl

url_parse-reports_example : is_null (message Problem.no_scheme) ≡ false
url_parse-reports_example =
    url_parse-reports ample true (codes "a/b") no_scheme_named parsed_no_scheme refl

component_free : PercencSet.query ≢ PercencSet.component
component_free = λ e. cc

percent_encode-Outside_example :
    (xs : List ℕ) × (codes "a%20" ≡ codes "a" ++ xs)
    × All (Outside PercencSet.query) xs
    × (decode xs ≡ some 32)
unfolding percent_encode percenc_contains append_bytes percent_bytes
percent_encode-Outside_example =
    percent_encode-Outside ample 32 (codes "a") (codes "a%20") PercencSet.query (omega arith)
      component_free refl

url_remove_tab_nl-filters_example :
    ((url_remove_tab_nl (104 ∷ 9 ∷ 10 ∷ 47 ∷ [])).0 ≡ without_tab_nl (104 ∷ 9 ∷ 10 ∷ 47 ∷ []))
    × (is_null (url_remove_tab_nl (104 ∷ 9 ∷ 10 ∷ 47 ∷ [])).1
        ≡ not (has_tab_nl (104 ∷ 9 ∷ 10 ∷ 47 ∷ [])))
url_remove_tab_nl-filters_example = url_remove_tab_nl-filters (104 ∷ 9 ∷ 10 ∷ 47 ∷ [])

no_blank_first : leading (codes "ab  ") ≡ 0
unfolding leading
no_blank_first = refl

url_remove_trailing-trims_example :
    (n : ℕ) × ((url_remove_trailing true (codes "ab  ")).0 ≡ take n (codes "ab  "))
    × AllBlank (drop n (codes "ab  "))
    × ((n ≡ 0) ⊎ (is_c0_space (get_or (codes "ab  ") (n - 1) 0) ≡ false))
url_remove_trailing-trims_example = url_remove_trailing-trims true (codes "ab  ") no_blank_first

same_fields : url_eq plain moved ≡ true
unfolding url_eq
same_fields = refl

url_eq-view_example : view plain ≡ view moved
url_eq-view_example = url_eq-view plain moved same_fields

regions-AreSmall : AreSmall plain.regions
regions-AreSmall = record {
  scheme = omega arith;
  username = omega arith;
  password = omega arith;
  host = omega arith;
  path = omega arith;
  query = omega arith;
  fragment = omega arith;
}

url_copy-placed_example : url_copy ample 8192 (placed 4096 plain) ≡ (
    if ample 0 (length plain.buf)
    then (some (placed 8192 plain), null)
    else (none, message Problem.out_of_memory))
url_copy-placed_example =
    url_copy-placed ample 4096 8192 plain (omega arith) (omega arith) regions-AreSmall

no_letter : meets is_ascii_alpha (get_elem? (codes "1x") 0) ≡ false
unfolding is_ascii_alpha
no_letter = refl

no_letter_accepted_example :
    run ample true 5 (start_parser (codes "1x")) null
    ≡ some (
        finished
          (record (start_parser (codes "1x")) { state = ParserState.no_scheme; pos = 2 ^ 64 - 1 })
          (error_combine true null null))
no_letter_accepted_example =
    no_letter_accepted ample true 4 (codes "1x") null (omega arith) no_letter

-- the parser at the colon of "x:y"
abbrev at_colon : Parser
at_colon = record (start_parser (codes "x:y")) {
  buf = codes "x";
  pos = 1;
  state = ParserState.scheme;
}

scheme_never_opaque_example :
    ((parse_scheme ample at_colon).0.state ≢ ParserState.opaque_path)
    × ((parse_scheme ample at_colon).0.state ≢ ParserState.path_or_auth)
scheme_never_opaque_example = scheme_never_opaque ample at_colon

remaining_harmless_example :
    (is_invalid_percent_escape (remaining at_colon)
      ≡ is_invalid_percent_escape (drop (at_colon.pos + 1) at_colon.input))
    × (rem_starts_with at_colon (codes "y")
        ≡ starts_with (codes "y") (drop (at_colon.pos + 1) at_colon.input))
remaining_harmless_example = remaining_harmless at_colon (codes "y") refl
