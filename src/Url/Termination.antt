-- ===== src/Url/Termination.antt =====
-- The loop of `url_parse` ends: the fuel of the model is enough for every input.
use posix_threads.Common.{
  ℕ, zero, suc, ◌+◌, ◌-◌, ◌*◌, ◌^◌, ◌≤◌, ◌<◌, ◌≡◌, refl, List, some, Bool, false, inl, inr, length,
  Bool-cases, Option-cases, dec_lt, arith,
}
use posix_threads.Buffer.{Room, Report, error_combine, from_slice}
use posix_threads.Buffer.Laws.{from_slice-eq-some}
use posix_threads.Url.State.{Parser, ParserState, inc, is_eof}
use posix_threads.Url.Parse.{
  Ending, finished, failed, advance, dispatch, round, run, start_parser, fuel_for, Parsed, answer,
  parse_input, url_parse,
}
use posix_threads.Url.Input.{url_remove_trailing, url_remove_tab_nl}
use posix_threads.Url.Input.Trim.{length-remove_trailing, length-remove_tab_nl}
use posix_threads.Url.Loop.{After, refusal}
use posix_threads.Url.Progress.Defs.{rank, Moves}
use posix_threads.Url.Progress.Scheme.{
  scheme_start-Moves, scheme-Moves, no_scheme-Moves, path_or_auth-Moves, spec_auth_slash-Moves,
  ignore_slash-Moves,
}
use posix_threads.Url.Progress.Authority.{
  auth-Moves, host-Moves, port-Moves, file-Moves, file_slash-Moves, file_host-Moves,
}
use posix_threads.Url.Progress.Paths.{
  path_start-Moves, path-Moves, opaque_path-Moves, query-Moves, fragment-Moves,
}

-- The rounds that are left at most.
measure : Parser → ℕ
measure p = rank p.state * (length p.input + 1) + (length p.input - inc p.pos)

times-lt : (a b n : ℕ) → a < b → a * n + n ≤ b * n
times-lt a b n h = grind arith

measure-falls :
    (p q : Parser)
    → inc p.pos ≤ length p.input
    → length p.input < 2 ^ 63
    → Moves (rank p.state) (advance p) q
    → is_eof q ≡ false
    → (inc q.pos ≤ length q.input) × (measure q < measure p)
unfolding measure
measure-falls p q inside small m more = elim (dec_lt (rank q.state) (rank p.state)) [
  | yes down ↦
      let below : rank q.state * (length p.input + 1) + (length p.input + 1)
          ≤ rank p.state * (length p.input + 1) =
        times-lt _ _ (length p.input + 1) down in
      rw m.same_input (ground arith)
  | no same ↦
      let pos : q.pos ≡ inc p.pos = m.still (omega arith) in
      let equal : rank q.state ≡ rank p.state = omega (arith, m.later) in
      rw (m.same_input, equal, pos) (ground arith)
]

module _ (room : Room) (joined : Bool) where
  dispatch-Moves :
      (st : ParserState) (p : Parser)
      → p.state ≡ st
      → After (λ q _. Moves (rank st) p q) (dispatch room joined st p)
  unfolding dispatch
  dispatch-Moves ParserState.scheme_start p e = scheme_start-Moves room p
  dispatch-Moves ParserState.scheme p e = scheme-Moves room p e
  dispatch-Moves ParserState.no_scheme p e = no_scheme-Moves room p
  dispatch-Moves ParserState.path_or_auth p e = path_or_auth-Moves room p
  dispatch-Moves ParserState.spec_auth_slash p e = spec_auth_slash-Moves room p
  dispatch-Moves ParserState.spec_auth_ignore_slash p e = ignore_slash-Moves room p e
  dispatch-Moves ParserState.auth p e = auth-Moves room joined p e
  dispatch-Moves ParserState.host p e = host-Moves room joined p e
  dispatch-Moves ParserState.port p e = port-Moves room joined p e
  dispatch-Moves ParserState.file p e = file-Moves room p
  dispatch-Moves ParserState.file_slash p e = file_slash-Moves room p
  dispatch-Moves ParserState.file_host p e = file_host-Moves room p e
  dispatch-Moves ParserState.path_start p e = path_start-Moves room joined p e
  dispatch-Moves ParserState.path p e = path-Moves room joined p e
  dispatch-Moves ParserState.opaque_path p e = opaque_path-Moves room joined p e
  dispatch-Moves ParserState.query p e = query-Moves room joined p e
  dispatch-Moves ParserState.fragment p e = fragment-Moves room joined p e
  dispatch-Moves ParserState.fail p e = tt

  run_total :
      (fuel : ℕ) (p : Parser) (err : Report)
      → inc p.pos ≤ length p.input
      → length p.input < 2 ^ 63
      → measure p < fuel
      → (e : Ending) × (run room joined fuel p err ≡ some e)
  unfolding run round
  run_total zero p err inside small enough = absurd (omega arith)
  run_total (suc fuel) p err inside small enough = elim (Option-cases (round room joined p)) [
    | inl stop ↦ (failed err, rw (stop, run))
    | inr ((q, e), went) ↦
        let next = error_combine joined err e in
        elim (Bool-cases (is_eof q)) [
          | inl last ↦ (finished q next, rw (went, run, last))
          | inr more ↦
              let moved : Moves (rank p.state) (advance p) q =
                rw went at (dispatch-Moves p.state (advance p) refl) in
              let (room_left, falls) = measure-falls p q inside small moved more in
              let (ending, done) =
                run_total fuel q next room_left (rw moved.same_input small) (omega arith) in
              (ending, rw (went, run, more) done)
        ]
  ]

  parse_input_total :
      (text : List ℕ)
      → length text < 2 ^ 63
      → (r : Parsed) × (parse_input room joined text ≡ some r)
  unfolding parse_input measure
  parse_input_total text small =
      let (trimmed, e₁) = url_remove_trailing joined text in
      let (input, e₂) = url_remove_tab_nl trimmed in
      let bound : length input < 2 ^ 63 =
        omega (arith, length-remove_tab_nl trimmed, length-remove_trailing joined text) in
      let (ending, ends) =
        run_total (fuel_for (length input)) (start_parser input) (error_combine joined e₁ e₂)
          (omega arith) bound (omega arith) in
      (answer ending, rw (ends, parse_input))

  -- For a text of less than 2^63 bytes `url_parse` has a result, whatever the allocations answer: its
  -- loop ends within the fuel of the model.
  pub url_parse_total :
      (slice : List ℕ)
      → length slice < 2 ^ 63
      → (r : Parsed) × (url_parse room joined slice ≡ some r)
  unfolding url_parse
  url_parse_total slice small = elim (Option-cases (from_slice room slice)) [
    | inl none_left ↦ (refusal, rw (none_left, url_parse))
    | inr (input, copied) ↦ elim (Bool-cases (room 0 0)) [
      | inr none_left ↦ (refusal, rw (copied, url_parse, none_left))
      | inl given ↦
          let (r, parsed) =
            parse_input_total input (rw (from_slice-eq-some room slice input copied) small) in
          (r, rw (copied, url_parse, given) parsed)
    ]
  ]
