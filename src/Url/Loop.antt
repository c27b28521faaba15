-- ===== src/Url/Loop.antt =====
-- a.yanin/waxy/src/url.c: the rule for an invariant of the loop of `url_parse`.
use mathlib.Core.Path.{subst}
use posix_threads.Common.{
  ℕ, zero, suc, length, ◌≡◌, sym, List, Option, none, some, Bool, ◌⊎◌, inl, inr, some_inj,
  none-ne-some, Bool-cases, Option-cases,
}
use posix_threads.Buffer.{Room, Problem, Report, message, error_combine, from_slice}
use posix_threads.Url.State.{Parser, is_eof}
use posix_threads.Url.Parse.{
  Ending, finished, failed, Parsed, round, run, answer, start_parser, parse_input, url_parse,
  fuel_for,
}
use posix_threads.Url.Input.{url_remove_trailing, url_remove_tab_nl}

-- What a round that does not leave the loop ensures.
abbrev pub After : (Parser → Report → Type 0) → Option (Parser × Report) → Type 0
After P none = Unit
After P (some r) = P r.0 r.1

abbrev pub Ends : (Parser → Report → Type 0) → (Report → Type 0) → Ending → Type 0
Ends P F (finished p err) = P p err
Ends P F (failed err) = F err

-- the answer where the first two allocations fail
abbrev pub refusal : Parsed
refusal = record { url = none; error = message Problem.out_of_memory }

module _ (room : Room) (joined : Bool) (P : Parser → Report → Type 0) (F : Report → Type 0)
    (keep : (p q : Parser) (err e : Report)
      → P p err
      → round room joined p ≡ some (q, e)
      → P q (error_combine joined err e))
    (leave : (p : Parser) (err : Report) → P p err → round room joined p ≡ none → F err) where
  run-Ends :
      (fuel : ℕ) (p : Parser) (err : Report) (ending : Ending)
      → P p err
      → run room joined fuel p err ≡ some ending
      → Ends P F ending
  unfolding run
  run-Ends zero p err ending h ran = cc
  run-Ends (suc fuel) p err ending h ran = elim (Option-cases (round room joined p)) [
    | inl out ↦ subst (Ends P F) (some_inj (rw (out, run) at ran)) (leave p err h out)
    | inr ((q, e), went) ↦
        let kept = keep p q err e h went in
        elim (Bool-cases (is_eof q)) [
          | inl last ↦ subst (Ends P F) (some_inj (rw (went, run, last) at ran)) kept
          | inr more ↦
              run-Ends fuel q (error_combine joined err e) ending kept (rw (went, run, more) at ran)
        ]
  ]

  parse_input-Ends :
      ((input : List ℕ) (err : Report) → P (start_parser input) err)
      → (text : List ℕ) (r : Parsed) → parse_input room joined text ≡ some r
      → (ending : Ending) × Ends P F ending × (r ≡ answer ending)
  unfolding parse_input
  parse_input-Ends start text r ran =
      let (trimmed, e₁) = url_remove_trailing joined text in
      let (input, e₂) = url_remove_tab_nl trimmed in
      let err = error_combine joined e₁ e₂ in
      let fuel = fuel_for (length input) in
      elim (Option-cases (run room joined fuel (start_parser input) err)) [
        | inl out ↦ absurd (none-ne-some (rw (out, parse_input) at ran))
        | inr (ending, ended) ↦ (
          ending,
          run-Ends fuel (start_parser input) err ending (start input err) ended,
          sym (some_inj (rw (ended, parse_input) at ran)),
        )
      ]

  -- Either the copies could not be made, or the answer is that of an ending with the invariant.
  pub url_parse-Ends :
      ((input : List ℕ) (err : Report) → P (start_parser input) err)
      → (slice : List ℕ) (r : Parsed) → url_parse room joined slice ≡ some r
      → (r ≡ refusal) ⊎ ((ending : Ending) × Ends P F ending × (r ≡ answer ending))
  unfolding url_parse
  url_parse-Ends start slice r ran = elim (Option-cases (from_slice room slice)) [
    | inl refused ↦ inl (sym (some_inj (rw (refused, url_parse) at ran)))
    | inr (text, copied) ↦ elim (Bool-cases (room 0 0)) [
      | inr refused ↦ inl (sym (some_inj (rw (copied, url_parse, refused) at ran)))
      | inl given ↦ inr (parse_input-Ends start text r (rw (copied, url_parse, given) at ran))
    ]
  ]
