-- ===== src/Url/Input.antt =====
-- a.yanin/waxy/src/url.c: what is done to the input before it is parsed.
pub mod Trim
pub mod Laws
use posix_threads.Common.{
  ℕ, zero, suc, ◌+◌, ◌-◌, List, [], ◌∷◌, ◌++◌, Bool, true, false, not, ◌&&◌, ◌||◌, ltb, ◌==◌,
  if◌then◌else◌, length, take, drop, get_or,
}
use posix_threads.Buffer.{Problem, Report, null, message, error_combine}
use posix_threads.Url.Chars.{is_c0_space}

-- the first loop of `url_remove_trailing`: how many blanks the text begins with
unfoldable pub leading : List ℕ → ℕ
unfolding is_c0_space
leading [] = 0
leading (c ∷ s) = if is_c0_space c then suc (leading s) else 0

-- the second loop, from `end` down to `start`
unfoldable pub trailing_end : ℕ → ℕ → List ℕ → ℕ
unfolding is_c0_space
trailing_end start zero s = zero
trailing_end start (suc e) s =
    if ltb start (suc e) && is_c0_space (get_or s e 0) then trailing_end start e s else suc e

-- The `memmove` goes from the start of the text to `start`, and the text is cut to `len`.
unfoldable pub url_remove_trailing : Bool → List ℕ → List ℕ × Report
url_remove_trailing joined input =
    let start = leading input in
    let end_pos = trailing_end start (length input) input in
    let len = end_pos - start in
    let first = if ltb 0 start then message Problem.leading_blank else null in
    let second = if end_pos == length input then null else message Problem.trailing_blank in
    (
      take len (take start input ++ (take len input ++ drop (start + len) input)),
      error_combine joined first second,
    )

abbrev pub is_tab_nl : ℕ → Bool
is_tab_nl c = c == 0x0d || c == 0x0a || c == 0x09

-- `string_remove`
unfoldable pub remove_at : ℕ → List ℕ → List ℕ
remove_at i [] = []
remove_at zero (c ∷ s) = s
remove_at (suc i) (c ∷ s) = c ∷ remove_at i s

-- The loop goes from the last character to the first.
unfoldable pub tab_nl_loop : ℕ → List ℕ → Bool → List ℕ × Bool
tab_nl_loop zero s found = (s, found)
tab_nl_loop (suc i) s found =
    let hit = is_tab_nl (get_or s i 0) in
    tab_nl_loop i (if hit then remove_at i s else s) (found || hit)

unfoldable pub url_remove_tab_nl : List ℕ → List ℕ × Report
url_remove_tab_nl input =
    let (s, found) = tab_nl_loop (length input) input false in
    (s, if found then message Problem.tab_or_newline else null)
