-- ===== src/Url/Input/Trim.antt =====
-- The texts that `url_remove_trailing` and `url_remove_tab_nl` leave.
use posix_threads.Common.{
  ℕ, zero, suc, ◌+◌, ◌-◌, ◌≤◌, List, [], ◌∷◌, ◌++◌, Bool, false, length, take, drop, length-take,
  get_or, ◌||◌, if◌then◌else◌, arith,
}
use posix_threads.Url.Input.{
  is_tab_nl, leading, trailing_end, url_remove_trailing, remove_at, tab_nl_loop, url_remove_tab_nl,
}

trailing_end-le : (start n : ℕ) (s : List ℕ) → trailing_end start n s ≤ n
unfolding trailing_end
trailing_end-le start zero s = omega arith
trailing_end-le start (suc n) s = ground (arith, trailing_end-le start n s)

pub length-remove_trailing :
    (joined : Bool) (s : List ℕ) → length (url_remove_trailing joined s).0 ≤ length s
unfolding url_remove_trailing
length-remove_trailing joined s =
    let end_pos = trailing_end (leading s) (length s) s in
    let len = end_pos - leading s in
    omega (
      arith,
      trailing_end-le (leading s) (length s) s,
      length-take len (take (leading s) s ++ (take len s ++ drop (leading s + len) s)),
    )

length-remove_at-le : (i : ℕ) (s : List ℕ) → length (remove_at i s) ≤ length s
unfolding remove_at
length-remove_at-le i [] = omega arith
length-remove_at-le zero (c ∷ s) = omega arith
length-remove_at-le (suc i) (c ∷ s) = omega (arith, length-remove_at-le i s)

length-tab_nl_loop :
    (i : ℕ) (s : List ℕ) (found : Bool) → length (tab_nl_loop i s found).0 ≤ length s
unfolding tab_nl_loop
length-tab_nl_loop zero s found = omega arith
length-tab_nl_loop (suc i) s found =
    let hit = is_tab_nl (get_or s i 0) in
    let rest = if hit then remove_at i s else s in
    ground (arith, length-tab_nl_loop i rest (found || hit), length-remove_at-le i s)

pub length-remove_tab_nl : (s : List ℕ) → length (url_remove_tab_nl s).0 ≤ length s
unfolding url_remove_tab_nl
length-remove_tab_nl s = length-tab_nl_loop (length s) s false
