-- ===== src/Cache/Evict.antt =====
-- `cache_evict_if_necessary_unsync` of a.yanin/waxy/src/cache.c: the entries at the front of the list go,
-- and no more than needed.
use posix_threads.Common.{
  ℕ, zero, suc, ◌+◌, ◌≤◌, ◌<◌, ◌≡◌, refl, sym, ap, ◌∙◌, inl, inr, Bool, true, false, not, ◌||◌,
  List, [], ◌∷◌, arith, ltb, if◌then◌else◌, ltb→lt, ==_iff, Bool-cases, List-cases, length, drop,
  Outcome, done, ◌>>=◌,
}
use posix_threads.Cache.{member, erase, Cache, buf_len, remove_entry, evict_loop, evict}
use posix_threads.Cache.Ledger.{total, total-same, IsEquivalence}
use posix_threads.Cache.Invariant.{put-same, IsCache, removed, remove_entry-removed, put-same}

erase-head : (a : ℕ) (rest xs : List ℕ) → xs ≡ a ∷ rest → erase a xs ≡ rest
erase-head a rest xs order =
    ap (erase a) order ∙ ap (λ b. if b then rest else a ∷ erase a rest) ((==_iff a a).1 refl)

module _ {ℓ κ} {U : Type ℓ} {B : Type κ} (eq : U → U → Bool) (equiv : IsEquivalence eq) where
  -- What an eviction leaves: the invariant, at most the allowed size, the entries behind the first `gone`
  -- ones, of which one fewer would not have been enough, and the content of every entry.
  pub record Evicted (c d : Cache U B) : Type (ℓ ⊔ κ) where
    pub valid : IsCache eq equiv d
    pub fits : d.current_size ≤ d.size_limit
    pub limit : d.size_limit ≡ c.size_limit
    pub gone : ℕ
    pub behind : d.entries ≡ drop gone c.entries
    pub needed : (k : ℕ) → k < gone → c.size_limit < total (buf_len c) (drop k c.entries)
    pub content : (a : ℕ) → (d.store a).buf ≡ (c.store a).buf
    pub next : d.fresh ≡ c.fresh

  stays : (c : Cache U B) → IsCache eq equiv c → c.current_size ≤ c.size_limit → Evicted c c
  stays c i fits = record {
    valid = i;
    fits = fits;
    limit = refl;
    gone = 0;
    behind = refl;
    needed = λ k h. absurd (omega arith);
    content = λ a. refl;
    next = refl;
  }

  -- one more entry goes first
  one_more :
      (c d : Cache U B) (head : ℕ) (rest : List ℕ)
      → c.entries ≡ head ∷ rest
      → IsCache eq equiv c
      → c.size_limit < c.current_size
      → Evicted (removed eq equiv c head) d
      → Evicted c d
  one_more c d head rest order i over v =
      let first = erase-head head rest c.entries order in
      record {
        valid = v.valid;
        fits = v.fits;
        limit = v.limit;
        gone = suc v.gone;
        behind = v.behind ∙ ap (drop v.gone) first ∙ ap (drop (suc v.gone)) (sym order);
        needed = λ k h. needed k h first;
        content = λ a.
            v.content a
            ∙ put-same (λ e. e.buf) c.store head (record (c.store head) { attached = false }) a
                refl;
        next = v.next;
      }
    where
      needed :
          (k : ℕ)
          → k < suc v.gone
          → erase head c.entries ≡ rest
          → c.size_limit < total (buf_len c) (drop k c.entries)
      needed zero h first = omega (arith, over, i.sized)
      needed (suc k) h first =
          let lengths =
            total-same (buf_len c) (buf_len (removed eq equiv c head))
              (drop k (erase head c.entries))
              (λ a _.
                put-same (λ e. length e.buf) c.store head
                  (record (c.store head) { attached = false }) a refl) in
          let same : total (buf_len c) (drop k (erase head c.entries))
              ≡ total (buf_len c) (drop (suc k) c.entries) =
            ap (λ xs. total (buf_len c) (drop k xs)) first
            ∙ ap (λ xs. total (buf_len c) (drop (suc k) xs)) (sym order) in
          omega (arith, v.needed k (omega arith), lengths, same)

  evict_loop-Evicted :
      (fuel : ℕ) (c : Cache U B)
      → length c.entries < fuel
      → IsCache eq equiv c
      → (d : Cache U B) × (evict_loop eq fuel c ≡ done d) × Evicted c d
  unfolding evict_loop
  evict_loop-Evicted zero c enough i = absurd (omega arith)
  evict_loop-Evicted (suc fuel) c enough i = elim (Bool-cases (ltb c.size_limit c.current_size)) [
    | inr fits ↦ (c, rw fits refl, stays c i (ground (arith, fits)))
    | inl over ↦ elim (List-cases c.entries) [
      | inl empty ↦ (
        c,
        ap (λ b. round b c.entries) over ∙ ap (round true) empty,
        stays c i (omega (arith, i.sized, ap (total (buf_len c)) empty)),
      )
      | inr (head, rest, order) ↦
          let inside : member head c.entries ≡ true =
            ap (member head) order ∙ ap (λ b. b || member head rest) ((==_iff head head).1 refl) in
          let (run, valid) = remove_entry-removed eq equiv c head i inside in
          let shorter : length (erase head c.entries) < fuel =
            omega
              (arith, enough, ap length (erase-head head rest c.entries order), ap length order) in
          let (d, more, v) = evict_loop-Evicted fuel (removed eq equiv c head) shorter valid in
          (
            d,
            ap (λ b. round b c.entries) over
                ∙ ap (round true) order
                ∙ ap (λ x. x >>= evict_loop eq fuel) run
                ∙ more,
            one_more c d head rest order i (ltb→lt c.size_limit c.current_size over) v,
          )
    ]
  ]
    where
      round : Bool → List ℕ → Outcome (Cache U B)
      round b xs = if not b then done c else elim xs [
        | [] ↦ done c
        | first ∷ behind ↦ remove_entry eq c first >>= evict_loop eq fuel
      ]

  -- From a cache with the invariant, whose map is an association list, `cache_evict_if_necessary_unsync`
  -- ends and stops at no assertion; what it leaves has the invariant and at most the allowed size, and it
  -- has removed the entries at the front of the list, of which one fewer would have left more than that.
  pub evict-Evicted :
      (c : Cache U B) → IsCache eq equiv c → (d : Cache U B) × (evict eq c ≡ done d) × Evicted c d
  unfolding evict
  evict-Evicted c i = evict_loop-Evicted (length c.entries + 1) c (omega arith) i
