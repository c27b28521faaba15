-- ===== src/Cache/Binding.antt =====
-- `cache_wr_commit` of a.yanin/waxy/src/cache.c keeps the invariant of the cache.
use posix_threads.Common.{
  ℕ, ◌+◌, ◌^◌, ◌<◌, ◌≡◌, refl, sym, ap, ◌∙◌, ◌≢◌, ◌⊎◌, inl, inr, Bool, true, false, ◌&&◌, ◌||◌,
  Option, none, some, List, [], ◌∷◌, ◌++◌, arith, ℕ_discrete, ltb, if◌then◌else◌, ==_iff,
  Bool-cases, Option-cases, ne→==_false, some_inj, none-ne-some, length, Outcome, done, ◌>>=◌,
  assert,
}
use posix_threads.Vec.{u64}
use posix_threads.Cache.Content.{Entry}
use posix_threads.Cache.{member, erase, lookup, Cache, put, buf_len, remove_entry, bind, commit}
use posix_threads.Cache.Ledger.{
  total, member-append, append-Unique, total-append, total-same, total-erase, IsEquivalence,
  lookup_cong, lookup-erase_self,
}
use posix_threads.Cache.Invariant.{
  IsCache, removed, remove_entry-removed, put-here, put-apart, put-same,
}

module _ {ℓ κ} {U : Type ℓ} {B : Type κ} (eq : U → U → Bool) (equiv : IsEquivalence eq) where
  -- an entry that the map does not know goes into the list and the map
  bound-IsCache :
      (c : Cache U B) (id : ℕ)
      → id < c.fresh
      → (c.store id).committed ≡ false
      → lookup eq (c.store id).url c.map ≡ none
      → total (buf_len c) c.entries + buf_len c id < 2 ^ 64
      → IsCache eq equiv c
      → IsCache eq equiv (record c {
        map = ((c.store id).url, id) ∷ c.map;
        entries = c.entries ++ id ∷ [];
        current_size = u64 (c.current_size + buf_len c id);
        store = put c.store id (record (c.store id) { committed = true });
      })
  bound-IsCache c id old uncommitted missing room i =
      let same =
        total-same (buf_len c) (λ a. length (put c.store id e a).buf) longer
          (λ a _. put-same (λ x. length x.buf) c.store id e a refl) in
      let sum = total-append (buf_len c) c.entries (id ∷ []) in
      record {
        sized = omega (arith, same, sum, i.sized, room);
        small = omega (arith, same, sum, room);
        unique = append-Unique id c.entries i.unique outside;
        keys = (missing, i.keys);
        listed = λ a h.
            ap (λ u. lookup eq u grown) (put-same (λ x. x.url) c.store id e a refl)
            ∙ listed a (ℕ_discrete a id) h;
        mapped = λ u a h.
            let (inside, equal) = mapped u a (Bool-cases (eq u (c.store id).url)) h in
            (inside, ap (eq u) (put-same (λ x. x.url) c.store id e a refl) ∙ equal);
        bound = λ a h. bound a (ℕ_discrete a id) h;
        kept = λ a young committed attached.
            member-append a c.entries (id ∷ [])
            ∙ kept a young (ℕ_discrete a id) committed
                (sym (put-same (λ x. x.attached) c.store id e a refl) ∙ attached);
        loose = λ a young free. elim (ℕ_discrete a id) [
          | yes here ↦
              ap (λ b. (put c.store id e b).committed) here
              ∙ ap (λ x. x.committed) (put-here c.store id e)
          | no other ↦
              ap (λ x. x.committed) (put-apart c.store id e a other)
              ∙ i.loose a young (sym (put-same (λ x. x.attached) c.store id e a refl) ∙ free)
        ];
      }
    where
      e : Entry U B
      e = record (c.store id) { committed = true }

      longer : List ℕ
      longer = c.entries ++ id ∷ []

      grown : List (U × ℕ)
      grown = ((c.store id).url, id) ∷ c.map

      outside : member id c.entries ≡ false
      outside = elim (Bool-cases (member id c.entries)) [
        | inl inside ↦ absurd (ground (arith, uncommitted, sym uncommitted ∙ (i.bound id inside).0))
        | inr out ↦ out
      ]

      earlier : (a : ℕ) → a ≢ id → member a longer ≡ true → member a c.entries ≡ true
      earlier a other h =
          ground (arith, sym (member-append a c.entries (id ∷ [])) ∙ h, ne→==_false a id other)

      listed :
          (a : ℕ) → Dec (a ≡ id) → member a longer ≡ true → lookup eq (c.store a).url grown ≡ some a
      listed a (yes here) h =
          ap (λ b. lookup eq (c.store b).url grown) here
          ∙ rw (equiv.reflexive (c.store id).url) (ap some (sym here))
      listed a (no other) h =
          ap (λ b. if b then some id else lookup eq (c.store a).url c.map)
            (apart (Bool-cases (eq (c.store a).url (c.store id).url)))
          ∙ i.listed a (earlier a other h)
        where
          apart :
              ((eq (c.store a).url (c.store id).url ≡ true)
                ⊎ (eq (c.store a).url (c.store id).url ≡ false))
              → eq (c.store a).url (c.store id).url ≡ false
          apart (inl equal) = absurd (
              none-ne-some (
                sym (lookup_cong eq equiv (c.store a).url (c.store id).url c.map equal ∙ missing)
                ∙ i.listed a (earlier a other h)))
          apart (inr differ) = differ

      mapped :
          (u : U) (a : ℕ)
          → ((eq u (c.store id).url ≡ true) ⊎ (eq u (c.store id).url ≡ false))
          → lookup eq u grown ≡ some a
          → (member a longer ≡ true) × (eq u (c.store a).url ≡ true)
      mapped u a (inl equal) h =
          let here : id ≡ a =
            some_inj (ap (λ b. if b then some id else lookup eq u c.map) (sym equal) ∙ h) in
          (
            member-append a c.entries (id ∷ []) ∙ ground (arith, (==_iff a id).1 (sym here)),
            ap (λ b. eq u (c.store b).url) (sym here) ∙ equal,
          )
      mapped u a (inr differ) h =
          let (inside, equal) =
            i.mapped u a (ap (λ b. if b then some id else lookup eq u c.map) (sym differ) ∙ h) in
          (member-append a c.entries (id ∷ []) ∙ ground (arith, inside), equal)

      bound :
          (a : ℕ)
          → Dec (a ≡ id)
          → member a longer ≡ true
          → ((put c.store id e a).committed ≡ true)
            × ((put c.store id e a).attached ≡ true)
            × (a < c.fresh)
      bound a (yes here) h = (
        ap (λ b. (put c.store id e b).committed) here
            ∙ ap (λ x. x.committed) (put-here c.store id e),
        put-same (λ x. x.attached) c.store id e a refl
            ∙ ap (λ b. (c.store b).attached) here
            ∙ attached_yet (Bool-cases (c.store id).attached),
        omega (arith, old, here),
      )
        where
          attached_yet :
              (((c.store id).attached ≡ true) ⊎ ((c.store id).attached ≡ false))
              → (c.store id).attached ≡ true
          attached_yet (inl yes_at) = yes_at
          attached_yet (inr free) = absurd (ground (arith, sym uncommitted ∙ i.loose id old free))
      bound a (no other) h =
          let (committed, attached, before) = i.bound a (earlier a other h) in
          let same = put-apart c.store id e a other in
          (ap (λ x. x.committed) same ∙ committed, ap (λ x. x.attached) same ∙ attached, before)

      kept :
          (a : ℕ)
          → a < c.fresh
          → Dec (a ≡ id)
          → (put c.store id e a).committed ≡ true
          → (c.store a).attached ≡ true
          → (member a c.entries || member a (id ∷ [])) ≡ true
      kept a young (yes here) committed attached = ground (arith, (==_iff a id).1 here)
      kept a young (no other) committed attached = ground (
        arith,
        i.kept a young (ap (λ x. x.committed) (sym (put-apart c.store id e a other)) ∙ committed)
            attached,
      )

  bind-IsCache :
      (c : Cache U B) (list_ok map_ok : Bool) (id : ℕ)
      → id < c.fresh
      → (c.store id).committed ≡ false
      → lookup eq (c.store id).url c.map ≡ none
      → total (buf_len c) c.entries + buf_len c id < 2 ^ 64
      → IsCache eq equiv c
      → IsCache eq equiv (bind eq list_ok map_ok c id).1
  unfolding bind
  bind-IsCache c list_ok map_ok id old uncommitted missing room i =
      elim (Bool-cases (list_ok && map_ok)) [
        | inr refused ↦ rw refused i
        | inl granted ↦ rw granted (bound-IsCache c id old uncommitted missing room i)
      ]

  -- the entry of the same URL goes first
  replace-IsCache :
      (c : Cache U B) (list_ok map_ok : Bool) (id node : ℕ)
      → id < c.fresh
      → (c.store id).committed ≡ false
      → lookup eq (c.store id).url c.map ≡ some node
      → total (buf_len c) c.entries + buf_len c id < 2 ^ 64
      → IsCache eq equiv c
      → (d : Cache U B) × (remove_entry eq c node ≡ done d)
        × IsCache eq equiv (bind eq list_ok map_ok d id).1
  replace-IsCache c list_ok map_ok id node old uncommitted found room i =
      let (inside, equal) = i.mapped (c.store id).url node found in
      let (run, valid) = remove_entry-removed eq equiv c node i inside in
      let d = removed eq equiv c node in
      let other : id ≢ node = λ z.
        absurd (
          ground
            (arith, uncommitted, ap (λ b. (c.store b).committed) z, (i.bound node inside).0)) in
      let same : d.store id ≡ c.store id =
        put-apart c.store node (record (c.store node) { attached = false }) id other in
      let url : (d.store id).url ≡ (c.store id).url = ap (λ x. x.url) same in
      let lengths = total-same (buf_len c) (buf_len d) (erase node c.entries) (λ a _.
        put-same (λ x. length x.buf) c.store node (record (c.store node) { attached = false }) a
          refl) in
      let before = total-erase (buf_len c) node c.entries inside in
      let len : buf_len d id ≡ buf_len c id = ap (λ x. length x.buf) same in
      (
        d,
        run,
        bind-IsCache d list_ok map_ok id old (ap (λ x. x.committed) same ∙ uncommitted)
            (ap (λ u. lookup eq u d.map) url
              ∙ lookup_cong eq equiv (c.store id).url (c.store node).url d.map equal
              ∙ lookup-erase_self eq equiv (c.store node).url c.map i.keys)
            (omega (arith, lengths, before, len, room)) valid,
      )

  -- `cache_wr_commit` of an entry of the store stops at no assertion and keeps the invariant,
  -- whatever length of the stored entry it has read.
  pub commit-IsCache :
      (c : Cache U B) (list_ok map_ok : Bool) (stored_size id : ℕ)
      → id < c.fresh
      → total (buf_len c) c.entries + buf_len c id < 2 ^ 64
      → IsCache eq equiv c
      → (r : Bool × Cache U B) × (commit eq list_ok map_ok stored_size c id ≡ done r)
        × IsCache eq equiv r.1
  unfolding commit
  commit-IsCache c list_ok map_ok stored_size id old room i =
      elim (Bool-cases (c.store id).committed) [
        | inl already ↦ ((false, c), ap (λ b. if b then done (false, c) else checked) already, i)
        | inr uncommitted ↦ elim (Bool-cases (c.store id).attached) [
          | inr free ↦ absurd (ground (arith, sym uncommitted ∙ i.loose id old free))
          | inl attached ↦ elim (Option-cases (lookup eq (c.store id).url c.map)) [
            | inl missing ↦ (
              bind eq list_ok map_ok c id,
              begin uncommitted attached ∙ ap choose missing,
              bind-IsCache c list_ok map_ok id old uncommitted missing room i,
            )
            | inr (node, found) ↦ elim (Bool-cases (ltb stored_size (buf_len c id))) [
              | inl keeps ↦ (
                (false, c),
                begin uncommitted attached ∙ ap choose found ∙ ap (decide node) keeps,
                i,
              )
              | inr replaces ↦
                  let (d, run, valid) =
                    replace-IsCache c list_ok map_ok id node old uncommitted found room i in
                  (
                    bind eq list_ok map_ok d id,
                    begin uncommitted attached
                        ∙ ap choose found
                        ∙ ap (decide node) replaces
                        ∙ ap (λ x. x >>= λ d. done (bind eq list_ok map_ok d id)) run,
                    valid,
                  )
            ]
          ]
        ]
      ]
    where
      decide : ℕ → Bool → Outcome (Bool × Cache U B)
      decide node b =
          if b
          then done (false, c)
          else (remove_entry eq c node >>= λ d. done (bind eq list_ok map_ok d id))

      choose : Option ℕ → Outcome (Bool × Cache U B)
      choose none = done (bind eq list_ok map_ok c id)
      choose (some node) = decide node (ltb stored_size (buf_len c id))

      checked : Outcome (Bool × Cache U B)
      checked = assert (c.store id).attached >>= λ _. choose (lookup eq (c.store id).url c.map)

      begin :
          (c.store id).committed ≡ false
          → (c.store id).attached ≡ true
          → commit eq list_ok map_ok stored_size c id ≡ choose (lookup eq (c.store id).url c.map)
      begin uncommitted attached =
          ap (λ b. if b then done (false, c) else checked) uncommitted
          ∙ ap (λ b. assert b >>= λ _. choose (lookup eq (c.store id).url c.map)) attached
