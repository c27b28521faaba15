-- ===== src/Cache/Invariant.antt =====
-- The invariant of a.yanin/waxy/src/cache.c, which its comment states for the map and the list, with the
-- size that the cache records; and the eviction of entries.
use posix_threads.Common.{
  ℕ, ◌+◌, ◌-◌, ◌^◌, ◌<◌, ◌≡◌, refl, sym, ap, ◌∙◌, ◌≢◌, inl, inr, Bool, true, false, some, arith,
  ℕ_discrete, ==_iff, Bool-cases, le→leb, ne→==_false, some_inj, length, done,
}
use posix_threads.Vec.{u64}
use posix_threads.Cache.Content.{Entry}
use posix_threads.Cache.{
  member, erase, lookup, erase_key, Cache, put, buf_len, unbind, remove_entry,
}
use posix_threads.Cache.Ledger.{
  total, Unique, member-erase, member-erase_self, member-erase_other, erase-Unique, total-same,
  total-erase, IsEquivalence, UniqueKeys, lookup_cong, lookup-erase_other, lookup-erase,
  erase_key-UniqueKeys,
}

module _ {ℓ κ} {U : Type ℓ} {B : Type κ} where
  pub put-here : (s : ℕ → Entry U B) (id : ℕ) (e : Entry U B) → put s id e id ≡ e
  put-here s id e = rw ((==_iff id id).1 refl) refl

  pub put-apart : (s : ℕ → Entry U B) (id : ℕ) (e : Entry U B) (a : ℕ) → a ≢ id → put s id e a ≡ s a
  put-apart s id e a other = rw (ne→==_false a id other) refl

  -- what the new entry has in common with the old one, all entries have
  pub put-same {μ} :
      {X : Type μ} (f : Entry U B → X) (s : ℕ → Entry U B) (id : ℕ) (e : Entry U B) (a : ℕ)
      → f e ≡ f (s id)
      → f (put s id e a) ≡ f (s a)
  put-same f s id e a same = elim (ℕ_discrete a id) [
    | yes here ↦ rw ((==_iff a id).1 here) (same ∙ ap (λ b. f (s b)) (sym here))
    | no other ↦ ap f (put-apart s id e a other)
  ]

module _ {ℓ κ} {U : Type ℓ} {B : Type κ} (eq : U → U → Bool) (equiv : IsEquivalence eq) where
  -- A URL is in the map exactly if an entry with that URL is in the list, and the map leads to it; each
  -- entry of the list has been committed and belongs to the cache; the recorded size is that of the
  -- entries of the list.
  pub record IsCache (c : Cache U B) : Type (ℓ ⊔ κ) where
    pub sized : c.current_size ≡ total (buf_len c) c.entries
    pub small : total (buf_len c) c.entries < 2 ^ 64
    pub unique : Unique c.entries
    pub keys : UniqueKeys eq equiv c.map
    pub listed : (a : ℕ) → member a c.entries ≡ true → lookup eq (c.store a).url c.map ≡ some a
    pub mapped :
        (u : U) (a : ℕ)
        → lookup eq u c.map ≡ some a
        → (member a c.entries ≡ true) × (eq u (c.store a).url ≡ true)
    pub bound :
        (a : ℕ)
        → member a c.entries ≡ true
        → ((c.store a).committed ≡ true) × ((c.store a).attached ≡ true) × (a < c.fresh)
    pub kept :
        (a : ℕ)
        → a < c.fresh
        → (c.store a).committed ≡ true
        → (c.store a).attached ≡ true
        → member a c.entries ≡ true
    pub loose : (a : ℕ) → a < c.fresh → (c.store a).attached ≡ false → (c.store a).committed ≡ true

  abbrev pub removed : Cache U B → ℕ → Cache U B
  removed c id = record c {
    map = erase_key eq (c.store id).url c.map;
    entries = erase id c.entries;
    current_size = u64 (c.current_size + 2 ^ 64 - buf_len c id);
    store = put c.store id (record (c.store id) { attached = false });
  }

  module _ (c : Cache U B) (id : ℕ) (i : IsCache c) (inside : member id c.entries ≡ true) where
    same_url : (a : ℕ) → ((removed c id).store a).url ≡ (c.store a).url
    same_url a = put-same (λ e. e.url) c.store id (record (c.store id) { attached = false }) a refl

    pub same_len : (a : ℕ) → buf_len (removed c id) a ≡ buf_len c a
    same_len a =
        put-same (λ e. length e.buf) c.store id (record (c.store id) { attached = false }) a refl

    not_id : (a : ℕ) → member a (erase id c.entries) ≡ true → a ≢ id
    not_id a h e = absurd (
        ground (
          arith,
          h,
          member-erase_self id c.entries i.unique,
          ap (λ b. member b (erase id c.entries)) e,
        ))

    other_url :
        (a : ℕ) → member a c.entries ≡ true → a ≢ id → eq (c.store a).url (c.store id).url ≡ false
    other_url a h other = elim (Bool-cases (eq (c.store a).url (c.store id).url)) [
      | inl same ↦ absurd (
          other (
            some_inj (
              sym (i.listed a h)
              ∙ lookup_cong eq equiv (c.store a).url (c.store id).url c.map same
              ∙ i.listed id inside)))
      | inr differ ↦ differ
    ]

    smaller :
        total (buf_len (removed c id)) (erase id c.entries) + buf_len c id
        ≡ total (buf_len c) c.entries
    smaller = omega (
      arith,
      total-erase (buf_len c) id c.entries inside,
      total-same (buf_len c) (buf_len (removed c id)) (erase id c.entries) (λ a _. same_len a),
    )

    removed-IsCache : IsCache (removed c id)
    removed-IsCache = record {
      sized = omega (arith, smaller, i.sized, i.small);
      small = omega (arith, smaller, i.small);
      unique = erase-Unique id c.entries i.unique;
      keys = erase_key-UniqueKeys eq equiv (c.store id).url c.map i.keys;
      listed = λ a h.
          let h' = member-erase id a c.entries h in
          ap (λ u. lookup eq u (erase_key eq (c.store id).url c.map)) (same_url a)
          ∙ lookup-erase_other eq equiv (c.store a).url (c.store id).url c.map
              (other_url a h' (not_id a h))
          ∙ i.listed a h';
      mapped = λ u a h.
          let (apart, found) = lookup-erase eq equiv u (c.store id).url c.map a i.keys h in
          let (listed, same) = i.mapped u a found in
          (
            member-erase_other id a c.entries
                  (λ e. absurd (ground (arith, apart, same, ap (λ b. eq u (c.store b).url) e)))
                ∙ listed,
            ap (eq u) (same_url a) ∙ same,
          );
      bound = λ a h.
          let (committed, attached, old) = i.bound a (member-erase id a c.entries h) in
          let same =
            put-apart c.store id (record (c.store id) { attached = false }) a (not_id a h) in
          (ap (λ e. e.committed) same ∙ committed, ap (λ e. e.attached) same ∙ attached, old);
      kept = λ a old committed attached. elim (ℕ_discrete a id) [
        | yes here ↦ absurd (
            ground (
              arith,
              attached,
              ap (λ b. ((removed c id).store b).attached) here,
              ap (λ e. e.attached) (put-here c.store id (record (c.store id) { attached = false })),
            ))
        | no other ↦
            let same = put-apart c.store id (record (c.store id) { attached = false }) a other in
            member-erase_other id a c.entries other
            ∙ i.kept a old (ap (λ e. e.committed) (sym same) ∙ committed)
                (ap (λ e. e.attached) (sym same) ∙ attached)
      ];
      loose = λ a old free. elim (ℕ_discrete a id) [
        | yes here ↦
            put-same (λ e. e.committed) c.store id (record (c.store id) { attached = false }) a refl
            ∙ ap (λ b. (c.store b).committed) here
            ∙ (i.bound id inside).0
        | no other ↦
            let same = put-apart c.store id (record (c.store id) { attached = false }) a other in
            ap (λ e. e.committed) same ∙ i.loose a old (ap (λ e. e.attached) (sym same) ∙ free)
      ];
    }

    -- No assertion of `cache_remove_entry_unsync` fails.
    pub remove_entry-removed : (remove_entry eq c id ≡ done (removed c id)) × IsCache (removed c id)
    unfolding remove_entry unbind
    remove_entry-removed = (
      rw
          (
            inside,
            i.listed id inside,
            le→leb (buf_len c id) c.current_size (omega (arith, smaller, i.sized)),
            (==_iff id id).1 refl,
          )
          refl,
      removed-IsCache,
    )
