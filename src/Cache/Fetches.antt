-- ===== src/Cache/Fetches.antt =====
-- `cache_fetch` of a.yanin/waxy/src/cache.c keeps the invariant of the cache.
use posix_threads.Common.{
  ℕ, ◌+◌, ◌≡◌, refl, sym, ap, ◌∙◌, inl, inr, Bool, true, false, ◌||◌, [], ◌∷◌, ◌++◌, arith,
  ℕ_discrete, ==_iff, Bool-cases, Option-cases, ne→==_false, length, done, ◌>>=◌,
}
use posix_threads.Cache.Content.{EntryState, same_state, Entry, new_reader}
use posix_threads.Cache.{
  member, erase, lookup, Cache, Fetched, put, buf_len, create_entry, create_handle, fetch,
}
use posix_threads.Cache.Ledger.{
  member-append, member-erase_self, member-erase_other, erase-Unique, append-Unique, total-append,
  total-same, total-erase, IsEquivalence,
}
use posix_threads.Cache.Invariant.{IsCache, put-here, put-apart, put-same}
use posix_threads.Cache.Evict.{evict-Evicted}
use posix_threads.Cache.Calls.{Alike-IsCache}

module _ {ℓ κ} {U : Type ℓ} {B : Type κ} (eq : U → U → Bool) (equiv : IsEquivalence eq) where
  abbrev blank : U → Entry U B
  blank url = record {
    url = url;
    buf = [];
    state = EntryState.partial;
    attached = true;
    committed = false;
    handles = [];
  }

  -- a new entry in the store, which the cache does not know yet
  extended-IsCache :
      (c : Cache U B) (e : Entry U B)
      → e.attached ≡ true
      → e.committed ≡ false
      → IsCache eq equiv c
      → IsCache eq equiv (record c { store = put c.store c.fresh e; fresh = c.fresh + 1 })
  extended-IsCache c e attached uncommitted i =
      let same =
        total-same (buf_len c) (λ a. length (put c.store c.fresh e a).buf) c.entries
          (λ a inside. ap (λ x. length x.buf) (older a inside)) in
      record {
        sized = i.sized ∙ sym same;
        small = omega (arith, same, i.small);
        unique = i.unique;
        keys = i.keys;
        listed = λ a h. ap (λ x. lookup eq x.url c.map) (older a h) ∙ i.listed a h;
        mapped = λ u a h.
            let (inside, equal) = i.mapped u a h in
            (inside, ap (λ x. eq u x.url) (older a inside) ∙ equal);
        bound = λ a h.
            let (committed, bound, old) = i.bound a h in
            (
              ap (λ x. x.committed) (older a h) ∙ committed,
              ap (λ x. x.attached) (older a h) ∙ bound,
              omega (arith, old),
            );
        kept = λ a old committed bound. elim (ℕ_discrete a c.fresh) [
          | yes newest ↦
              absurd (
                ground (arith, uncommitted, sym (at_fresh (λ x. x.committed) a newest) ∙ committed))
          | no other ↦
              let same = put-apart c.store c.fresh e a other in
              i.kept a (omega (arith, old, other)) (ap (λ x. x.committed) (sym same) ∙ committed)
                (ap (λ x. x.attached) (sym same) ∙ bound)
        ];
        loose = λ a old free. elim (ℕ_discrete a c.fresh) [
          | yes newest ↦
              absurd (ground (arith, attached, sym (at_fresh (λ x. x.attached) a newest) ∙ free))
          | no other ↦
              let same = put-apart c.store c.fresh e a other in
              ap (λ x. x.committed) same
              ∙ i.loose a (omega (arith, old, other)) (ap (λ x. x.attached) (sym same) ∙ free)
        ];
      }
    where
      older : (a : ℕ) → member a c.entries ≡ true → put c.store c.fresh e a ≡ c.store a
      older a h = put-apart c.store c.fresh e a (λ z. absurd (omega (arith, (i.bound a h).2, z)))

      at_fresh : (f : Entry U B → Bool) (a : ℕ) → a ≡ c.fresh → f (put c.store c.fresh e a) ≡ f e
      at_fresh f a newest =
          ap (λ b. f (put c.store c.fresh e b)) newest ∙ ap f (put-here c.store c.fresh e)

  create_entry-IsCache :
      (c : Cache U B) (grant : Bool) (name : ℕ) (url : U)
      → IsCache eq equiv c
      → IsCache eq equiv (create_entry eq grant name c url).1
  unfolding create_entry new_reader
  create_entry-IsCache c grant name url i = elim (Bool-cases grant) [
    | inr refused ↦ rw refused i
    | inl granted ↦ rw granted (extended-IsCache c (new_reader name (blank url)) refl refl i)
  ]

  -- a fetched entry goes to the end of the list
  moved-IsCache :
      (c : Cache U B) (id name : ℕ)
      → member id c.entries ≡ true
      → IsCache eq equiv c
      → IsCache eq equiv (record c {
        entries = erase id c.entries ++ id ∷ [];
        store = put c.store id (new_reader name (c.store id));
      })
  unfolding new_reader
  moved-IsCache c id name inside i =
      let e = new_reader name (c.store id) in
      let moved = erase id c.entries ++ id ∷ [] in
      let sum = total-append (buf_len c) (erase id c.entries) (id ∷ []) in
      let same =
        total-same (buf_len c) (λ a. length (put c.store id e a).buf) moved
          (λ a _. put-same (λ x. length x.buf) c.store id e a refl) in
      let before = total-erase (buf_len c) id c.entries inside in
      Alike-IsCache eq equiv c (record c { entries = moved; store = put c.store id e })
        (record {
          map = refl;
          fresh = refl;
          members = λ a. member-append a (erase id c.entries) (id ∷ []) ∙ again a (ℕ_discrete a id);
          url = λ a. put-same (λ x. x.url) c.store id e a refl;
          attached = λ a. put-same (λ x. x.attached) c.store id e a refl;
          committed = λ a. put-same (λ x. x.committed) c.store id e a refl;
        })
        (append-Unique id (erase id c.entries) (erase-Unique id c.entries i.unique)
          (member-erase_self id c.entries i.unique))
        (omega (arith, sum, same, before, i.sized)) (omega (arith, sum, same, before, i.small)) i
    where
      again :
          (a : ℕ)
          → Dec (a ≡ id)
          → (member a (erase id c.entries) || member a (id ∷ [])) ≡ member a c.entries
      again a (yes here) =
          ground (arith, inside, (==_iff a id).1 here, ap (λ b. member b c.entries) here)
      again a (no other) =
          ground (arith, member-erase_other id a c.entries other, ne→==_false a id other)

  create_handle-IsCache :
      (c : Cache U B) (grant : Bool) (name id : ℕ) (url : U)
      → member id c.entries ≡ true
      → IsCache eq equiv c
      → (r : Fetched × Cache U B) × (create_handle eq grant name c id url ≡ done r)
        × IsCache eq equiv r.1
  unfolding create_handle
  create_handle-IsCache c grant name id url inside i =
      elim (Bool-cases (same_state (c.store id).state EntryState.invalid)) [
        | inl off ↦
            let (d, run, v) = evict-Evicted eq equiv c i in
            (
              create_entry eq grant name d url,
              rw off (ap (λ x. x >>= λ d. done (create_entry eq grant name d url)) run),
              create_entry-IsCache d grant name url v.valid,
            )
        | inr valid ↦ elim (Bool-cases grant) [
          | inr refused ↦ ((Fetched.failed, c), rw (valid, refused) refl, i)
          | inl granted ↦ (
            (
              Fetched.hit id,
              record c {
                entries = erase id c.entries ++ id ∷ [];
                store = put c.store id (new_reader name (c.store id));
              },
            ),
            rw (valid, granted, inside) refl,
            moved-IsCache c id name inside i,
          )
        ]
      ]

  -- `cache_fetch` stops at no assertion and keeps the invariant.
  pub fetch-IsCache :
      (c : Cache U B) (grant : Bool) (name : ℕ) (url : U)
      → IsCache eq equiv c
      → (r : Fetched × Cache U B) × (fetch eq grant name c url ≡ done r) × IsCache eq equiv r.1
  unfolding fetch
  fetch-IsCache c grant name url i = elim (Option-cases (lookup eq url c.map)) [
    | inl missing ↦
        let (d, run, v) = evict-Evicted eq equiv c i in
        (
          create_entry eq grant name d url,
          rw (fetch, missing) (ap (λ x. x >>= λ d. done (create_entry eq grant name d url)) run),
          create_entry-IsCache d grant name url v.valid,
        )
    | inr (id, found) ↦
        let (r, run, valid) =
          create_handle-IsCache c grant name id url (i.mapped url id found).0 i in
        (r, rw (fetch, found) run, valid)
  ]
