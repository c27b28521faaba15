-- ===== src/Cache/Session.antt =====
-- A writer of an entry of a.yanin/waxy/src/cache.c and one of its readers, whatever else happens to the
-- entry between their calls.
use posix_threads.Common.{
  append-take-drop, take-append_short, ℕ, ◌+◌, ◌-◌, ◌^◌, ◌≤◌, ◌<◌, ◌≡◌, refl, sym, ap, ◌∙◌, ◌⊎◌,
  inl, inr, Bool, true, false, not, ◌&&◌, ◌||◌, List, [], ◌++◌, arith, ltb, leb, ◌==◌,
  if◌then◌else◌, leb→le, Bool-cases, length, length-append, take, drop,
}
use mathlib.Core.Path.{subst}
use posix_threads.Vec.{u64}
use posix_threads.Cache.Content.{
  EntryState, same_state, Reader, Entry, wake, set_state, write, finish, drop_writer, new_reader,
  read, drop_reader,
}

-- The entry, the handle of a reader, whether the write handle is still there, the bytes that the reader
-- has got so far, and whether it has been told that they are all.
pub record Session {ℓ κ} (U : Type ℓ) (B : Type κ) : Type (ℓ ⊔ κ) where
  pub entry : Entry U B
  pub reader : Reader
  pub writer : Bool
  pub seen : List B
  pub ended : Bool

module _ {ℓ κ} {U : Type ℓ} {B : Type κ} where
  -- What can happen next. A buffer has less than 2^64 bytes.
  pub data Step (s u : Session U B) : Type (ℓ ⊔ κ) where
    writes :
        (grant : Bool) (slice : List B)
        → s.writer ≡ true
        → length s.entry.buf + length slice < 2 ^ 64
        → u ≡ record s { entry = (write grant s.entry slice).1 }
        → Step s u
    finishes : s.writer ≡ true → u ≡ record s { entry = finish s.entry } → Step s u
    drops :
        s.writer ≡ true → u ≡ record s { entry = drop_writer s.entry; writer = false } → Step s u
    reads :
        (size : ℕ)
        → u ≡ record s {
          reader = (read s.entry s.reader size).1;
          seen = s.seen ++ (read s.entry s.reader size).0;
          ended = s.ended || (read s.entry s.reader size).2;
        }
        → Step s u
    joins : (name : ℕ) → u ≡ record s { entry = new_reader name s.entry } → Step s u
    leaves : (name : ℕ) → u ≡ record s { entry = drop_reader name s.entry } → Step s u

  pub data Reaches (s : Session U B) : Session U B → Type (ℓ ⊔ κ) where
    here : Reaches s s
    next : {t u : Session U B} → Reaches s t → Step t u → Reaches s u

  -- The reader has got the first bytes of the buffer, and all of them once it has been told so.
  pub record IsPrefix (s : Session U B) : Type (ℓ ⊔ κ) where
    pub got : s.seen ≡ take s.reader.count s.entry.buf
    pub within : s.reader.count ≤ length s.entry.buf
    pub small : length s.entry.buf < 2 ^ 64
    pub all :
        s.ended ≡ true
        → (s.reader.count ≡ length s.entry.buf)
          × (same_state s.entry.state EntryState.partial ≡ false)
    pub no_writer : same_state s.entry.state EntryState.invalid ≡ true → s.writer ≡ false

  -- a change of the entry that leaves the buffer alone and does not end it
  entry-IsPrefix :
      (s : Session U B) (e : Entry U B) (w : Bool)
      → e.buf ≡ s.entry.buf
      → (same_state s.entry.state EntryState.partial ≡ false
          → same_state e.state EntryState.partial ≡ false)
      → (same_state e.state EntryState.invalid ≡ true → w ≡ false)
      → IsPrefix s
      → IsPrefix (record s { entry = e; writer = w })
  entry-IsPrefix s e w same kept off i = record {
    got = i.got ∙ ap (take s.reader.count) (sym same);
    within = rw same i.within;
    small = rw same i.small;
    all = λ told. let (full, over) = i.all told in (full ∙ ap length (sym same), kept over);
    no_writer = off;
  }

  write-IsPrefix :
      (s : Session U B) (grant : Bool) (slice : List B)
      → s.writer ≡ true
      → length s.entry.buf + length slice < 2 ^ 64
      → IsPrefix s
      → IsPrefix (record s { entry = (write grant s.entry slice).1 })
  unfolding write wake
  write-IsPrefix s grant slice writing room i = elim (Bool-cases (length slice == 0)) [
    | inl nothing ↦ rw nothing i
    | inr some_bytes ↦ elim (Bool-cases (same_state s.entry.state EntryState.complete)) [
      | inl closed ↦ rw (some_bytes, closed) i
      | inr unfinished ↦ elim (Bool-cases grant) [
        | inr refused ↦ rw (some_bytes, unfinished, refused) i
        | inl granted ↦
            rw (some_bytes, unfinished, granted)
              (record {
                got = i.got ∙ sym (take-append_short s.reader.count s.entry.buf slice i.within);
                within = omega (arith, i.within, length-append s.entry.buf slice);
                small = omega (arith, room, length-append s.entry.buf slice);
                all =
                    λ told. absurd (still_open s.entry.state unfinished (i.all told).1 i.no_writer);
                no_writer = i.no_writer;
              })
      ]
    ]
  ]
    where
      still_open :
          (e : EntryState)
          → same_state e EntryState.complete ≡ false
          → same_state e EntryState.partial ≡ false
          → (same_state e EntryState.invalid ≡ true → s.writer ≡ false)
          → ⊥
      still_open EntryState.complete a b c = ground (arith, a)
      still_open EntryState.partial a b c = ground (arith, b)
      still_open EntryState.invalid a b c = ground (arith, c refl, writing)

  read-IsPrefix :
      (s : Session U B) (size : ℕ)
      → IsPrefix s
      → IsPrefix (record s {
        reader = (read s.entry s.reader size).1;
        seen = s.seen ++ (read s.entry s.reader size).0;
        ended = s.ended || (read s.entry s.reader size).2;
      })
  unfolding read
  read-IsPrefix s size i =
      let n = s.reader.count in
      let len = length s.entry.buf in
      let unread : ℕ = u64 (len + 2 ^ 64 - n) in
      let copied : ℕ = if ltb unread size then unread else size in
      let left : unread ≡ len - n = omega (arith, i.within, i.small) in
      let most : copied ≤ len - n = ground (arith, left) in
      let sum : u64 (n + copied) ≡ n + copied = omega (arith, most, i.within, i.small) in
      record {
        got =
            ap (λ bs. bs ++ take copied (drop n s.entry.buf)) i.got
            ∙ append-take-drop n copied s.entry.buf
            ∙ ap (λ m. take m s.entry.buf) (sym sum);
        within = omega (arith, sum, most, i.within);
        small = i.small;
        all = λ told. elim (Bool-cases s.ended) [
          | inl before ↦ let (full, over) = i.all before in (omega (arith, sum, most, full), over)
          | inr going ↦
              let (over, reached) =
                both s.ended (same_state s.entry.state EntryState.partial)
                  (leb len (u64 (n + copied))) going told in
              (omega (arith, leb→le len (u64 (n + copied)) reached, sum, most, i.within), over)
        ];
        no_writer = i.no_writer;
      }
    where
      both : (a b c : Bool) → a ≡ false → (a || not b && c) ≡ true → (b ≡ false) × (c ≡ true)
      both a b c h told = ground (arith, h, told)

  set_state-IsPrefix :
      (s : Session U B) (state : EntryState) (w : Bool)
      → same_state state EntryState.partial ≡ false
      → (w ≡ true → same_state state EntryState.invalid ≡ false)
      → (s.writer ≡ false → w ≡ false)
      → IsPrefix s
      → IsPrefix (record s { entry = set_state s.entry state; writer = w })
  unfolding set_state wake
  set_state-IsPrefix s state w later writing fewer i =
      elim (Bool-cases (same_state s.entry.state state)) [
        | inl same ↦
            rw same (entry-IsPrefix s s.entry w refl (λ h. h) (λ off. fewer (i.no_writer off)) i)
        | inr other ↦ elim (Bool-cases (same_state s.entry.state EntryState.invalid)) [
          | inl off ↦
              rw (other, off)
                (entry-IsPrefix s s.entry w refl (λ h. h) (λ off. fewer (i.no_writer off)) i)
          | inr valid ↦
              rw (other, valid)
                (entry-IsPrefix s (wake (record s.entry { state = state })) w refl (λ _. later)
                  (λ off. no_writing off (Bool-cases w)) i)
        ]
      ]
    where
      no_writing :
          same_state state EntryState.invalid ≡ true → ((w ≡ true) ⊎ (w ≡ false)) → w ≡ false
      no_writing off (inl yes_w) = absurd (ground (arith, writing yes_w, off))
      no_writing off (inr no_w) = no_w

  drop-IsPrefix :
      (s : Session U B)
      → IsPrefix s
      → IsPrefix (record s { entry = drop_writer s.entry; writer = false })
  unfolding drop_writer
  drop-IsPrefix s i = elim (Bool-cases (same_state s.entry.state EntryState.partial)) [
    | inl unfinished ↦ rw unfinished (
        set_state-IsPrefix s EntryState.invalid false refl (λ e. absurd (ground (arith, e)))
          (λ _. refl) i)
    | inr over ↦ rw over (entry-IsPrefix s s.entry false refl (λ h. h) (λ _. refl) i)
  ]

  Step-IsPrefix : (s u : Session U B) → Step s u → IsPrefix s → IsPrefix u
  unfolding finish new_reader drop_reader
  Step-IsPrefix s u (writes grant slice writing room e) i =
      subst IsPrefix (sym e) (write-IsPrefix s grant slice writing room i)
  Step-IsPrefix s u (finishes writing e) i =
      subst IsPrefix (sym e)
        (set_state-IsPrefix s EntryState.complete s.writer refl (λ _. refl) (λ h. h) i)
  Step-IsPrefix s u (drops writing e) i = subst IsPrefix (sym e) (drop-IsPrefix s i)
  Step-IsPrefix s u (reads size e) i = subst IsPrefix (sym e) (read-IsPrefix s size i)
  Step-IsPrefix s u (joins name e) i =
      subst IsPrefix (sym e)
        (entry-IsPrefix s (new_reader name s.entry) s.writer refl (λ h. h) i.no_writer i)
  Step-IsPrefix s u (leaves name e) i =
      subst IsPrefix (sym e)
        (entry-IsPrefix s (drop_reader name s.entry) s.writer refl (λ h. h) i.no_writer i)

  -- Whatever the writer of an entry and its readers do, in any order, from a reader that has read
  -- nothing on: the bytes that the reader has got are the first ones of the buffer, in order and without
  -- a gap; and once `*eof` has been set, they are all bytes of the buffer, which then grows no more.
  pub Reaches-IsPrefix :
      (s u : Session U B)
      → s.reader.count ≡ 0
      → s.seen ≡ []
      → s.ended ≡ false
      → length s.entry.buf < 2 ^ 64
      → (same_state s.entry.state EntryState.invalid ≡ true → s.writer ≡ false)
      → Reaches s u
      → IsPrefix u
  Reaches-IsPrefix s u none_yet unread going room off here = record {
    got = unread ∙ ap (λ n. take n s.entry.buf) (sym none_yet);
    within = omega (arith, none_yet);
    small = room;
    all = λ told. absurd (ground (arith, going, told));
    no_writer = off;
  }
  Reaches-IsPrefix s u none_yet unread going room off (next {t = t} r st) =
      Step-IsPrefix t u st (Reaches-IsPrefix s t none_yet unread going room off r)
