-- ===== src/Session/Sqlite/Agrees.antt =====
-- sqlite_store.go against store.go: both stores keep the same conversations.
use docsclaw.Base.{
  ℕ, Str, bytes, ◌==◌, Option, none, some, List, [], ◌∷◌, Result, ok, err, ◌≡◌, refl, sym, ap, ◌∙◌,
  subst, Bool-cases, inl, inr, or_else, if◌then◌else◌, eq_iff, lookup,
}
use docsclaw.Llm.{Message, text_message}
use docsclaw.Session
use docsclaw.Session.{
  Session, MemoryStore, new_memory_store, Call, get_or_create_call, append_call, snapshot_call,
  reap_call,
}
use docsclaw.Session.History.{
  history, history-get_or_create, history-append, snapshot-append, HasNoReap,
}
use docsclaw.Session.Sqlite.{
  Database, Codec, find_session, rows_of, get_or_create, get, append, snapshot, append_and_snapshot,
  apply, apply_all, empty_database,
}
use docsclaw.Session.Sqlite.Rows.{IsStorable, working, HasOwners, Stored, missing, kept}
use docsclaw.Session.Sqlite.Appends.{Stored-append, HasOwners-append}
use docsclaw.Session.Sqlite.Creates.{
  load_session-missing, load_session-kept, Stored-get_or_create, HasOwners-get_or_create,
}

-- Each message that the calls append can be stored.
abbrev pub AreStorable : Codec → List Call → Type 0
AreStorable codec [] = Unit
AreStorable codec (append_call now id msg ∷ cs) = IsStorable codec msg × AreStorable codec cs
AreStorable codec (snapshot_call now id msg ∷ cs) = IsStorable codec msg × AreStorable codec cs
AreStorable codec (_ ∷ cs) = AreStorable codec cs

-- The messages that `Get` gives, where there is a session.
pub messages_got : Result Str (Option Session) → Result Str (Option (List Message))
messages_got (err e) = err e
messages_got (ok none) = ok none
messages_got (ok (some sess)) = ok (some sess.messages)

history-created :
    (now : ℕ) (id j prompt : Str) (s : MemoryStore)
    → history (Session.get_or_create now id prompt s).1 j ≡ (
        if id == j
        then some (or_else (history s j) (text_message (bytes "system") prompt ∷ []))
        else history s j)
history-created now id j prompt s =
    history-get_or_create now id j prompt s ∙ (elim (Bool-cases (id == j)) [
      | inl c ↦ rw c (
          ap (λ k. some (or_else (history s k) (text_message (bytes "system") prompt ∷ [])))
            ((eq_iff id j).0 c))
      | inr c ↦ rw c
    ])

module _ (codec : Codec) where
  -- The tables hold the conversations of the store in memory.
  abbrev Agrees : Database → MemoryStore → Type 0
  Agrees db s = HasOwners db × ((j : Str) → Stored codec db j (history s j))

  apply-Agrees_append :
      (now : ℕ) (id : Str) (msg : Message) (db : Database) (s : MemoryStore)
      → IsStorable codec msg
      → Agrees db s
      → Agrees (append codec working now id msg db).1 (Session.append now id msg s)
  apply-Agrees_append now id msg db s can (owners, same) = (
    HasOwners-append codec now id msg db can owners,
    λ j.
        subst (Stored codec (append codec working now id msg db).1 j)
          (sym (history-append now id j msg s))
          (Stored-append codec now id j msg db (history s j) can (same j)),
  )

  snapshot-world :
      (now : ℕ) (id : Str) (msg : Message) (db : Database)
      → (append_and_snapshot codec working now id msg db).1 ≡ (append codec working now id msg db).1
  unfolding append_and_snapshot snapshot
  snapshot-world now id msg db = same (append codec working now id msg db)
    where
      same : (r : Result Str (Unit {0}) × Database) → (snapshot codec working id r).1 ≡ r.1
      same (err e, db') = refl
      same (ok u, db') = refl

  snapshot-Agrees :
      (now : ℕ) (id : Str) (msg : Message) (db : Database) (s : MemoryStore)
      → IsStorable codec msg
      → Agrees db s
      → Agrees
          (append_and_snapshot codec working now id msg db).1
          (Session.append_and_snapshot now id msg s).1
  snapshot-Agrees now id msg db s can h =
      let added = apply-Agrees_append now id msg db s can h in
      let first =
        subst (λ d. Agrees d (Session.append now id msg s)) (sym (snapshot-world now id msg db))
          added in
      subst (Agrees (append_and_snapshot codec working now id msg db).1)
        (sym (snapshot-append now id msg s)) first

  apply_all-Agrees :
      (ttl : ℕ) (cs : List Call) (db : Database) (s : MemoryStore)
      → HasNoReap cs
      → AreStorable codec cs
      → Agrees db s
      → Agrees (apply_all codec working ttl cs db) (Session.apply_all cs s)
  unfolding apply_all apply Session.apply_all Session.apply
  apply_all-Agrees ttl [] db s n can h = h
  apply_all-Agrees ttl (get_or_create_call now id prompt ∷ cs) db s n can (owners, same) =
      apply_all-Agrees ttl cs _ _ n can (
        HasOwners-get_or_create codec now id prompt db _ owners (same id),
        λ j.
            subst (Stored codec (get_or_create codec working now id prompt db).1 j)
              (sym (history-created now id j prompt s))
              (Stored-get_or_create codec now id j prompt db (history s j) _ owners (same id)
                (same j)),
      )
  apply_all-Agrees ttl (append_call now id msg ∷ cs) db s n (can, later) h =
      apply_all-Agrees ttl cs _ _ n later (apply-Agrees_append now id msg db s can h)
  apply_all-Agrees ttl (snapshot_call now id msg ∷ cs) db s n (can, later) h =
      apply_all-Agrees ttl cs _ _ n later (snapshot-Agrees now id msg db s can h)
  apply_all-Agrees ttl (reap_call now ∷ cs) db s n can h = absurd n

  empty-Agrees : (ttl : ℕ) → Agrees empty_database (new_memory_store ttl)
  unfolding find_session rows_of history new_memory_store lookup
  empty-Agrees ttl = (λ id e. refl, λ j. missing refl)

  get-Stored :
      (id : Str) (db : Database) (o : Option (List Message))
      → Stored codec db id o
      → messages_got (get codec working id db) ≡ ok o
  unfolding get messages_got
  get-Stored id db none (missing e) = rw (load_session-missing codec id db e)
  get-Stored id db (some ms) (kept e m) = rw (load_session-kept codec id db _ ms e m)

  -- As long as no statement fails, the reaper does not run, and what is written of each message's
  -- lists is read back, the SQLite store gives for every id the conversation that the store in
  -- memory keeps after the same calls.
  pub get-apply_all :
      (ttl : ℕ) (cs : List Call) (id : Str)
      → HasNoReap cs
      → AreStorable codec cs
      → messages_got (get codec working id (apply_all codec working ttl cs empty_database))
        ≡ ok (history (Session.apply_all cs (new_memory_store ttl)) id)
  get-apply_all ttl cs id n can = get-Stored id (apply_all codec working ttl cs empty_database) _ (
      (apply_all-Agrees ttl cs empty_database (new_memory_store ttl) n can (empty-Agrees ttl)).1 id)
