-- ===== src/Session/Sqlite/Creates.antt =====
-- sqlite_store.go, loadSession and GetOrCreate where no statement fails.
use docsclaw.Base.{
  ℕ, Str, bytes, ◌==◌, eq_iff, Option, none, some, List, [], ◌∷◌, ◌++◌, Bool, true, false, ◌||◌,
  if◌then◌else◌, ok, is_some, ◌≡◌, refl, sym, ap, ◌∙◌, arith, Bool-cases, Option-cases, inl, inr,
  or_else,
}
use docsclaw.Llm.{Message, text_message}
use docsclaw.Session.Sqlite.{
  SessionRow, MessageRow, Database, Codec, find_session, rows_of, insert_by_seq, order_by_seq,
  insert_unique, unmarshalled, message_of, messages_of, run, load_session, create_rows, committed,
  executed, passed, inserted_session, inserted_message, created, get_or_create,
}
use docsclaw.Session.Sqlite.Rows.{
  rows_of-append, any-rows_of, find_session-append, is_some-false, working, HasOwners, Stored,
  missing, kept,
}

module _ (codec : Codec) where
  pub load_session-missing :
      (id : Str) (db : Database)
      → find_session id db.sessions ≡ none
      → load_session codec working id db ≡ ok none
  unfolding load_session run
  load_session-missing id db e = rw e

  pub load_session-kept :
      (id : Str) (db : Database) (row : SessionRow) (ms : List Message)
      → find_session id db.sessions ≡ some row
      → messages_of codec (order_by_seq (rows_of id db.messages)) ≡ ok ms
      → load_session codec working id db
        ≡ ok (
            some (record {
              id = id;
              messages = ms;
              created_at = codec.parse_time row.created_at;
              last_active = codec.parse_time row.last_active;
            }))
  unfolding load_session run
  load_session-kept id db row ms e m = rw (e, m)

  abbrev first_row : Str → Str → MessageRow
  first_row id prompt = record {
    session_id = id;
    seq = 0;
    role = bytes "system";
    content = prompt;
    tool_calls = none;
    tool_results = none;
  }

  abbrev first_session : ℕ → Str → Str → SessionRow
  first_session now id prompt = record {
    id = id;
    system_prompt = prompt;
    created_at = codec.format_time now;
    last_active = codec.format_time now;
  }

  abbrev created_db : ℕ → Str → Str → Database → Database
  created_db now id prompt db = record {
    sessions = db.sessions ++ first_session now id prompt ∷ [];
    messages = db.messages ++ first_row id prompt ∷ [];
  }

  insert_unique-first_row :
      (id prompt : Str) (rows : List MessageRow)
      → rows_of id rows ≡ []
      → insert_unique (first_row id prompt) rows ≡ ok (rows ++ first_row id prompt ∷ [])
  unfolding insert_unique
  insert_unique-first_row id prompt rows h = rw (any-rows_of id 0 rows, h)

  create_rows-working :
      (now : ℕ) (id prompt : Str) (db : Database)
      → rows_of id db.messages ≡ []
      → create_rows codec working now id prompt db ≡ (ok tt, created_db now id prompt db)
  unfolding create_rows executed passed inserted_session inserted_message run
  create_rows-working now id prompt db h = rw (insert_unique-first_row id prompt db.messages h)

  create-missing :
      (now : ℕ) (id prompt : Str) (db : Database)
      → HasOwners db
      → find_session id db.sessions ≡ none
      → (get_or_create codec working now id prompt db).1 ≡ created_db now id prompt db
  unfolding get_or_create committed created
  create-missing now id prompt db h e =
      rw (load_session-missing id db e, get_or_create)
        (rw (create_rows-working now id prompt db (h id e)))

  create-kept :
      (now : ℕ) (id prompt : Str) (db : Database) (row : SessionRow) (ms : List Message)
      → find_session id db.sessions ≡ some row
      → messages_of codec (order_by_seq (rows_of id db.messages)) ≡ ok ms
      → (get_or_create codec working now id prompt db).1 ≡ db
  unfolding get_or_create
  create-kept now id prompt db row ms e m = rw (load_session-kept id db row ms e m, get_or_create)

  created-found :
      (now : ℕ) (id j prompt : Str) (db : Database)
      → is_some (find_session j (created_db now id prompt db).sessions)
        ≡ (is_some (find_session j db.sessions) || id == j)
  created-found now id j prompt db = find_session-append j db.sessions (first_session now id prompt)

  message_of-first_row :
      (id prompt : Str)
      → message_of codec (first_row id prompt) ≡ ok (text_message (bytes "system") prompt)
  unfolding message_of unmarshalled
  message_of-first_row id prompt = refl

  find_session-kept :
      (j : Str) (rows : List SessionRow) (row last : SessionRow)
      → find_session j rows ≡ some row
      → find_session j (rows ++ last ∷ []) ≡ some row
  unfolding find_session
  find_session-kept j [] row last h = absurd (cc)
  find_session-kept j (r ∷ rows) row last h = ground (arith, find_session-kept j rows row last)

  first_messages :
      (id prompt : Str)
      → messages_of codec (order_by_seq (first_row id prompt ∷ []))
        ≡ ok (text_message (bytes "system") prompt ∷ [])
  unfolding messages_of order_by_seq insert_by_seq
  first_messages id prompt = rw (message_of-first_row id prompt)

  or_true : (b : Bool) → (b || true) ≡ true
  or_true b = ground arith

  -- what `GetOrCreate` does to each conversation
  Stored-created :
      (now : ℕ) (id j prompt : Str) (db : Database) (o : Option (List Message))
      → HasOwners db
      → find_session id db.sessions ≡ none
      → Stored codec db j o
      → Stored codec
          (created_db now id prompt db)
          j
          (if id == j then some (or_else o (text_message (bytes "system") prompt ∷ [])) else o)
  Stored-created now id j prompt db none owners gone (missing e) = elim (Bool-cases (id == j)) [
    | inl c ↦ elim (Option-cases (find_session j (created_db now id prompt db).sessions)) [
      | inl none_found ↦ absurd (
          cc (
            none_found,
            c,
            created-found now id j prompt db,
            or_true (is_some (find_session j db.sessions)),
          ))
      | inr (row, found) ↦
          rw c (kept found (rw (rows_of-append, c, owners j e) (first_messages id prompt)))
    ]
    | inr c ↦ rw c (missing (is_some-false _ (created-found now id j prompt db ∙ (rw (e, c)))))
  ]
  Stored-created now id j prompt db (some ms) owners gone (kept e m) = elim (Bool-cases (id == j)) [
    | inl c ↦
        let same = ap (λ k. find_session k db.sessions) ((eq_iff id j).0 c) in
        absurd (cc (e, gone, same))
    | inr c ↦ rw c (kept (find_session-kept j db.sessions _ _ e) (rw (rows_of-append, c) m))
  ]

  pub Stored-get_or_create :
      (now : ℕ) (id j prompt : Str) (db : Database) (o p : Option (List Message))
      → HasOwners db
      → Stored codec db id p
      → Stored codec db j o
      → Stored codec
          (get_or_create codec working now id prompt db).1
          j
          (if id == j then some (or_else o (text_message (bytes "system") prompt ∷ [])) else o)
  Stored-get_or_create now id j prompt db o none owners (missing gone) h =
      rw (create-missing now id prompt db owners gone)
        (Stored-created now id j prompt db o owners gone h)
  Stored-get_or_create now id j prompt db o (some ms) owners (kept e m) h =
      rw (create-kept now id prompt db _ ms e m) (same o h)
    where
      same :
          (o : Option (List Message))
          → Stored codec db j o
          → Stored codec db j
              (if id == j then some (or_else o (text_message (bytes "system") prompt ∷ [])) else o)
      same none (missing gone) = elim (Bool-cases (id == j)) [
        | inl c ↦
            let ids = ap (λ k. find_session k db.sessions) ((eq_iff id j).0 c) in
            absurd (cc (e, gone, ids))
        | inr c ↦ rw c (missing gone)
      ]
      same (some ns) (kept f n) = elim (Bool-cases (id == j)) [
        | inl c ↦ rw c (kept f n)
        | inr c ↦ rw c (kept f n)
      ]

  pub HasOwners-get_or_create :
      (now : ℕ) (id prompt : Str) (db : Database) (p : Option (List Message))
      → HasOwners db
      → Stored codec db id p
      → HasOwners (get_or_create codec working now id prompt db).1
  HasOwners-get_or_create now id prompt db (some ms) owners (kept e m) =
      rw (create-kept now id prompt db _ ms e m) owners
  HasOwners-get_or_create now id prompt db none owners (missing gone) =
      rw (create-missing now id prompt db owners gone) (λ j missing_j. owned j missing_j)
    where
      owned :
          (j : Str)
          → find_session j (created_db now id prompt db).sessions ≡ none
          → rows_of j (created_db now id prompt db).messages ≡ []
      owned j nothing =
          let found = created-found now id j prompt db in
          let neither : (is_some (find_session j db.sessions) || id == j) ≡ false =
            sym found ∙ ap (λ (o : Option SessionRow). is_some o) nothing in
          let other : (id == j) ≡ false = ground (arith, neither) in
          let no_session : is_some (find_session j db.sessions) ≡ false = ground (arith, neither) in
          rw (rows_of-append, other) (owners j (is_some-false _ no_session))
