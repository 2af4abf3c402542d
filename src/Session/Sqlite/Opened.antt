-- ===== src/Session/Sqlite/Opened.antt =====
-- sqlite_store.go: the system message of each session, whatever the driver fails.
use docsclaw.Base.{
  ℕ, ◌-◌, Str, bytes, Option, Option-cases, Result-cases, none, [], ◌∷◌, ◌++◌, Result, ok, err, inl,
  inr, ◌≡◌, refl, sym, subst, ap, ◌∙◌,
}
use docsclaw.Llm.{Message}
use docsclaw.Session.Sqlite.Rows.{new_row}
use docsclaw.Session.{Session, Call, get_or_create_call, append_call, snapshot_call, reap_call}
use docsclaw.Session.Sqlite.{
  SessionRow, MessageRow, Database, Statement, Codec, find_session, load_session, passed,
  inserted_session, inserted_message, updated_active, encoded, create_rows, committed, created,
  fresh_session, get_or_create, insert_rows, append_rows, append, snapshot, append_and_snapshot,
  live_sessions, reap, apply, empty_database, begin_tx, insert_system, select_seq, insert_message,
  select_exists,
}
use docsclaw.Session.Sqlite.SystemRows.{
  HasSystemRow, IsOpened, Mem-last, HasSystemRow-grow, All-last, HasSystemRow-set_active,
  HasSystemRow-kept, live_sessions-All,
}
use docsclaw.Session.Sqlite.Statements.{
  executed-ok, passed-ok, inserted_session-ok, inserted_message-ok, updated_active-ok,
}

-- The tables after calls from two empty ones; in each call, the driver may fail other statements.
pub data Reached (codec : Codec) (ttl : ℕ) : Database → Type 0 where
  opened : Reached codec ttl empty_database
  called :
      {db : Database} (io : Statement → Option Str) (c : Call)
      → Reached codec ttl db
      → Reached codec ttl (apply codec io ttl c db)

abbrev system_row : Str → Str → MessageRow
system_row id prompt = record {
  session_id = id;
  seq = 0;
  role = bytes "system";
  content = prompt;
  tool_calls = none;
  tool_results = none;
}

abbrev session_row : Codec → ℕ → Str → Str → SessionRow
session_row codec now id prompt = record {
  id = id;
  system_prompt = prompt;
  created_at = codec.format_time now;
  last_active = codec.format_time now;
}

module _ (codec : Codec) where
  module _ (io : Statement → Option Str) where
    create_rows-IsOpened :
        (now : ℕ) (id prompt : Str) (db t : Database)
        → IsOpened db
        → create_rows codec io now id prompt db ≡ (ok tt, t)
        → IsOpened t
    unfolding create_rows
    create_rows-IsOpened now id prompt db t h e =
        let sess = session_row codec now id prompt in
        let row = system_row id prompt in
        let (db1, begun, e1) =
          executed-ok codec io (passed codec io "begin tx: " begin_tx db) db t _ e in
        let (db2, with_session, e2) =
          executed-ok codec io (inserted_session codec io sess db1) db1 t _ e1 in
        let (db3, with_message, e3) =
          executed-ok codec io
            (inserted_message codec io "insert system message: " insert_system row db2) db2 t _
            e2 in
        let h1 = subst IsOpened (passed-ok codec io _ _ db db1 begun) h in
        let opened : IsOpened (record db1 {
          sessions = db1.sessions ++ sess ∷ [];
          messages = db1.messages ++ row ∷ [];
        }) =
          All-last _ db1.sessions sess (HasSystemRow-grow db1.sessions db1.messages row h1) (
            row,
            Mem-last row db1.messages,
            record { of_session = refl; at_first = refl; by_system = refl; with_prompt = refl },
          ) in
        let same2 = inserted_session-ok codec io sess db1 db2 with_session in
        let same3 = inserted_message-ok codec io _ _ row db2 db3 with_message in
        subst IsOpened
          (ap (λ (d : Database). record d { messages = d.messages ++ row ∷ [] }) same2
            ∙ same3
            ∙ ap (λ (p : Result Str (Unit {0}) × Database). p.1) e3)
          opened

    insert_rows-IsOpened :
        (now : ℕ) (id : Str) (msg : Message) (calls results : Option Str) (db t : Database)
        → IsOpened db
        → insert_rows codec io now id msg calls results db ≡ (ok tt, t)
        → IsOpened t
    unfolding insert_rows
    insert_rows-IsOpened now id msg calls results db t h e =
        let (db1, read, e1) =
          executed-ok codec io (passed codec io "get next seq: " select_seq db) db t _ e in
        let row = new_row id msg calls results db1.messages in
        let (db2, with_message, e2) =
          executed-ok codec io (inserted_message codec io "insert message: " insert_message row db1)
            db1 t _ e1 in
        let (db3, with_active, e3) =
          executed-ok codec io (updated_active codec io now id db2) db2 t _ e2 in
        let h1 = subst IsOpened (passed-ok codec io _ _ db db1 read) h in
        let h2 =
          subst IsOpened (inserted_message-ok codec io _ _ row db1 db2 with_message)
            (HasSystemRow-grow db1.sessions db1.messages row h1) in
        subst IsOpened
          (updated_active-ok codec io now id db2 db3 with_active
            ∙ ap (λ (p : Result Str (Unit {0}) × Database). p.1) e3)
          (HasSystemRow-set_active id (codec.format_time now) db2.sessions db2.messages h2)

    append_rows-IsOpened :
        (now : ℕ) (id : Str) (msg : Message) (db t : Database)
        → IsOpened db
        → append_rows codec io now id msg db ≡ (ok tt, t)
        → IsOpened t
    unfolding append_rows
    append_rows-IsOpened now id msg db t h e = elim (Result-cases (encoded codec msg)) [
      | inl (x, failed) ↦ absurd (cc (rw (failed, append_rows) at e))
      | inr ((calls, results), written) ↦
          let (db1, begun, e1) =
            executed-ok codec io (passed codec io "begin tx: " begin_tx db) db t _
              (rw (written, append_rows) at e) in
          let (db2, checked, e2) =
            executed-ok codec io (passed codec io "check session: " select_exists db1) db1 t _ e1 in
          let h2 =
            subst IsOpened
              (passed-ok codec io _ _ db db1 begun ∙ passed-ok codec io _ _ db1 db2 checked) h in
          elim (Option-cases (find_session id db2.sessions)) [
            | inl gone ↦
                subst IsOpened (ap (λ (p : Result Str (Unit {0}) × Database). p.1) (rw gone at e2))
                  h2
            | inr (row, found) ↦
                insert_rows-IsOpened now id msg calls results db2 t h2 (rw found at e2)
          ]
    ]

    committed-IsOpened :
        (r : Result Str (Unit {0}) × Database) (db : Database)
        → IsOpened db
        → ((t : Database) → r ≡ (ok tt, t) → IsOpened t)
        → IsOpened (committed codec io r db).1
    unfolding committed
    committed-IsOpened (err e, written) db h k = h
    committed-IsOpened (ok tt, written) db h k = k written refl

  created-tables :
      (io : Statement → Option Str) (sess : Session) (r : Result Str (Unit {0}) × Database)
      → (created codec io sess r).1 ≡ r.1
  unfolding created
  created-tables io sess (err e, db) = refl
  created-tables io sess (ok u, db) = refl

  get_or_create-IsOpened :
      (io : Statement → Option Str) (now : ℕ) (id prompt : Str) (db : Database)
      → IsOpened db
      → IsOpened (get_or_create codec io now id prompt db).1
  unfolding get_or_create
  get_or_create-IsOpened io now id prompt db h = elim (Result-cases (load_session codec io id db)) [
    | inl (e, failed) ↦ rw (failed, get_or_create) h
    | inr (found, loaded) ↦ elim (Option-cases found) [
      | inl gone ↦
          rw (loaded, gone, get_or_create)
            (subst IsOpened
              (sym (
                created-tables io (fresh_session codec io now id prompt)
                  (committed codec io (create_rows codec io now id prompt db) db)))
              (committed-IsOpened io (create_rows codec io now id prompt db) db h
                (λ db'. create_rows-IsOpened io now id prompt db db' h)))
      | inr (sess, there) ↦ rw (loaded, there, get_or_create) h
    ]
  ]

  append-IsOpened :
      (io : Statement → Option Str) (now : ℕ) (id : Str) (msg : Message) (db : Database)
      → IsOpened db
      → IsOpened (append codec io now id msg db).1
  unfolding append
  append-IsOpened io now id msg db h =
      committed-IsOpened io (append_rows codec io now id msg db) db h
        (λ db'. append_rows-IsOpened io now id msg db db' h)

  snapshot-tables :
      (io : Statement → Option Str) (id : Str) (r : Result Str (Unit {0}) × Database)
      → (snapshot codec io id r).1 ≡ r.1
  unfolding snapshot
  snapshot-tables io id (err e, db) = refl
  snapshot-tables io id (ok u, db) = refl

  apply-IsOpened :
      (io : Statement → Option Str) (ttl : ℕ) (c : Call) (db : Database)
      → IsOpened db
      → IsOpened (apply codec io ttl c db)
  unfolding apply append_and_snapshot reap
  apply-IsOpened io ttl (get_or_create_call now id prompt) db h =
      get_or_create-IsOpened io now id prompt db h
  apply-IsOpened io ttl (append_call now id msg) db h = append-IsOpened io now id msg db h
  apply-IsOpened io ttl (snapshot_call now id msg) db h =
      subst IsOpened (sym (snapshot-tables io id (append codec io now id msg db)))
        (append-IsOpened io now id msg db h)
  apply-IsOpened io ttl (reap_call now) db h =
      let cutoff = codec.format_time (now - ttl) in
      let live = live_sessions codec cutoff db.sessions in
      HasSystemRow-kept codec live live db.messages (λ s k. k)
        (live_sessions-All codec (HasSystemRow db.messages) cutoff db.sessions h)

  -- After any calls from two empty tables, whichever statements the driver fails in each of them:
  -- every session that is stored has a stored message under its id, with the number 0 and the role
  -- system, whose content is the prompt of the session.
  pub Reached-IsOpened : (ttl : ℕ) (db : Database) → Reached codec ttl db → IsOpened db
  Reached-IsOpened ttl db opened = tt
  Reached-IsOpened ttl db (called {db = before} io c reach) =
      apply-IsOpened io ttl c before (Reached-IsOpened ttl before reach)
