-- ===== src/Session/Sqlite.antt =====
-- internal/session/sqlite_store.go: conversations kept in two tables. A transaction changes the tables
-- statement by statement; where a statement or the commit fails, what it wrote is dropped.
pub mod Rows
pub mod Appends
pub mod Creates
pub mod SystemRows
pub mod Statements
pub mod Opened
pub mod Agrees
pub mod Examples
use docsclaw.Base.{
  ℕ, suc, ◌+◌, ◌-◌, String, Str, bytes, ◌==◌, Option, none, some, List, [], ◌∷◌, ◌++◌, Bool, true,
  false, not, ◌&&◌, ◌||◌, eqb, ltb, leb, any, length, if◌then◌else◌, Result, ok, err, ◌>>=◌, ◌>>◌,
  is_some,
}
use docsclaw.Llm.{Message, ToolCall, ToolResultContent, text_message}
use docsclaw.Tools.{str_lt}
use docsclaw.Session.{Session, Call, get_or_create_call, append_call, snapshot_call, reap_call}

pub record SessionRow : Type 0 where
  pub id : Str
  pub system_prompt : Str
  pub created_at : Str
  pub last_active : Str

-- A column that holds NULL is `none`; `content` is never NULL, as every statement gives a text.
pub record MessageRow : Type 0 where
  pub session_id : Str
  pub seq : ℕ
  pub role : Str
  pub content : Str
  pub tool_calls : Option Str
  pub tool_results : Option Str

pub record Database : Type 0 where
  pub sessions : List SessionRow
  pub messages : List MessageRow

-- The statements that the driver may fail.
pub data Statement : Type 0 where
  select_session select_messages iterate_messages : Statement
  begin_tx insert_session insert_system select_exists select_seq insert_message update_active :
      Statement
  commit_tx : Statement

-- The code that is called: encoding/json on the two lists, and the format time.RFC3339Nano.
pub record Codec : Type 0 where
  pub marshal_calls : List ToolCall → Result Str Str
  pub unmarshal_calls : Str → Result Str (List ToolCall)
  pub marshal_results : List ToolResultContent → Result Str Str
  pub unmarshal_results : Str → Result Str (List ToolResultContent)
  pub format_time : ℕ → Str
  pub parse_time : Str → ℕ

-- WHERE id = ?
pub find_session : Str → List SessionRow → Option SessionRow
find_session id [] = none
find_session id (row ∷ rows) = if row.id == id then some row else find_session id rows

-- WHERE session_id = ?
pub rows_of : Str → List MessageRow → List MessageRow
rows_of id [] = []
rows_of id (row ∷ rows) =
    let rest = rows_of id rows in if row.session_id == id then row ∷ rest else rest

insert_by_seq : MessageRow → List MessageRow → List MessageRow
insert_by_seq row [] = row ∷ []
insert_by_seq row (first ∷ rows) =
    if ltb first.seq row.seq then first ∷ insert_by_seq row rows else row ∷ first ∷ rows

-- ORDER BY seq
pub order_by_seq : List MessageRow → List MessageRow
order_by_seq [] = []
order_by_seq (row ∷ rows) = insert_by_seq row (order_by_seq rows)

-- SELECT COALESCE(MAX(seq), -1) + 1 of the rows of one session
pub next_seq : List MessageRow → ℕ
next_seq [] = 0
next_seq (row ∷ rows) = let rest = next_seq rows in if ltb row.seq rest then rest else suc row.seq

-- INSERT under UNIQUE(session_id, seq)
pub insert_unique : MessageRow → List MessageRow → Result Str (List MessageRow)
insert_unique row rows =
    if any (λ r. r.session_id == row.session_id && eqb r.seq row.seq) rows
    then err (bytes "UNIQUE constraint failed")
    else ok (rows ++ row ∷ [])

-- UPDATE sessions SET last_active = ? WHERE id = ?
pub set_active : Str → Str → List SessionRow → List SessionRow
set_active id time [] = []
set_active id time (row ∷ rows) =
    let rest = set_active id time rows in
    if row.id == id then record row { last_active = time } ∷ rest else row ∷ rest

-- `fmt.Errorf("…: %w", err)`
abbrev pub wrap : {A : Type 0} → String → Result Str A → Result Str A
wrap text (ok a) = ok a
wrap text (err e) = err (bytes text ++ e)

-- `if tc.Valid && tc.String != "" { json.Unmarshal(…) }`
pub unmarshalled :
    {A : Type 0} → String → (Str → Result Str (List A)) → Option Str → Result Str (List A)
unmarshalled text unmarshal none = ok []
unmarshalled text unmarshal (some json) = if json == [] then ok [] else wrap text (unmarshal json)

pub marshalled :
    {A : Type 0} → String → (List A → Result Str Str) → List A → Result Str (Option Str)
marshalled text marshal [] = ok none
marshalled text marshal (x ∷ xs) = do json ← wrap text (marshal (x ∷ xs)); ok (some json)

module _ (codec : Codec) where
  pub message_of : MessageRow → Result Str Message
  unfolding unmarshalled
  message_of row = do
    calls ← unmarshalled "unmarshal tool_calls: " codec.unmarshal_calls row.tool_calls
    results ← unmarshalled "unmarshal tool_results: " codec.unmarshal_results row.tool_results
    ok (record {
      role = row.role;
      content = row.content;
      tool_calls = calls;
      tool_results = results;
    })

  pub messages_of : List MessageRow → Result Str (List Message)
  messages_of [] = ok []
  messages_of (row ∷ rows) = do msg ← message_of row; rest ← messages_of rows; ok (msg ∷ rest)

  -- the two columns that hold lists
  pub encoded : Message → Result Str (Option Str × Option Str)
  unfolding marshalled
  encoded msg = do
    calls ← marshalled "marshal tool_calls: " codec.marshal_calls msg.tool_calls
    results ← marshalled "marshal tool_results: " codec.marshal_results msg.tool_results
    ok (calls, results)

  -- `io` gives the error of a statement that the driver fails.
  module _ (io : Statement → Option Str) where
    pub run : String → Statement → Result Str (Unit {0})
    run text st = elim (io st) [ none ↦ ok tt | some e ↦ err (bytes text ++ e) ]

    pub load_session : Str → Database → Result Str (Option Session)
    unfolding run
    load_session id db = do
      run "query session: " select_session
      elim (find_session id db.sessions) [
        | none ↦ ok none
        | some row ↦ do
          run "query messages: " select_messages
          messages ← messages_of (order_by_seq (rows_of id db.messages))
          run "iterate messages: " iterate_messages
          ok (
              some (record {
                id = id;
                messages = messages;
                created_at = codec.parse_time row.created_at;
                last_active = codec.parse_time row.last_active;
              }))
      ]

    -- A statement of a transaction gives the tables as it leaves them, for those behind it; where it
    -- fails, none of those runs.
    pub executed :
        Result Str Database
        → Database
        → (Database → Result Str (Unit {0}) × Database)
        → Result Str (Unit {0}) × Database
    executed (err e) db next = (err e, db)
    executed (ok db') db next = next db'

    -- BEGIN and SELECT
    pub passed : String → Statement → Database → Result Str Database
    unfolding run
    passed text st db = do run text st; ok db

    -- INSERT INTO sessions
    pub inserted_session : SessionRow → Database → Result Str Database
    unfolding run
    inserted_session row db = do
      run "insert session: " insert_session
      ok (record db { sessions = db.sessions ++ row ∷ [] })

    -- INSERT INTO messages
    pub inserted_message : String → Statement → MessageRow → Database → Result Str Database
    unfolding run insert_unique
    inserted_message text st row db = do
      run text st
      messages ← wrap text (insert_unique row db.messages)
      ok (record db { messages = messages })

    -- UPDATE sessions
    pub updated_active : ℕ → Str → Database → Result Str Database
    unfolding run
    updated_active now id db = do
      run "update last_active: " update_active
      ok (record db { sessions = set_active id (codec.format_time now) db.sessions })

    -- the transaction of `GetOrCreate`, with the tables as its last statement left them
    create_rows : ℕ → Str → Str → Database → Result Str (Unit {0}) × Database
    unfolding executed run passed inserted_session inserted_message
    create_rows now id system_prompt db = executed (passed "begin tx: " begin_tx db) db (λ db1.
        executed
          (inserted_session
            (record {
              id = id;
              system_prompt = system_prompt;
              created_at = codec.format_time now;
              last_active = codec.format_time now;
            })
            db1)
          db1
          (λ db2.
            executed
              (inserted_message "insert system message: " insert_system
                (record {
                  session_id = id;
                  seq = 0;
                  role = bytes "system";
                  content = system_prompt;
                  tool_calls = none;
                  tool_results = none;
                })
                db2)
              db2 (λ db3. (run "commit: " commit_tx, db3))))

    -- `defer tx.Rollback()`: what the transaction wrote is dropped unless its commit succeeded.
    committed : Result Str (Unit {0}) × Database → Database → Result Str (Unit {0}) × Database
    committed (err e, written) db = (err e, db)
    committed (ok _, written) db = (ok tt, written)

    abbrev fresh_session : ℕ → Str → Str → Session
    fresh_session now id system_prompt = record {
      id = id;
      messages = text_message (bytes "system") system_prompt ∷ [];
      created_at = now;
      last_active = now;
    }

    created : Session → Result Str (Unit {0}) × Database → Result Str Session × Database
    created sess (err e, db) = (err e, db)
    created sess (ok _, db) = (ok sess, db)

    pub get_or_create : ℕ → Str → Str → Database → Result Str Session × Database
    get_or_create now id system_prompt db = elim (load_session id db) [
      | err e ↦ (err e, db)
      | ok (some sess) ↦ (ok sess, db)
      | ok none ↦
          created (fresh_session now id system_prompt)
            (committed (create_rows now id system_prompt db) db)
    ]

    pub get : Str → Database → Result Str (Option Session)
    get id db = load_session id db

    -- the transaction of `appendMessage` behind the check that the session is there
    insert_rows :
        ℕ → Str → Message → Option Str → Option Str → Database → Result Str (Unit {0}) × Database
    unfolding executed run passed inserted_message updated_active
    insert_rows now id msg calls results db =
        executed (passed "get next seq: " select_seq db) db (λ db1.
          executed
            (inserted_message "insert message: " insert_message
              (record {
                session_id = id;
                seq = next_seq (rows_of id db1.messages);
                role = msg.role;
                content = msg.content;
                tool_calls = calls;
                tool_results = results;
              })
              db1)
            db1 (λ db2. executed (updated_active now id db2) db2 (λ db3. (run "" commit_tx, db3))))

    -- `appendMessage`; a session that is missing is no error
    append_rows : ℕ → Str → Message → Database → Result Str (Unit {0}) × Database
    unfolding executed passed encoded
    append_rows now id msg db = elim (encoded msg) [
      | err e ↦ (err e, db)
      | ok (calls, results) ↦ executed (passed "begin tx: " begin_tx db) db (λ db1.
          executed (passed "check session: " select_exists db1) db1 (λ db2.
            elim (find_session id db2.sessions) [
              | none ↦ (ok tt, db2)
              | some row ↦ insert_rows now id msg calls results db2
            ]))
    ]

    pub append : ℕ → Str → Message → Database → Result Str (Unit {0}) × Database
    unfolding append_rows committed
    append now id msg db = committed (append_rows now id msg db) db

    messages_in : Result Str (Option Session) → Result Str (List Message)
    messages_in (err e) = err e
    messages_in (ok none) = ok []
    messages_in (ok (some sess)) = ok sess.messages

    snapshot : Str → Result Str (Unit {0}) × Database → Result Str (List Message) × Database
    unfolding messages_in
    snapshot id (err e, db) = (err e, db)
    snapshot id (ok _, db) = (messages_in (load_session id db), db)

    pub append_and_snapshot : ℕ → Str → Message → Database → Result Str (List Message) × Database
    unfolding snapshot
    append_and_snapshot now id msg db = snapshot id (append now id msg db)

  stale : Str → SessionRow → Bool
  stale cutoff row = str_lt row.last_active cutoff

  pub live_sessions : Str → List SessionRow → List SessionRow
  unfolding stale
  live_sessions cutoff [] = []
  live_sessions cutoff (row ∷ rows) =
      let rest = live_sessions cutoff rows in if stale cutoff row then rest else row ∷ rest

  -- ON DELETE CASCADE
  pub with_session : List SessionRow → List MessageRow → List MessageRow
  with_session sessions [] = []
  with_session sessions (row ∷ rows) =
      let rest = with_session sessions rows in
      if is_some (find_session row.session_id sessions) then row ∷ rest else rest

  -- The statement either deletes or fails, and then nothing happens.
  pub reap : ℕ → ℕ → Database → Database
  unfolding live_sessions with_session
  reap now ttl db =
      let sessions = live_sessions (codec.format_time (now - ttl)) db.sessions in
      record { sessions = sessions; messages = with_session sessions db.messages }

  -- the calls of internal/session/store.go, made on this store
  pub apply : (Statement → Option Str) → ℕ → Call → Database → Database
  apply io ttl (get_or_create_call now id prompt) db = (get_or_create io now id prompt db).1
  apply io ttl (append_call now id msg) db = (append io now id msg db).1
  apply io ttl (snapshot_call now id msg) db = (append_and_snapshot io now id msg db).1
  apply io ttl (reap_call now) db = reap now ttl db

  pub apply_all : (Statement → Option Str) → ℕ → List Call → Database → Database
  apply_all io ttl [] db = db
  apply_all io ttl (c ∷ cs) db = apply_all io ttl cs (apply io ttl c db)

abbrev pub empty_database : Database
empty_database = record { sessions = []; messages = [] }
