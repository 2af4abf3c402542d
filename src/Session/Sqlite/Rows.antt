-- ===== src/Session/Sqlite/Rows.antt =====
-- sqlite_store.go: the rows of one session, and what a message leaves in them.
use docsclaw.Base.{
  ℕ, ◌≤◌, ◌<◌, Str, ◌==◌, Option, none, some, List, [], ◌∷◌, ◌++◌, false, ◌&&◌, ◌||◌, eqb, any, All,
  if◌then◌else◌, Result, ok, ◌>>=◌, is_some, ◌≡◌, refl, ap, arith, >>=-eq-ok,
}
use docsclaw.Llm.{Message}
use docsclaw.Session.Sqlite.{
  SessionRow, MessageRow, Database, Statement, Codec, find_session, rows_of, insert_by_seq,
  order_by_seq, next_seq, insert_unique, set_active, unmarshalled, marshalled, message_of,
  messages_of,
}

-- The rows of one session.
pub rows_of-append :
    (id : Str) (rows : List MessageRow) (row : MessageRow)
    → rows_of id (rows ++ row ∷ [])
      ≡ (if row.session_id == id then rows_of id rows ++ row ∷ [] else rows_of id rows)
unfolding rows_of
rows_of-append id [] row = refl
rows_of-append id (r ∷ rows) row = ground (arith, rows_of-append id rows row)

pub next_seq-above : (rows : List MessageRow) → All (λ r. r.seq < next_seq rows) rows
unfolding next_seq
next_seq-above rows = above rows (next_seq rows) (omega arith)
  where
    above : (rows : List MessageRow) (n : ℕ) → next_seq rows ≤ n → All (λ r. r.seq < n) rows
    above [] n h = tt
    above (r ∷ rows) n h = (ground arith, above rows n (ground arith))

insert_by_seq-last :
    (row last : MessageRow) (rows : List MessageRow)
    → row.seq < last.seq
    → insert_by_seq row (rows ++ last ∷ []) ≡ insert_by_seq row rows ++ last ∷ []
unfolding insert_by_seq
insert_by_seq-last row last [] h = ground arith
insert_by_seq-last row last (first ∷ rows) h = ground (arith, insert_by_seq-last row last rows h)

pub order_by_seq-last :
    (rows : List MessageRow) (last : MessageRow)
    → All (λ r. r.seq < last.seq) rows
    → order_by_seq (rows ++ last ∷ []) ≡ order_by_seq rows ++ last ∷ []
unfolding order_by_seq
order_by_seq-last [] last h = unfold insert_by_seq in refl
order_by_seq-last (row ∷ rows) last (first, h) =
    rw (order_by_seq-last rows last h) (insert_by_seq-last row last (order_by_seq rows) first)

pub any-rows_of :
    (id : Str) (seq : ℕ) (rows : List MessageRow)
    → any (λ r. r.session_id == id && eqb r.seq seq) rows
      ≡ any (λ r. eqb r.seq seq) (rows_of id rows)
unfolding rows_of
any-rows_of id seq [] = refl
any-rows_of id seq (r ∷ rows) = ground (arith, any-rows_of id seq rows)

none_at :
    (seq : ℕ) (rows : List MessageRow)
    → All (λ r. r.seq < seq) rows
    → any (λ r. eqb r.seq seq) rows ≡ false
none_at seq [] h = refl
none_at seq (r ∷ rows) (first, h) = ground (arith, none_at seq rows h, first)

pub messages_of-last :
    (codec : Codec) (rows : List MessageRow) (row : MessageRow) (ms : List Message) (msg : Message)
    → messages_of codec rows ≡ ok ms
    → message_of codec row ≡ ok msg
    → messages_of codec (rows ++ row ∷ []) ≡ ok (ms ++ msg ∷ [])
unfolding messages_of
messages_of-last codec [] row ms msg h k = ground arith
messages_of-last codec (r ∷ rows) row ms msg h k =
    let (m, first, later) = >>=-eq-ok (message_of codec r) _ h in
    let (ms', rest, same) = >>=-eq-ok (messages_of codec rows) _ later in
    let last = messages_of-last codec rows row ms' msg rest k in
    rw (first, last) (ap (λ (o : Result Str (List Message)). o >>= λ l. ok (l ++ msg ∷ [])) same)

pub find_session-set_active :
    (id j time : Str) (rows : List SessionRow)
    → is_some (find_session j (set_active id time rows)) ≡ is_some (find_session j rows)
unfolding find_session set_active
find_session-set_active id j time [] = refl
find_session-set_active id j time (row ∷ rows) =
    ground (arith, find_session-set_active id j time rows)

pub find_session-append :
    (j : Str) (rows : List SessionRow) (row : SessionRow)
    → is_some (find_session j (rows ++ row ∷ [])) ≡ (is_some (find_session j rows) || row.id == j)
unfolding find_session
find_session-append j [] row = ground arith
find_session-append j (r ∷ rows) row = ground (arith, find_session-append j rows row)

pub is_some-false : {A : Type 0} (o : Option A) → is_some o ≡ false → o ≡ none
is_some-false none h = refl
is_some-false (some a) h = absurd (cc)

-- The message can be stored: what is written of its lists is read back as they were.
pub record IsStorable (codec : Codec) (msg : Message) : Type 0 where
  pub calls_text : Option Str
  pub calls_written :
      marshalled "marshal tool_calls: " codec.marshal_calls msg.tool_calls ≡ ok calls_text
  pub calls_read :
      unmarshalled "unmarshal tool_calls: " codec.unmarshal_calls calls_text ≡ ok msg.tool_calls
  pub results_text : Option Str
  pub results_written :
      marshalled "marshal tool_results: " codec.marshal_results msg.tool_results ≡ ok results_text
  pub results_read :
      unmarshalled "unmarshal tool_results: " codec.unmarshal_results results_text
      ≡ ok msg.tool_results

-- No statement fails.
abbrev pub working : Statement → Option Str
working st = none

-- Each message belongs to a session: a foreign key in the schema.
abbrev pub HasOwners : Database → Type 0
HasOwners db = (id : Str) → find_session id db.sessions ≡ none → rows_of id db.messages ≡ []

abbrev pub new_row : Str → Message → Option Str → Option Str → List MessageRow → MessageRow
new_row id msg calls results rows = record {
  session_id = id;
  seq = next_seq (rows_of id rows);
  role = msg.role;
  content = msg.content;
  tool_calls = calls;
  tool_results = results;
}

pub insert_unique-new_row :
    (id : Str) (msg : Message) (calls results : Option Str) (rows : List MessageRow)
    → insert_unique (new_row id msg calls results rows) rows
      ≡ ok (rows ++ new_row id msg calls results rows ∷ [])
unfolding insert_unique
insert_unique-new_row id msg calls results rows =
    let seq = next_seq (rows_of id rows) in
    rw (any-rows_of id seq rows, none_at seq (rows_of id rows) (next_seq-above (rows_of id rows)))

module _ (codec : Codec) where
  -- The conversation that the tables hold under an id, where there is one.
  pub data Stored (db : Database) (id : Str) : Option (List Message) → Type 0 where
    missing : find_session id db.sessions ≡ none → Stored db id none
    kept :
        {row : SessionRow} {ms : List Message}
        → find_session id db.sessions ≡ some row
        → messages_of codec (order_by_seq (rows_of id db.messages)) ≡ ok ms
        → Stored db id (some ms)

  abbrev pub grown_db : ℕ → Str → Message → Option Str → Option Str → Database → Database
  grown_db now id msg calls results db = record {
    sessions = set_active id (codec.format_time now) db.sessions;
    messages = db.messages ++ new_row id msg calls results db.messages ∷ [];
  }
