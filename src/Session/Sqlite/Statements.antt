-- ===== src/Session/Sqlite/Statements.antt =====
-- sqlite_store.go: what a statement that succeeds leaves in the tables.
use docsclaw.Base.{
  ℕ, Str, String, Option, List, [], ◌∷◌, ◌++◌, Result, ok, err, ◌≡◌, refl, sym, ap, ◌∙◌, >>=-eq-ok,
}
use docsclaw.Session.Sqlite.{
  SessionRow, MessageRow, Database, Statement, Codec, insert_unique, set_active, run, executed,
  passed, inserted_session, inserted_message, updated_active, wrap, insert_session, update_active,
}
use docsclaw.Session.Sqlite.SystemRows.{insert_unique-ok}

wrap-ok : {A : Type 0} (text : String) (r : Result Str A) (a : A) → wrap text r ≡ ok a → r ≡ ok a
wrap-ok text (ok b) a e = e
wrap-ok text (err x) a e = absurd (cc)

ok_injective : {A : Type 0} {x y : A} → ◌≡◌ {A = Result Str A} (ok x) (ok y) → x ≡ y
ok_injective e = cc e

module _ (codec : Codec) (io : Statement → Option Str) where
  pub executed-ok :
      (r : Result Str Database) (db t : Database)
      (next : Database → Result Str (Unit {0}) × Database)
      → executed codec io r db next ≡ (ok tt, t)
      → (db' : Database) × (r ≡ ok db') × (next db' ≡ (ok tt, t))
  unfolding executed
  executed-ok (err e) db t next h = absurd (cc)
  executed-ok (ok db') db t next h = (db', refl, h)

  pub passed-ok :
      (text : String) (st : Statement) (db db' : Database)
      → passed codec io text st db ≡ ok db'
      → db ≡ db'
  unfolding passed
  passed-ok text st db db' h =
      let (u, _, e) = >>=-eq-ok (run codec io text st) _ h in ok_injective e

  pub inserted_session-ok :
      (row : SessionRow) (db db' : Database)
      → inserted_session codec io row db ≡ ok db'
      → record db { sessions = db.sessions ++ row ∷ [] } ≡ db'
  unfolding inserted_session
  inserted_session-ok row db db' h =
      let (u, _, e) = >>=-eq-ok (run codec io "insert session: " insert_session) _ h in
      ok_injective e

  pub inserted_message-ok :
      (text : String) (st : Statement) (row : MessageRow) (db db' : Database)
      → inserted_message codec io text st row db ≡ ok db'
      → record db { messages = db.messages ++ row ∷ [] } ≡ db'
  unfolding inserted_message
  inserted_message-ok text st row db db' h =
      let (u, _, e) = >>=-eq-ok (run codec io text st) _ h in
      let (messages, stored, f) = >>=-eq-ok (wrap text (insert_unique row db.messages)) _ e in
      let grown = insert_unique-ok row db.messages messages (wrap-ok _ _ messages stored) in
      ap (λ (rows : List MessageRow). record db { messages = rows }) (sym grown) ∙ ok_injective f

  pub updated_active-ok :
      (now : ℕ) (id : Str) (db db' : Database)
      → updated_active codec io now id db ≡ ok db'
      → record db { sessions = set_active id (codec.format_time now) db.sessions } ≡ db'
  unfolding updated_active
  updated_active-ok now id db db' h =
      let (u, _, e) = >>=-eq-ok (run codec io "update last_active: " update_active) _ h in
      ok_injective e
