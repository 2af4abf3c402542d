-- ===== src/Session/Sqlite/Appends.antt =====
-- sqlite_store.go, appendMessage where no statement fails.
use docsclaw.Base.{
  ℕ, ◌<◌, Str, ◌==◌, eq_iff, Option, none, some, List, [], ◌∷◌, ◌++◌, All, if◌then◌else◌, Result,
  ok, is_some, ◌≡◌, sym, ap, ◌∙◌, subst, Bool-cases, Option-cases, inl, inr,
}
use docsclaw.Llm.{Message}
use docsclaw.Session.History.{grown}
use docsclaw.Session.Sqlite.{
  SessionRow, MessageRow, Database, Codec, find_session, rows_of, order_by_seq, next_seq,
  set_active, message_of, run, committed, executed, passed, encoded, inserted_message,
  updated_active, append_rows, insert_rows, append,
}
use docsclaw.Session.Sqlite.Rows.{
  rows_of-append, next_seq-above, order_by_seq-last, messages_of-last, find_session-set_active,
  is_some-false, IsStorable, working, HasOwners, Stored, new_row, insert_unique-new_row, grown_db,
  missing, kept,
}

module _ (codec : Codec) where
  insert_rows-working :
      (now : ℕ) (id : Str) (msg : Message) (calls results : Option Str) (db : Database)
      → insert_rows codec working now id msg calls results db
        ≡ (ok tt, grown_db codec now id msg calls results db)
  unfolding insert_rows executed passed inserted_message updated_active run
  insert_rows-working now id msg calls results db =
      rw (insert_unique-new_row id msg calls results db.messages)

  encoded-can :
      (msg : Message) (can : IsStorable codec msg)
      → encoded codec msg ≡ ok (can.calls_text, can.results_text)
  unfolding encoded
  encoded-can msg can = rw (can.calls_written, can.results_written)

  append_rows-found :
      (now : ℕ) (id : Str) (msg : Message) (db : Database) (row : SessionRow)
      (can : IsStorable codec msg)
      → find_session id db.sessions ≡ some row
      → append_rows codec working now id msg db
        ≡ (ok tt, grown_db codec now id msg can.calls_text can.results_text db)
  unfolding append_rows executed passed run
  append_rows-found now id msg db row can found =
      rw (encoded-can msg can, append_rows)
        (rw (executed, found) (insert_rows-working now id msg can.calls_text can.results_text db))

  append-found :
      (now : ℕ) (id : Str) (msg : Message) (db : Database) (row : SessionRow)
      (can : IsStorable codec msg)
      → find_session id db.sessions ≡ some row
      → append codec working now id msg db
        ≡ (ok tt, grown_db codec now id msg can.calls_text can.results_text db)
  unfolding append committed
  append-found now id msg db row can found =
      ap (λ (r : Result Str (Unit {0}) × Database). committed codec working r db)
        (append_rows-found now id msg db row can found)

  append_rows-missing :
      (now : ℕ) (id : Str) (msg : Message) (db : Database)
      → IsStorable codec msg
      → find_session id db.sessions ≡ none
      → append_rows codec working now id msg db ≡ (ok tt, db)
  unfolding append_rows executed passed run
  append_rows-missing now id msg db can gone =
      rw (encoded-can msg can, append_rows) (rw (executed, gone))

  append-missing :
      (now : ℕ) (id : Str) (msg : Message) (db : Database)
      → IsStorable codec msg
      → find_session id db.sessions ≡ none
      → append codec working now id msg db ≡ (ok tt, db)
  unfolding append committed
  append-missing now id msg db can gone =
      ap (λ (r : Result Str (Unit {0}) × Database). committed codec working r db)
        (append_rows-missing now id msg db can gone)

  message_of-new_row :
      (id : Str) (msg : Message) (rows : List MessageRow) (can : IsStorable codec msg)
      → message_of codec (new_row id msg can.calls_text can.results_text rows) ≡ ok msg
  unfolding message_of
  message_of-new_row id msg rows can = rw (can.calls_read, can.results_read)

  rows_of-grown :
      (id j : Str) (msg : Message) (calls results : Option Str) (rows : List MessageRow)
      → order_by_seq (rows_of j (rows ++ new_row id msg calls results rows ∷ [])) ≡ (
          if id == j
          then order_by_seq (rows_of j rows) ++ new_row id msg calls results rows ∷ []
          else order_by_seq (rows_of j rows))
  rows_of-grown id j msg calls results rows = elim (Bool-cases (id == j)) [
    | inl e ↦
        rw (rows_of-append, e)
          (order_by_seq-last (rows_of j rows) (new_row id msg calls results rows) (
            subst (λ k. All (λ r. r.seq < next_seq (rows_of k rows)) (rows_of j rows))
              (sym ((eq_iff id j).0 e)) (next_seq-above (rows_of j rows))))
    | inr e ↦ rw (rows_of-append, e)
  ]

  set_active-found :
      (id j time : Str) (rows : List SessionRow) (row : SessionRow)
      → find_session j rows ≡ some row
      → (row' : SessionRow) × (find_session j (set_active id time rows) ≡ some row')
  set_active-found id j time rows row h =
      elim (Option-cases (find_session j (set_active id time rows))) [
        | inl e ↦ absurd (cc (e, h, find_session-set_active id j time rows))
        | inr found ↦ found
      ]

  set_active-missing :
      (id j time : Str) (rows : List SessionRow)
      → find_session j rows ≡ none
      → find_session j (set_active id time rows) ≡ none
  set_active-missing id j time rows h =
      elim (Option-cases (find_session j (set_active id time rows))) [
        | inl e ↦ e
        | inr (row, e) ↦ absurd (cc (e, h, find_session-set_active id j time rows))
      ]

  Stored-untouched :
      (id j : Str) (msg : Message) (db : Database) (o : Option (List Message))
      → find_session id db.sessions ≡ none
      → Stored codec db j o
      → Stored codec db j (if id == j then grown msg o else o)
  unfolding grown
  Stored-untouched id j msg db none gone (missing e) = elim (Bool-cases (id == j)) [
    | inl c ↦ rw c (missing e)
    | inr c ↦ rw c (missing e)
  ]
  Stored-untouched id j msg db (some ms) gone (kept e m) = elim (Bool-cases (id == j)) [
    | inl c ↦
        let same = ap (λ k. find_session k db.sessions) ((eq_iff id j).0 c) in
        absurd (cc (e, gone, same))
    | inr c ↦ rw c (kept e m)
  ]

  Stored-grown :
      (now : ℕ) (id j : Str) (msg : Message) (db : Database) (o : Option (List Message))
      (can : IsStorable codec msg)
      → Stored codec db j o
      → Stored codec
          (grown_db codec now id msg can.calls_text can.results_text db)
          j
          (if id == j then grown msg o else o)
  unfolding grown
  Stored-grown now id j msg db none can (missing e) =
      let still = set_active-missing id j (codec.format_time now) db.sessions e in
      elim (Bool-cases (id == j)) [ inl c ↦ rw c (missing still) | inr c ↦ rw c (missing still) ]
  Stored-grown now id j msg db (some ms) can (kept e m) =
      let (row, found) = set_active-found id j (codec.format_time now) db.sessions _ e in
      let rows = rows_of-grown id j msg can.calls_text can.results_text db.messages in
      elim (Bool-cases (id == j)) [
        | inl c ↦ rw c (
            kept found (
              rw (rows, c)
                (messages_of-last codec _ _ ms msg m (message_of-new_row id msg db.messages can))))
        | inr c ↦ rw c (kept found (rw (rows, c) m))
      ]

  -- what an append does to each conversation
  pub Stored-append :
      (now : ℕ) (id j : Str) (msg : Message) (db : Database) (o : Option (List Message))
      → IsStorable codec msg
      → Stored codec db j o
      → Stored codec (append codec working now id msg db).1 j (if id == j then grown msg o else o)
  Stored-append now id j msg db o can h = elim (Option-cases (find_session id db.sessions)) [
    | inl gone ↦ rw (append-missing now id msg db can gone) (Stored-untouched id j msg db o gone h)
    | inr (row, found) ↦
        rw (append-found now id msg db row can found) (Stored-grown now id j msg db o can h)
  ]

  pub HasOwners-append :
      (now : ℕ) (id : Str) (msg : Message) (db : Database)
      → IsStorable codec msg
      → HasOwners db
      → HasOwners (append codec working now id msg db).1
  HasOwners-append now id msg db can h = elim (Option-cases (find_session id db.sessions)) [
    | inl gone ↦ rw (append-missing now id msg db can gone) h
    | inr (row, found) ↦ rw (append-found now id msg db row can found) (owned row found)
  ]
    where
      owned :
          (row : SessionRow)
          → find_session id db.sessions ≡ some row
          → (j : Str)
          → find_session j (grown_db codec now id msg can.calls_text can.results_text db).sessions
            ≡ none
          → rows_of j (grown_db codec now id msg can.calls_text can.results_text db).messages ≡ []
      owned row found j gone = elim (Bool-cases (id == j)) [
        | inl c ↦
            let same = ap (λ k. is_some (find_session k db.sessions)) ((eq_iff id j).0 c) in
            absurd (
              cc (
                found,
                gone,
                same,
                find_session-set_active id j (codec.format_time now) db.sessions,
              ))
        | inr c ↦
            rw (rows_of-append, c)
              (h j (
                is_some-false (find_session j db.sessions) (
                  sym (find_session-set_active id j (codec.format_time now) db.sessions)
                  ∙ ap (λ (o : Option SessionRow). is_some o) gone)))
      ]
