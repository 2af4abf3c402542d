-- ===== src/Session/Sqlite/SystemRows.antt =====
-- sqlite_store.go: the system message of a session among the rows, and the changes of the rows.
use mathlib.Core.List.{Memᴰ}
use docsclaw.Base.{
  Str, bytes, ◌==◌, eq_iff, List, [], ◌∷◌, ◌++◌, Bool-cases, ok, is_some, inl, inr, true, All, ◌≡◌,
  refl, sym, subst, ap, ◌∙◌, arith,
}
use docsclaw.Session.Sqlite.{
  SessionRow, MessageRow, Database, Codec, find_session, insert_unique, set_active, stale,
  live_sessions, with_session,
}

-- The message is the system message that the session was created with.
pub record IsSystemRow (row : SessionRow) (m : MessageRow) : Type 0 where
  pub of_session : m.session_id ≡ row.id
  pub at_first : m.seq ≡ 0
  pub by_system : m.role ≡ bytes "system"
  pub with_prompt : m.content ≡ row.system_prompt

abbrev pub HasSystemRow : List MessageRow → SessionRow → Type 0
HasSystemRow messages row = (m : MessageRow) × Memᴰ m messages × IsSystemRow row m

-- Each session that is stored has its system message stored.
abbrev pub IsOpened : Database → Type 0
IsOpened db = All (HasSystemRow db.messages) db.sessions

Mem-left : (m : MessageRow) (rows more : List MessageRow) → Memᴰ m rows → Memᴰ m (rows ++ more)
Mem-left m [] more h = elim h [ ]
Mem-left m (row ∷ rows) more (Memᴰ.head e) = Memᴰ.head e
Mem-left m (row ∷ rows) more (Memᴰ.tail h) = Memᴰ.tail (Mem-left m rows more h)

pub Mem-last : (m : MessageRow) (rows : List MessageRow) → Memᴰ m (rows ++ m ∷ [])
Mem-last m [] = Memᴰ.head refl
Mem-last m (row ∷ rows) = Memᴰ.tail (Mem-last m rows)

pub insert_unique-ok :
    (row : MessageRow) (rows rows' : List MessageRow)
    → insert_unique row rows ≡ ok rows'
    → rows' ≡ rows ++ row ∷ []
unfolding insert_unique
insert_unique-ok row rows rows' h = ground arith

pub HasSystemRow-grow :
    (sessions : List SessionRow) (rows : List MessageRow) (m : MessageRow)
    → All (HasSystemRow rows) sessions
    → All (HasSystemRow (rows ++ m ∷ [])) sessions
HasSystemRow-grow [] rows m h = tt
HasSystemRow-grow (s ∷ sessions) rows m ((n, mem, sys), h) =
    ((n, Mem-left n rows (m ∷ []) mem, sys), HasSystemRow-grow sessions rows m h)

pub All-last :
    (P : SessionRow → Type 0) (sessions : List SessionRow) (s : SessionRow)
    → All P sessions
    → P s
    → All P (sessions ++ s ∷ [])
All-last P [] s h p = (p, tt)
All-last P (r ∷ sessions) s (q, h) p = (q, All-last P sessions s h p)

pub HasSystemRow-set_active :
    (id time : Str) (sessions : List SessionRow) (rows : List MessageRow)
    → All (HasSystemRow rows) sessions
    → All (HasSystemRow rows) (set_active id time sessions)
unfolding set_active
HasSystemRow-set_active id time [] rows h = tt
HasSystemRow-set_active id time (s ∷ sessions) rows ((m, mem, sys), h) =
    let later = HasSystemRow-set_active id time sessions rows h in
    elim (Bool-cases (s.id == id)) [
      | inl e ↦ rw e (
        (
          m,
          mem,
          record {
            of_session = sys.of_session;
            at_first = sys.at_first;
            by_system = sys.by_system;
            with_prompt = sys.with_prompt;
          },
        ),
        later,
      )
      | inr e ↦ rw e ((m, mem, sys), later)
    ]

find_session-Mem :
    (id : Str) (sessions : List SessionRow) (s : SessionRow)
    → Memᴰ s sessions
    → s.id ≡ id
    → is_some (find_session id sessions) ≡ true
unfolding find_session
find_session-Mem id [] s h e = elim h [ ]
find_session-Mem id (r ∷ sessions) s (Memᴰ.head k) e =
    rw ((eq_iff r.id id).1 (sym (ap (λ (x : SessionRow). x.id) k) ∙ e)) refl
find_session-Mem id (r ∷ sessions) s (Memᴰ.tail h) e = elim (Bool-cases (r.id == id)) [
  | inl c ↦ rw c refl
  | inr c ↦ rw c (find_session-Mem id sessions s h e)
]

with_session-Mem :
    (codec : Codec) (sessions : List SessionRow) (rows : List MessageRow) (m : MessageRow)
    → is_some (find_session m.session_id sessions) ≡ true
    → Memᴰ m rows
    → Memᴰ m (with_session codec sessions rows)
unfolding with_session
with_session-Mem codec sessions [] m owned h = elim h [ ]
with_session-Mem codec sessions (r ∷ rows) m owned (Memᴰ.head e) =
    rw (subst (λ (x : MessageRow). is_some (find_session x.session_id sessions) ≡ true) e owned)
      (Memᴰ.head e)
with_session-Mem codec sessions (r ∷ rows) m owned (Memᴰ.tail h) =
    let rest = with_session-Mem codec sessions rows m owned h in
    elim (Bool-cases (is_some (find_session r.session_id sessions))) [
      | inl c ↦ rw c (Memᴰ.tail rest)
      | inr c ↦ rw c rest
    ]

-- A session that is kept has its system message kept.
pub HasSystemRow-kept :
    (codec : Codec) (sessions kept : List SessionRow) (rows : List MessageRow)
    → ((s : SessionRow) → Memᴰ s kept → Memᴰ s sessions)
    → All (HasSystemRow rows) kept
    → All (HasSystemRow (with_session codec sessions rows)) kept
HasSystemRow-kept codec sessions [] rows within h = tt
HasSystemRow-kept codec sessions (s ∷ kept) rows within ((m, mem, sys), h) = (
  (
    m,
    with_session-Mem codec sessions rows m
        (find_session-Mem m.session_id sessions s (within s (Memᴰ.head refl)) (sym sys.of_session))
        mem,
    sys,
  ),
  HasSystemRow-kept codec sessions kept rows (λ r k. within r (Memᴰ.tail k)) h,
)

pub live_sessions-All :
    (codec : Codec) (P : SessionRow → Type 0) (cutoff : Str) (sessions : List SessionRow)
    → All P sessions
    → All P (live_sessions codec cutoff sessions)
unfolding live_sessions
live_sessions-All codec P cutoff [] h = tt
live_sessions-All codec P cutoff (s ∷ sessions) (p, h) =
    let rest = live_sessions-All codec P cutoff sessions h in
    elim (Bool-cases (stale codec cutoff s)) [ inl c ↦ rw c rest | inr c ↦ rw c (p, rest) ]
