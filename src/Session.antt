-- ===== src/Session.antt =====
-- internal/session/store.go: conversations kept in memory, with expiry.
pub mod History
pub mod Idle
pub mod Sqlite
pub mod Examples
use docsclaw.Base.{
  ℕ, ◌+◌, ◌-◌, Str, bytes, Map, lookup, insert, Option, none, some, List, [], ◌∷◌, ◌++◌, Bool, ltb,
  if◌then◌else◌, length,
}
use docsclaw.Llm.{Message, text_message}

pub record Session : Type 0 where
  pub id : Str
  pub messages : List Message
  pub created_at : ℕ
  pub last_active : ℕ

-- Each operation holds the mutex from its first statement to its last, so it is one step; `now` is
-- what time.Now gives in it. A session handed out is its state at that moment.
pub record MemoryStore : Type 0 where
  pub sessions : Map Session
  pub ttl : ℕ

pub new_memory_store : ℕ → MemoryStore
new_memory_store ttl = record { sessions = []; ttl = ttl }

abbrev new_session : ℕ → Str → Str → Session
new_session now id system_prompt = record {
  id = id;
  messages = text_message (bytes "system") system_prompt ∷ [];
  created_at = now;
  last_active = now;
}

pub get_or_create : ℕ → Str → Str → MemoryStore → Session × MemoryStore
get_or_create now id system_prompt s = elim (lookup id s.sessions) [
  | some sess ↦ (sess, s)
  | none ↦
      let sess = new_session now id system_prompt in
      (sess, record s { sessions = insert id sess s.sessions })
]

pub get : Str → MemoryStore → Option Session
get id s = lookup id s.sessions

abbrev with_message : ℕ → Message → Session → Session
with_message now msg sess = record sess { messages = sess.messages ++ msg ∷ []; last_active = now }

pub append : ℕ → Str → Message → MemoryStore → MemoryStore
append now id msg s = elim (lookup id s.sessions) [
  | none ↦ s
  | some sess ↦ record s { sessions = insert id (with_message now msg sess) s.sessions }
]

-- The nil slice that a missing session gives is `[]`.
pub append_and_snapshot : ℕ → Str → Message → MemoryStore → List Message × MemoryStore
append_and_snapshot now id msg s = elim (lookup id s.sessions) [
  | none ↦ ([], s)
  | some sess ↦
      let sess' = with_message now msg sess in
      (sess'.messages, record s { sessions = insert id sess' s.sessions })
]

pub len : MemoryStore → ℕ
len s = length s.sessions

-- `now.Sub(sess.LastActive) > s.ttl`
pub expired : ℕ → ℕ → Session → Bool
expired ttl now sess = ltb ttl (now - sess.last_active)

pub without_expired : ℕ → ℕ → Map Session → Map Session
without_expired ttl now [] = []
without_expired ttl now ((id, sess) ∷ m) =
    let rest = without_expired ttl now m in if expired ttl now sess then rest else (id, sess) ∷ rest

pub reap : ℕ → MemoryStore → MemoryStore
unfolding without_expired expired
reap now s = record s { sessions = without_expired s.ttl now s.sessions }

-- The calls that the store may see, in any order; the reaper's ticks are among them.
pub data Call : Type 0 where
  get_or_create_call : ℕ → Str → Str → Call
  append_call : ℕ → Str → Message → Call
  snapshot_call : ℕ → Str → Message → Call
  reap_call : ℕ → Call

pub apply : Call → MemoryStore → MemoryStore
apply (get_or_create_call now id prompt) s = (get_or_create now id prompt s).1
apply (append_call now id msg) s = append now id msg s
apply (snapshot_call now id msg) s = (append_and_snapshot now id msg s).1
apply (reap_call now) s = reap now s

pub apply_all : List Call → MemoryStore → MemoryStore
apply_all [] s = s
apply_all (c ∷ cs) s = apply_all cs (apply c s)
