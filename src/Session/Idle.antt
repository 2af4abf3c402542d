-- ===== src/Session/Idle.antt =====
-- store.go: which sessions there are, and since when each is idle.
use docsclaw.Base.{
  ℕ, ◌+◌, ◌-◌, Str, ◌==◌, eq_iff, lookup, lookup-insert, IsUnique, Option, none, some, List, [],
  ◌∷◌, ◌≡◌, ◌∙◌, refl, arith, ltb, if◌then◌else◌, Option-cases, Bool-cases, inl, inr, or_else,
}
use docsclaw.Llm.{Message}
use docsclaw.Session.{
  Session, MemoryStore, new_memory_store, new_session, with_message, get_or_create, get, append,
  expired, reap, Call, get_or_create_call, append_call, snapshot_call, reap_call, apply, apply_all,
}
use docsclaw.Session.History.{kept, lookup-without_expired, apply-IsUnique, snapshot-append}

-- When a session was last active; `none` where there is none.
abbrev pub idle_since : Option Session → Option ℕ
idle_since none = none
idle_since (some sess) = some sess.last_active

abbrev used : ℕ → Option ℕ → Option ℕ
used now none = none
used now (some t) = some now

abbrev outlived : ℕ → ℕ → Option ℕ → Option ℕ
outlived ttl now none = none
outlived ttl now (some t) = if ltb (t + ttl) now then none else some t

-- What a call means for the one session under `id`, by the time of its last use alone.
unfoldable pub use_after : ℕ → Str → Call → Option ℕ → Option ℕ
use_after ttl id (get_or_create_call now j prompt) o = if j == id then some (or_else o now) else o
use_after ttl id (append_call now j msg) o = if j == id then used now o else o
use_after ttl id (snapshot_call now j msg) o = if j == id then used now o else o
use_after ttl id (reap_call now) o = outlived ttl now o

unfoldable pub last_use : ℕ → Str → List Call → Option ℕ → Option ℕ
last_use ttl id [] o = o
last_use ttl id (c ∷ cs) o = last_use ttl id cs (use_after ttl id c o)

append-idle_since :
    (now : ℕ) (id j : Str) (msg : Message) (s : MemoryStore)
    → idle_since (get id (append now j msg s))
      ≡ (if j == id then used now (idle_since (get id s)) else idle_since (get id s))
unfolding get append
append-idle_since now id j msg s = elim (Option-cases (lookup j s.sessions)) [
  | inl e ↦ ground (arith, eq_iff j id)
  | inr (sess, e) ↦
      ground (arith, lookup-insert j id (with_message now msg sess) s.sessions, eq_iff j id)
]

append-ttl :
    (now : ℕ) (j : Str) (msg : Message) (s : MemoryStore) → (append now j msg s).ttl ≡ s.ttl
unfolding append
append-ttl now j msg s = ground arith

apply-ttl : (c : Call) (s : MemoryStore) → (apply c s).ttl ≡ s.ttl
unfolding apply get_or_create reap
apply-ttl (get_or_create_call now j prompt) s = ground arith
apply-ttl (append_call now j msg) s = append-ttl now j msg s
apply-ttl (snapshot_call now j msg) s = rw snapshot-append (append-ttl now j msg s)
apply-ttl (reap_call now) s = refl

kept-idle_since :
    (ttl now : ℕ) (o : Option Session)
    → idle_since (kept ttl now o) ≡ outlived ttl now (idle_since o)
unfolding kept expired
kept-idle_since ttl now none = refl
kept-idle_since ttl now (some sess) = elim (Bool-cases (ltb ttl (now - sess.last_active))) [
  | inl e ↦ ground (arith, e)
  | inr e ↦ ground (arith, e)
]

apply-idle_since :
    (ttl : ℕ) (id : Str) (c : Call) (s : MemoryStore)
    → IsUnique s.sessions
    → s.ttl ≡ ttl
    → idle_since (get id (apply c s)) ≡ use_after ttl id c (idle_since (get id s))
unfolding apply get get_or_create reap use_after
apply-idle_since ttl id (get_or_create_call now j prompt) s u e =
    ground (arith, lookup-insert j id (new_session now j prompt) s.sessions, eq_iff j id)
apply-idle_since ttl id (append_call now j msg) s u e = append-idle_since now id j msg s
apply-idle_since ttl id (snapshot_call now j msg) s u e =
    rw snapshot-append (append-idle_since now id j msg s)
apply-idle_since ttl id (reap_call now) s u e = rw (← e) (
    rw (lookup-without_expired s.ttl now id s.sessions u)
      (kept-idle_since s.ttl now (lookup id s.sessions)))

apply_all-idle_since :
    (ttl : ℕ) (id : Str) (cs : List Call) (s : MemoryStore)
    → IsUnique s.sessions
    → s.ttl ≡ ttl
    → idle_since (get id (apply_all cs s)) ≡ last_use ttl id cs (idle_since (get id s))
unfolding apply_all last_use
apply_all-idle_since ttl id [] s u e = refl
apply_all-idle_since ttl id (c ∷ cs) s u e =
    rw (← (apply-idle_since ttl id c s u e))
      (apply_all-idle_since ttl id cs (apply c s) (apply-IsUnique c s u) (apply-ttl c s ∙ e))

-- After any calls from an empty store, the reaper's among them, a session is there, and last active
-- at some time, exactly as the calls that name it say: it is created by the first call that asks for
-- it, each message that finds it renews the time, and a run of the reaper removes it if it has been
-- idle for longer than the time to live, and leaves it else; no call for another id touches it.
pub idle_since-apply_all :
    (cs : List Call) (ttl : ℕ) (id : Str)
    → idle_since (get id (apply_all cs (new_memory_store ttl))) ≡ last_use ttl id cs none
unfolding new_memory_store get lookup
idle_since-apply_all cs ttl id = apply_all-idle_since ttl id cs (new_memory_store ttl) tt refl
