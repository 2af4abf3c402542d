-- ===== src/Session/History.antt =====
-- store.go: what the store promises of each conversation.
use mathlib.Core.List.{append-nil, append_assoc}
use docsclaw.Base.{
  ℕ, ◌-◌, ◌<◌, Str, bytes, ◌==◌, eq_iff, eq_refl, Map, lookup, lookup-insert, IsUnique,
  insert-IsUnique, Option, none, some, List, [], ◌∷◌, ◌++◌, ◌≡◌, refl, subst, arith, Bool-cases,
  Option-cases, inl, inr, if◌then◌else◌, or_else,
}
use docsclaw.Llm.{Message, text_message}
use docsclaw.Session.{
  Session, MemoryStore, new_session, with_message, get_or_create, get, append, append_and_snapshot,
  expired, without_expired, reap, Call, get_or_create_call, append_call, snapshot_call, reap_call,
  apply, apply_all,
}

messages_of : Option Session → Option (List Message)
messages_of none = none
messages_of (some sess) = some sess.messages

-- The view of the store: the conversation under an id, if there is one.
unfoldable pub history : MemoryStore → Str → Option (List Message)
unfolding messages_of
history s id = messages_of (lookup id s.sessions)

unfoldable pub grown : Message → Option (List Message) → Option (List Message)
grown msg none = none
grown msg (some ms) = some (ms ++ msg ∷ [])

pub history-get_or_create :
    (now : ℕ) (id j prompt : Str) (s : MemoryStore)
    → history (get_or_create now id prompt s).1 j ≡ (
        if id == j
        then some (or_else (history s id) (text_message (bytes "system") prompt ∷ []))
        else history s j)
unfolding get_or_create history
history-get_or_create now id j prompt s =
    ground (arith, lookup-insert id j (new_session now id prompt) s.sessions, eq_iff id j)

pub history-append :
    (now : ℕ) (id j : Str) (msg : Message) (s : MemoryStore)
    → history (append now id msg s) j ≡ (if id == j then grown msg (history s j) else history s j)
unfolding append history grown
history-append now id j msg s = elim (Option-cases (lookup id s.sessions)) [
  | inl e ↦ ground (arith, eq_iff id j)
  | inr (sess, e) ↦
      ground (arith, lookup-insert id j (with_message now msg sess) s.sessions, eq_iff id j)
]

pub snapshot-append :
    (now : ℕ) (id : Str) (msg : Message) (s : MemoryStore)
    → (append_and_snapshot now id msg s).1 ≡ append now id msg s
unfolding append append_and_snapshot
snapshot-append now id msg s = ground arith

-- The snapshot is the conversation as it stands right behind the appended message.
pub snapshot-history :
    (now : ℕ) (id : Str) (msg : Message) (s : MemoryStore)
    → (append_and_snapshot now id msg s).0 ≡ or_else (history (append now id msg s) id) []
unfolding append_and_snapshot history append
snapshot-history now id msg s = elim (Option-cases (lookup id s.sessions)) [
  | inl e ↦ ground arith
  | inr (sess, e) ↦
      ground (arith, lookup-insert id id (with_message now msg sess) s.sessions, eq_refl id)
]

-- The messages that the calls add to the conversation under `id`, in order.
unfoldable pub additions : Str → List Call → List Message
additions id [] = []
additions id (append_call now j msg ∷ cs) =
    let rest = additions id cs in if j == id then msg ∷ rest else rest
additions id (snapshot_call now j msg ∷ cs) =
    let rest = additions id cs in if j == id then msg ∷ rest else rest
additions id (_ ∷ cs) = additions id cs

-- The reaper does not run among the calls.
abbrev pub HasNoReap : List Call → Type 0
HasNoReap [] = Unit
HasNoReap (reap_call now ∷ cs) = ⊥
HasNoReap (_ ∷ cs) = HasNoReap cs

-- While the reaper does not run, a conversation that exists keeps all its messages in place, and
-- grows by exactly the messages appended under its own id, in the order of the calls; creating it
-- again changes nothing, and calls under other ids do not touch it.
pub history-apply_all :
    (cs : List Call) (s : MemoryStore) (id : Str) (ms : List Message)
    → HasNoReap cs
    → history s id ≡ some ms
    → history (apply_all cs s) id ≡ some (ms ++ additions id cs)
unfolding apply_all additions apply grown
history-apply_all [] s id ms n h = rw append-nil h
history-apply_all (get_or_create_call now j prompt ∷ cs) s id ms n h =
    history-apply_all cs _ id ms n
      (ground (arith, history-get_or_create now j id prompt s, eq_iff j id))
history-apply_all (append_call now j msg ∷ cs) s id ms n h = elim (Bool-cases (j == id)) [
  | inl e ↦ rw e (
      rw (← append_assoc ms (msg ∷ []) (additions id cs)) (
        history-apply_all cs _ id (ms ++ msg ∷ []) n
          (ground (arith, history-append now j id msg s))))
  | inr e ↦ rw e (history-apply_all cs _ id ms n (ground (arith, history-append now j id msg s)))
]
history-apply_all (snapshot_call now j msg ∷ cs) s id ms n h = elim (Bool-cases (j == id)) [
  | inl e ↦
      rw (e, snapshot-append)
        (rw (← append_assoc ms (msg ∷ []) (additions id cs)) (
          history-apply_all cs _ id (ms ++ msg ∷ []) n
            (ground (arith, history-append now j id msg s))))
  | inr e ↦
      rw (e, snapshot-append)
        (history-apply_all cs _ id ms n (ground (arith, history-append now j id msg s)))
]
history-apply_all (reap_call now ∷ cs) s id ms n h = absurd n

unfoldable pub kept : ℕ → ℕ → Option Session → Option Session
kept ttl now none = none
kept ttl now (some sess) = if expired ttl now sess then none else some sess

pub lookup-without_expired :
    (ttl now : ℕ) (id : Str) (m : Map Session)
    → IsUnique m
    → lookup id (without_expired ttl now m) ≡ kept ttl now (lookup id m)
unfolding without_expired lookup kept
lookup-without_expired ttl now id [] u = refl
lookup-without_expired ttl now id ((j, sess) ∷ m) (fresh, u) =
    ground (arith, lookup-without_expired ttl now id m u, eq_iff j id)

without_expired-IsUnique :
    (ttl now : ℕ) (m : Map Session) → IsUnique m → IsUnique (without_expired ttl now m)
unfolding without_expired kept
without_expired-IsUnique ttl now [] u = tt
without_expired-IsUnique ttl now ((j, sess) ∷ m) (fresh, u) =
    elim (Bool-cases (expired ttl now sess)) [
      | inl e ↦ rw e (without_expired-IsUnique ttl now m u)
      | inr e ↦ rw e (
        ground (arith, lookup-without_expired ttl now j m u),
        without_expired-IsUnique ttl now m u,
      )
    ]

append-IsUnique :
    (now : ℕ) (id : Str) (msg : Message) (s : MemoryStore)
    → IsUnique s.sessions
    → IsUnique (append now id msg s).sessions
unfolding append
append-IsUnique now id msg s u = elim (Option-cases (lookup id s.sessions)) [
  | inl e ↦ subst IsUnique {x = s.sessions} (ground arith) u
  | inr (sess, e) ↦
      subst IsUnique (ground arith) (insert-IsUnique id (with_message now msg sess) s.sessions u)
]

pub apply-IsUnique :
    (c : Call) (s : MemoryStore) → IsUnique s.sessions → IsUnique (apply c s).sessions
unfolding apply get_or_create reap
apply-IsUnique (get_or_create_call now id prompt) s u = elim (Option-cases (lookup id s.sessions)) [
  | inl e ↦
      subst IsUnique (ground arith) (insert-IsUnique id (new_session now id prompt) s.sessions u)
  | inr (sess, e) ↦ subst IsUnique {x = s.sessions} (ground arith) u
]
apply-IsUnique (append_call now id msg) s u = append-IsUnique now id msg s u
apply-IsUnique (snapshot_call now id msg) s u = rw snapshot-append (append-IsUnique now id msg s u)
apply-IsUnique (reap_call now) s u = without_expired-IsUnique s.ttl now s.sessions u

-- A session that has been idle for too long is handed out again without being marked as active: if
-- the reaper runs between that and the append, the snapshot that the model would be given is empty,
-- and the store has no session under that id behind it, so that the message is lost.
pub snapshot_after_reap :
    (now : ℕ) (id prompt : Str) (msg : Message) (sess : Session) (s : MemoryStore)
    → IsUnique s.sessions
    → get id s ≡ some sess
    → s.ttl < now - sess.last_active
    → ((append_and_snapshot now id msg (reap now (get_or_create now id prompt s).1)).0 ≡ [])
      × (get id (append_and_snapshot now id msg (reap now (get_or_create now id prompt s).1)).1
          ≡ none)
unfolding get append_and_snapshot reap get_or_create kept expired
snapshot_after_reap now id prompt msg sess s u h idle =
    let gone = lookup-without_expired s.ttl now id s.sessions u in
    (ground (arith, gone), ground (arith, gone))
