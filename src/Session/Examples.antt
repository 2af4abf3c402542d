-- ===== src/Session/Examples.antt =====
-- One conversation that is created, answered, left idle and asked for again.
use docsclaw.Base.{
  ◌-◌, ◌<◌, ◌++◌, bytes, ◌==◌, lookup, insert, IsUnique, none, some, List, [], ◌∷◌, ◌≡◌, refl,
  arith,
}
use docsclaw.Llm.{Message, text_message}
use docsclaw.Session.{
  Session, MemoryStore, new_memory_store, get_or_create, get, append_and_snapshot, reap, Call,
  get_or_create_call, append_call, snapshot_call, reap_call, apply_all,
}
use docsclaw.Session.History.{history, additions, history-apply_all, snapshot_after_reap}
use docsclaw.Session.Idle.{idle_since, use_after, last_use, idle_since-apply_all}

abbrev hello : Message
hello = text_message (bytes "user") (bytes "hello")

abbrev bye : Message
bye = text_message (bytes "user") (bytes "bye")

abbrev prompt : Message
prompt = text_message (bytes "system") (bytes "be kind")

-- the store after a session "a" was created at 10, with a time to live of 5
store : MemoryStore
unfolding get_or_create new_memory_store
store = (get_or_create 10 (bytes "a") (bytes "be kind") (new_memory_store 5)).1

abbrev calls : List Call
calls =
    append_call 11 (bytes "a") hello
    ∷ append_call 11 (bytes "b") hello
    ∷ get_or_create_call 12 (bytes "a") (bytes "other")
    ∷ snapshot_call 13 (bytes "a") bye
    ∷ []

one_message : history store (bytes "a") ≡ some (prompt ∷ [])
unfolding store get_or_create new_memory_store history lookup insert bytes ◌==◌
one_message = refl

history-apply_all_example :
    history (apply_all calls store) (bytes "a") ≡ some (prompt ∷ [] ++ additions (bytes "a") calls)
history-apply_all_example = history-apply_all calls store (bytes "a") (prompt ∷ []) tt one_message

additions_of_calls : additions (bytes "a") calls ≡ hello ∷ bye ∷ []
unfolding additions bytes ◌==◌
additions_of_calls = refl

abbrev reaped_calls : List Call
reaped_calls =
    get_or_create_call 10 (bytes "a") (bytes "be kind")
    ∷ append_call 11 (bytes "a") hello
    ∷ reap_call 16
    ∷ reap_call 17
    ∷ []

idle_since-apply_all_example :
    idle_since (get (bytes "a") (apply_all reaped_calls (new_memory_store 5)))
    ≡ last_use 5 (bytes "a") reaped_calls none
idle_since-apply_all_example = idle_since-apply_all reaped_calls 5 (bytes "a")

is_reaped : last_use 5 (bytes "a") reaped_calls none ≡ none
unfolding last_use use_after bytes ◌==◌
is_reaped = refl

abbrev session : Session
session = record { id = bytes "a"; messages = prompt ∷ []; created_at = 10; last_active = 10 }

stored : get (bytes "a") store ≡ some session
unfolding store get get_or_create new_memory_store lookup insert bytes ◌==◌
stored = refl

store-IsUnique : IsUnique store.sessions
unfolding store get_or_create new_memory_store lookup insert
store-IsUnique = (refl, tt)

idle : store.ttl < 20 - session.last_active
unfolding store get_or_create new_memory_store lookup
idle = omega arith

snapshot_after_reap_example :
    let s = reap 20 (get_or_create 20 (bytes "a") (bytes "be kind") store).1 in
    ((append_and_snapshot 20 (bytes "a") hello s).0 ≡ [])
    × (get (bytes "a") (append_and_snapshot 20 (bytes "a") hello s).1 ≡ none)
snapshot_after_reap_example =
    snapshot_after_reap 20 (bytes "a") (bytes "be kind") hello session store store-IsUnique stored
      idle
