-- ===== src/Bridge/Memory.antt =====
-- executor.go over the store of internal/session/store.go: what a message does to a conversation.
use docsclaw.Base.{
  ℕ, Str, bytes, ◌==◌, eq_iff, eq_refl, Option, some, List, [], ◌∷◌, ◌++◌, true, false, ◌≡◌, ◌≢◌,
  refl, sym, ap, ◌∙◌, arith, or_else, if◌then◌else◌, Result, ok, Bool-cases, inl, inr,
}
use docsclaw.Llm.{Message, text_message}
use docsclaw.Session
use docsclaw.Session.{MemoryStore}
use docsclaw.Session.History.{
  history, grown, history-get_or_create, history-append, snapshot-append, snapshot-history,
}
use docsclaw.Bridge.{
  SessionStore, AgentExecutor, ExecContext, store_for, run_messages, after_create, converse, work,
  execute, key_of, extract_text,
}

-- `MemoryStore` as a `SessionStore`, while the clock stands at `now`; its errors are always nil.
abbrev pub memory_store : ℕ → SessionStore MemoryStore
memory_store now = record {
  get_or_create = λ id prompt s. (ok tt, (Session.get_or_create now id prompt s).1);
  append = λ id msg s. (ok tt, Session.append now id msg s);
  append_and_snapshot = λ id msg s. (
    ok (Session.append_and_snapshot now id msg s).0,
    (Session.append_and_snapshot now id msg s).1,
  );
}

-- A processor that answers from the messages alone, and an executor over the store.
abbrev pub answering :
    (List Message → Str) → List Message → MemoryStore → Result Str Str × MemoryStore
answering reply ms s = (ok (reply ms), s)

abbrev pub executor : ℕ → Str → (List Message → Str) → AgentExecutor MemoryStore
executor now prompt reply = record {
  process_message = some (answering reply);
  sessions = some (memory_store now);
  system_prompt = prompt;
}

-- The conversation as the processor sees it for a new user text.
abbrev pub asked : Str → Str → Option (List Message) → List Message
asked prompt text before =
    or_else before (text_message (bytes "system") prompt ∷ [])
    ++ text_message (bytes "user") text ∷ []

abbrev pub answered : List Message → Str → List Message
answered ms result = ms ++ text_message (bytes "assistant") result ∷ []

execute-work :
    {W : Type 0} (e : AgentExecutor W) (ctx : ExecContext) (w : W)
    → (execute e ctx (λ _. true) w).1 ≡ (work e ctx true w).1
unfolding execute
execute-work e ctx w = ground arith

module _ (now : ℕ) (prompt : Str) (reply : List Message → Str) (key text : Str)
    (s : MemoryStore) where
  abbrev created : MemoryStore
  created = (Session.get_or_create now key prompt s).1

  abbrev told : MemoryStore
  told = Session.append now key (text_message (bytes "user") text) created

  created-history :
      history created key
      ≡ some (or_else (history s key) (text_message (bytes "system") prompt ∷ []))
  created-history = history-get_or_create now key key prompt s ∙ (rw eq_refl)

  told-history : history told key ≡ some (asked prompt text (history s key))
  told-history =
      history-append now key key (text_message (bytes "user") text) created
      ∙ (rw eq_refl (rw created-history (unfold grown in refl)))

  converse-history :
      (j : Str)
      → history (converse prompt (answering reply) (some (memory_store now)) key text true s).1 j
        ≡ (if key == j
            then some (
                answered
                  (asked prompt text (history s key))
                  (reply (asked prompt text (history s key))))
            else history s j)
  unfolding converse after_create run_messages
  converse-history j =
      let user : Message = text_message (bytes "user") text in
      let seen : (Session.append_and_snapshot now key user created).0
          ≡ asked prompt text (history s key) =
        snapshot-history now key user created ∙ (rw told-history refl) in
      let seen_by : List Message = asked prompt text (history s key) in
      rw (snapshot-append, seen)
        (rw history-append (elim (Bool-cases (key == j)) [
          | inl e ↦ rw e (
              ap (λ k. grown (text_message (bytes "assistant") (reply seen_by)) (history told k))
                (sym ((eq_iff key j).0 e))
              ∙ (rw told-history (unfold grown in refl)))
          | inr e ↦ rw e (
              history-append now key j user created
              ∙ (rw e (history-get_or_create now key j prompt s ∙ (rw e))))
        ]))

  -- Over the in-memory store, with nothing else running meanwhile, a message with a session key adds
  -- exactly the user's text and the answer to the conversation under that key, behind what was there
  -- or behind the system prompt if it is new; the answer is the processor's to all of that up to
  -- the user's text; every other conversation stays as it is. The consumer is one that reads on.
  pub execute-history :
      (ctx : ExecContext) (j : Str)
      → key_of ctx ≡ key
      → key ≢ []
      → extract_text ctx.parts ≡ text
      → history (execute (executor now prompt reply) ctx (λ _. true) s).1 j ≡ (
          if key == j
          then some (
              answered
                (asked prompt text (history s key))
                (reply (asked prompt text (history s key))))
          else history s j)
  unfolding work store_for
  execute-history ctx j k ne t =
      let keyed : (key == []) ≡ false = ground (arith, eq_iff key []) in
      rw (execute-work (executor now prompt reply) ctx s, k, t)
        (rw (keyed, store_for) (converse-history j))
