-- ===== src/Bridge.antt =====
-- internal/bridge/executor.go: one A2A message, from the event stream to the session.
pub mod Keys
pub mod Events
pub mod Memory
pub mod Examples
use docsclaw.Base.{
  ℕ, suc, ◌+◌, Str, bytes, ◌==◌, join, Option, none, some, List, [], ◌∷◌, ◌++◌, Bool, true, false,
  not, ◌&&◌, take, if◌then◌else◌, Result, ok, err, or_else, length,
}
use docsclaw.Llm.{Message, text_message}
use docsclaw.Auth.Verify.{Claims}

-- The interface `SessionStore` as far as the executor uses it; of a session that `GetOrCreate`
-- gives only the error is read.
pub record SessionStore (W : Type 0) : Type 0 where
  pub get_or_create : Str → Str → W → Result Str (Unit {0}) × W
  pub append : Str → Message → W → Result Str (Unit {0}) × W
  pub append_and_snapshot : Str → Message → W → Result Str (List Message) × W

pub record AgentExecutor (W : Type 0) : Type 0 where
  pub process_message : Option (List Message → W → Result Str Str × W)
  pub sessions : Option (SessionStore W)
  pub system_prompt : Str

-- What the executor reads of its context: whether a task is stored, the texts of the message's
-- parts, the values of "x-session-id", and the verified claims.
pub record ExecContext : Type 0 where
  pub has_task : Bool
  pub parts : List Str
  pub session_ids : List Str
  pub claims : Option Claims

pub data Event : Type 0 where
  submitted working completed canceled : Event
  failed artifact : Str → Event

-- "Without claims it falls back to the caller-provided ID; an empty ID means stateless."
pub session_key : Option Claims → Str → Str
session_key claims session_id = if session_id == [] then [] else elim claims [
  | none ↦ session_id
  | some c ↦ c.subject ++ (bytes "|" ++ (c.azp ++ (bytes "|" ++ session_id)))
]

nonempty : List Str → List Str
nonempty [] = []
nonempty (t ∷ parts) = let rest = nonempty parts in if t == [] then rest else t ∷ rest

pub extract_text : List Str → Str
unfolding nonempty
extract_text parts = join (10 ∷ []) (nonempty parts)

first_or_empty : List Str → Str
first_or_empty [] = []
first_or_empty (s ∷ _) = s

-- the key of the session that the message belongs to
pub key_of : ExecContext → Str
unfolding first_or_empty
key_of ctx = session_key ctx.claims (take 64 (first_or_empty ctx.session_ids))

-- `accepts` says whether the consumer goes on after an event.
deliver : Bool → Str → List Event
deliver accepts result = if accepts then artifact result ∷ completed ∷ [] else artifact result ∷ []

pub cancel : List Event
cancel = canceled ∷ []

module _ {W : Type 0} where
  -- `e.Sessions` where it is not nil and the session id is not empty
  store_for : Option (SessionStore W) → Str → Option (SessionStore W)
  store_for sessions key = if key == [] then none else sessions

  -- the error of the last append is logged only
  save : Option (SessionStore W) → Str → Str → W → W
  save none key result w = w
  save (some st) key result w = (st.append key (text_message (bytes "assistant") result) w).1

  finish : Option (SessionStore W) → Str → Bool → Result Str Str → W → List Event × W
  unfolding save deliver
  finish st key accepts (err e) w = (failed (bytes "Processing failed: " ++ e) ∷ [], w)
  finish st key accepts (ok result) w = (deliver accepts result, save st key result w)

  run_messages :
      (List Message → W → Result Str Str × W)
      → Option (SessionStore W)
      → Str
      → Bool
      → Result Str (List Message)
      → W
      → List Event × W
  unfolding finish
  run_messages process st key accepts (err e) w = (failed (bytes "Session error: " ++ e) ∷ [], w)
  run_messages process st key accepts (ok messages) w =
      let (result, w') = process messages w in finish st key accepts result w'

  after_create :
      (List Message → W → Result Str Str × W)
      → SessionStore W
      → Str
      → Str
      → Bool
      → Result Str (Unit {0})
      → W
      → List Event × W
  unfolding run_messages
  after_create process st key text accepts (err e) w =
      (failed (bytes "Session error: " ++ e) ∷ [], w)
  after_create process st key text accepts (ok _) w =
      let (messages, w') = st.append_and_snapshot key (text_message (bytes "user") text) w in
      run_messages process (some st) key accepts messages w'

  converse :
      Str
      → (List Message → W → Result Str Str × W)
      → Option (SessionStore W)
      → Str
      → Str
      → Bool
      → W
      → List Event × W
  converse prompt process none key text accepts w =
      run_messages process none key accepts
        (ok (text_message (bytes "system") prompt ∷ text_message (bytes "user") text ∷ [])) w
  converse prompt process (some st) key text accepts w =
      let (created, w') = st.get_or_create key prompt w in
      after_create process st key text accepts created w'

  -- everything behind the transition to the working state
  work : AgentExecutor W → ExecContext → Bool → W → List Event × W
  work e ctx accepts w = elim (e.process_message) [
    | none ↦ (failed (bytes "agent not configured") ∷ [], w)
    | some process ↦
        converse e.system_prompt process (store_for e.sessions (key_of ctx)) (key_of ctx)
          (extract_text ctx.parts) accepts w
  ]

  -- `accepts n` is what the consumer's `yield` returns for the event with index `n`. The result is
  -- the events that were yielded, the one that ended the stream included.
  pub execute : AgentExecutor W → ExecContext → (ℕ → Bool) → W → List Event × W
  execute e ctx accepts w =
      let first : List Event = if ctx.has_task then [] else submitted ∷ [] in
      let n = length first in
      let (rest, w') = work e ctx (accepts (suc n)) w in
      if not ctx.has_task && not (accepts 0)
      then (first, w)
      else if not (accepts n)
      then (first ++ working ∷ [], w)
      else (first ++ working ∷ rest, w')
