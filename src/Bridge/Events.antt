-- ===== src/Bridge/Events.antt =====
-- executor.go, Execute: the events of one message.
use docsclaw.Base.{
  Str, bytes, Option, none, some, List, [], ◌∷◌, true, ◌≡◌, refl, arith, if◌then◌else◌, Result, ok,
  err,
}
use docsclaw.Llm.{Message, text_message}
use docsclaw.Bridge.{
  SessionStore, AgentExecutor, ExecContext, Event, submitted, working, completed, failed, artifact,
  store_for, deliver, finish, run_messages, after_create, converse, work, execute, key_of,
  extract_text,
}

-- How the stream goes on behind the working state: it fails, or it delivers a text and completes.
pub data Outcome : List Event → Type 0 where
  fails : (reason : Str) → Outcome (failed reason ∷ [])
  delivers : (text : Str) → Outcome (artifact text ∷ completed ∷ [])

module _ {W : Type 0} where
  finish-Outcome :
      (st : Option (SessionStore W)) (key : Str) (r : Result Str Str) (w : W)
      → Outcome (finish st key true r w).0
  unfolding finish deliver
  finish-Outcome st key (err e) w = fails _
  finish-Outcome st key (ok text) w = delivers text

  module _ (process : List Message → W → Result Str Str × W) where
    run_messages-Outcome :
        (st : Option (SessionStore W)) (key : Str) (m : Result Str (List Message)) (w : W)
        → Outcome (run_messages process st key true m w).0
    unfolding run_messages
    run_messages-Outcome st key (err e) w = fails _
    run_messages-Outcome st key (ok ms) w = finish-Outcome st key _ _

    after_create-Outcome :
        (st : SessionStore W) (key text : Str) (c : Result Str (Unit {0})) (w : W)
        → Outcome (after_create process st key text true c w).0
    unfolding after_create
    after_create-Outcome st key text (err e) w = fails _
    after_create-Outcome st key text (ok _) w = run_messages-Outcome (some st) key _ _

    converse-Outcome :
        (prompt : Str) (st : Option (SessionStore W)) (key text : Str) (w : W)
        → Outcome (converse prompt process st key text true w).0
    unfolding converse
    converse-Outcome prompt none key text w =
        run_messages-Outcome none key
          (ok (text_message (bytes "system") prompt ∷ text_message (bytes "user") text ∷ [])) w
    converse-Outcome prompt (some st) key text w =
        let (created, w') = st.get_or_create key prompt w in
        after_create-Outcome st key text created w'

  work-Outcome : (e : AgentExecutor W) (ctx : ExecContext) (w : W) → Outcome (work e ctx true w).0
  unfolding work
  work-Outcome e ctx w = by_process e.process_message refl
    where
      by_process :
          (p : Option (List Message → W → Result Str Str × W))
          → e.process_message ≡ p
          → Outcome (work e ctx true w).0
      by_process none same = rw (same, work) (fails _)
      by_process (some process) same =
          rw (same, work)
            (converse-Outcome process e.system_prompt (store_for e.sessions (key_of ctx))
              (key_of ctx) (extract_text ctx.parts) w)

  -- For a consumer that reads on, whatever the store and the processor do, the stream is: the
  -- submission if the task is new, the working state, and then one failure or one artifact and the
  -- completion. It ends exactly once, and never both fails and completes.
  pub execute-Outcome :
      (e : AgentExecutor W) (ctx : ExecContext) (w : W)
      → (rest : List Event) × Outcome rest
        × ((execute e ctx (λ _. true) w).0
            ≡ (if ctx.has_task then working ∷ rest else submitted ∷ working ∷ rest))
  unfolding execute
  execute-Outcome e ctx w = ((work e ctx true w).0, work-Outcome e ctx w, ground arith)
