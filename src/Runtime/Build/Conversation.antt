-- ===== src/Runtime/Build/Conversation.antt =====
-- runtime.go: Run holds a conversation with the agent.
use docsclaw.Base.{
  Str, bytes, ◌==◌, Option, none, some, List, [], ◌∷◌, ◌++◌, if◌then◌else◌, Result, ok, err,
}
use docsclaw.Llm.{Message}
use docsclaw.Tools.{Hook, Runtime, run_tool_loop}
use docsclaw.Runtime.Toolset.{World}
use docsclaw.Runtime.ConfigDir.{select_prompt}
use docsclaw.Runtime.Build.{AgentRuntime}

-- The last one wins.
last_of_user : Str → List Message → Str
last_of_user last [] = last
last_of_user last (m ∷ messages) =
    last_of_user (if m.role == bytes "user" then m.content else last) messages

pub last_user_content : List Message → Str
unfolding last_of_user
last_user_content = last_of_user []

module _ {W H S : Type 0} (world : World W H S) where
  of_loop : Result Str Str × W → Result Str Str × W
  of_loop (err e, w) = (err (bytes "agentic loop failed: " ++ e), w)
  of_loop (ok text, w) = (ok text, w)

  of_completion : Result Str Str × W → Result Str Str × W
  of_completion (err e, w) = (err (bytes "LLM request failed: " ++ e), w)
  of_completion (ok text, w) = (ok text, w)

  -- One conversation.
  pub run : Runtime W → AgentRuntime W S → List Message → Option (Hook W) → W → Result Str Str × W
  unfolding of_loop of_completion last_user_content
  run go rt messages hook w = elim (rt.registry) [
    | some r ↦ elim (rt.provider) [
      | none ↦ (err (bytes "LLM provider required for tool-use mode"), w)
      | some p ↦ of_loop (run_tool_loop go p r (record rt.loop_config { hook = hook }) messages w)
    ]
    | none ↦ elim (rt.provider) [
      | none ↦ (
        ok (bytes "## Result\n\nMock response. Configure LLM_API_KEY to enable AI processing."),
        w,
      )
      | some p ↦
          let text = last_user_content messages in
          let prompt = select_prompt world.dir rt.base_prompt rt.prompt_variants text in
          of_completion (p.complete (prompt ++ rt.skills_summary) text w)
    ]
  ]
