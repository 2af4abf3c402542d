-- ===== src/OpenAiApi/Streams.antt =====
-- handler.go: a streamed completion against a whole one.
use docsclaw.Base.{
  ℕ, Str, bytes, none, some, List, ◌≡◌, ◌⊎◌, inl, inr, sym, ◌∙◌, arith, Result, ok, err,
  Option-cases,
}
use docsclaw.Llm.{Message, Usage, Provider}
use docsclaw.Tools.{Registry, Runtime, run_tool_loop}
use docsclaw.OpenAiApi.{
  Handler, with_tools, all_messages, only_content, complete, streamed_loop, stream_completion,
}
use docsclaw.OpenAiApi.Tokens.{delivered, delivered-stream_response}

module _ {W : Type 0} (rt : Runtime W) (h : Handler W) where
  -- The stream is made from a whole answer: there is no provider, or the tool loop runs.
  abbrev pub Simulated : Type 0
  Simulated = (h.provider ≡ none) ⊎ ((r : Registry W) × (with_tools h.registry ≡ some r))

  pub complete-tools :
      (p : Provider W) (r : Registry W) (prompt : Str) (msgs : List Message) (w : W)
      → h.provider ≡ some p
      → with_tools h.registry ≡ some r
      → complete rt h prompt msgs w
        ≡ only_content rt h (run_tool_loop rt p r h.loop_config (all_messages rt h prompt msgs) w)
  unfolding complete
  complete-tools p r prompt msgs w e tools = ground (arith, e, tools)

  stream-tools :
      (now : ℕ) (id model : Str) (p : Provider W) (r : Registry W) (prompt : Str)
      (msgs : List Message) (w : W)
      → h.provider ≡ some p
      → with_tools h.registry ≡ some r
      → stream_completion rt h now id model prompt msgs w
        ≡ streamed_loop rt h now id model
            (run_tool_loop rt p r h.loop_config (all_messages rt h prompt msgs) w)
  unfolding stream_completion
  stream-tools now id model p r prompt msgs w e tools = ground (arith, e, tools)

  module _ (now : ℕ) (id model : Str) where
    loop-same :
        (looped : Result Str Str × W) (content : Str) (usage : Usage) (v : W)
        → only_content rt h looped ≡ (ok (content, usage), v)
        → (delivered (streamed_loop rt h now id model looped).0 ≡ content)
          × ((streamed_loop rt h now id model looped).1 ≡ v)
    unfolding only_content streamed_loop
    loop-same (err e, w) content usage v same = absurd (cc)
    loop-same (ok answer, w) content usage v same =
        (delivered-stream_response now id model answer ∙ ground arith, ground arith)

    -- Where the stream is made from a whole answer, a client that puts its events together gets the
    -- content of the completion that is not streamed, and what happens outside is the same.
    pub stream_completion-complete :
        (prompt content : Str) (msgs : List Message) (usage : Usage) (w v : W)
        → Simulated
        → complete rt h prompt msgs w ≡ (ok (content, usage), v)
        → (delivered (stream_completion rt h now id model prompt msgs w).0 ≡ content)
          × ((stream_completion rt h now id model prompt msgs w).1 ≡ v)
    unfolding complete stream_completion
    stream_completion-complete prompt content msgs usage w v simulated same =
        elim (Option-cases h.provider) [
          | inl no_provider ↦
              let text =
                delivered-stream_response now id model (bytes "LLM provider not configured.") in
              ground (arith, no_provider, text)
          | inr (p, e) ↦ elim simulated [
            | inl no_provider ↦ absurd (cc (e, no_provider))
            | inr (r, tools) ↦
                let run = run_tool_loop rt p r h.loop_config (all_messages rt h prompt msgs) w in
                rw (stream-tools now id model p r prompt msgs w e tools) (
                  loop-same run content usage v
                    (sym (complete-tools p r prompt msgs w e tools) ∙ same))
          ]
        ]
