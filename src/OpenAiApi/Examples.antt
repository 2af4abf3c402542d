-- ===== src/OpenAiApi/Examples.antt =====
-- A text that is streamed, and a client that sends a system message.
use docsclaw.Base.{ap, ◌∙◌, ℕ, some, ok, inr, refl, bytes, [], ◌∷◌, ◌≡◌}
use docsclaw.OpenAiApi.Streams.{stream_completion-complete, complete-tools}
use docsclaw.Tools.Examples.{runtime, registry, config, answerer, answers, definitions_of_registry}
use docsclaw.Llm.{no_usage, text_message}
use docsclaw.OpenAiApi.{Handler, with_tools, complete, only_content, stream_completion}
use docsclaw.OpenAiApi.Tokens.{delivered}

abbrev handler : Handler ℕ
handler = record {
  provider = some answerer;
  system_prompt = [];
  registry = some registry;
  loop_config = config;
}

has_tools : with_tools (some registry) ≡ some registry
unfolding with_tools
has_tools = rw (definitions_of_registry, with_tools)

completes : complete runtime handler (bytes "be kind") [] 7 ≡ (ok (bytes "hi", no_usage), 7)
unfolding only_content
completes =
    complete-tools runtime handler answerer registry (bytes "be kind") [] 7 refl has_tools
    ∙ ap (only_content runtime handler)
        (answers (text_message (bytes "system") (bytes "be kind") ∷ []))

stream_completion-complete_example :
    (delivered
        (stream_completion runtime handler 3 (bytes "id") (bytes "m") (bytes "be kind") [] 7).0
      ≡ bytes "hi")
    × ((stream_completion runtime handler 3 (bytes "id") (bytes "m") (bytes "be kind") [] 7).1 ≡ 7)
stream_completion-complete_example =
    stream_completion-complete runtime handler 3 (bytes "id") (bytes "m") (bytes "be kind")
      (bytes "hi") [] no_usage 7 7 (inr (registry, has_tools)) completes
