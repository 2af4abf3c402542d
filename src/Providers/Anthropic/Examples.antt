-- ===== src/Providers/Anthropic/Examples.antt =====
-- Runs of the Anthropic client, and the theorems on them.
use docsclaw.Base.{ℕ, Str, bytes, ◌==◌, none, some, Option, List, [], ◌∷◌, ◌++◌, ◌≡◌, refl, ok, err}
use docsclaw.Llm.{ToolDefinition}
use docsclaw.Tools.{definitions}
use docsclaw.Tools.Examples.{
  runtime, runtime-IsComplete, registry, config, start, after_round, asking, first_round,
}
use docsclaw.Tools.Shapes.{is_user}
use docsclaw.Providers.Anthropic.{
  AnthropicProvider, ContentBlock, text_content, tool_use_content, SdkMessage, no_message, Sdk,
  params_of, text_content_of, usage_of, emitted, accumulate_all, parse_input, tool_calls_of,
  response_of, finish_message, finish_stream, stream_with_tools, complete_with_tools, provider_of,
}
use docsclaw.Providers.Anthropic.Paired.{IsAccepted, Reached-sent-IsAccepted}

abbrev two_uses : List ContentBlock
two_uses =
    tool_use_content (bytes "1") (bytes "echo") []
    ∷ tool_use_content (bytes "2") (bytes "echo") []
    ∷ []

-- An event is a text, or `none` for all tool uses.
abbrev add_event : Option Str → SdkMessage → SdkMessage
add_event (some t) m = record m { content = text_content (text_content_of m.content ++ t) ∷ [] }
add_event none m = record m {
  content = text_content (text_content_of m.content) ∷ two_uses;
  stop_reason = bytes "tool_use";
}

abbrev sdk_of : List (Option Str) → Sdk ℕ (Option Str)
sdk_of events = record {
  new_message = λ _ _ w. (ok no_message, w);
  new_streaming = λ _ _ w. ((events, none), w);
  text_of = λ event. event;
  accumulate = λ event m. ok (add_event event m);
  unmarshal_args = λ _. err [];
}

abbrev provider : AnthropicProvider
provider = record { api_key = bytes "k"; model = bytes "m"; max_tokens = 10; timeout = 45 }

asks_with :
    (tools : List ToolDefinition)
    → complete_with_tools (sdk_of (none ∷ [])) provider start tools 0 ≡ (ok asking, 0)
unfolding complete_with_tools stream_with_tools accumulate_all emitted finish_stream finish_message
    response_of tool_calls_of parse_input text_content_of usage_of bytes ◌==◌
asks_with tools = refl

asks :
    (provider_of (sdk_of (none ∷ [])) provider).complete_with_tools start (definitions registry) 0
    ≡ (ok asking, 0)
unfolding provider_of
asks = asks_with (definitions registry)

Reached-sent-IsAccepted_example :
    IsAccepted [] (params_of provider after_round (definitions registry)).messages
Reached-sent-IsAccepted_example =
    Reached-sent-IsAccepted (sdk_of (none ∷ [])) runtime provider registry config
      (definitions registry) runtime-IsComplete (is_user refl refl refl, tt) (refl, refl)
      (first_round (provider_of (sdk_of (none ∷ [])) provider) asks)
