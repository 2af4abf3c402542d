-- ===== src/Providers/OpenAi/Wire/Examples.antt =====
-- The tool loop with the OpenAI client as its provider, and the theorem on what it sends.
use docsclaw.Base.{
  ℕ, Str, bytes, ◌==◌, strip_prefix, none, some, List, [], ◌∷◌, ◌≡◌, refl, ok, err, pos, int_eq,
  if◌then◌else◌,
}
use docsclaw.Llm.{ToolDefinition}
use docsclaw.Tools.{definitions}
use docsclaw.Tools.Examples.{
  runtime, runtime-IsComplete, registry, config, start, after_round, asking, first_round,
}
use docsclaw.Tools.Shapes.{is_user}
use docsclaw.Providers.OpenAi.Wire.{
  OpenAiProvider, WireMessage, ToolDelta, StreamChunk, replied, Api, convert_message,
  convert_messages,
}
use docsclaw.Providers.OpenAi.Wire.Paired.{IsAnswered, Reached-IsAnswered}
use docsclaw.Providers.OpenAi.Reading.{
  find_call, put_call, extend_call, add_delta, add_deltas, newer, read_text, read_chunk, read_line,
  read_lines,
}
use docsclaw.Providers.OpenAi.Client.{
  call_of, calls_from, usage_of, response_of, finish_reading, on_http, on_sent, request_of,
  request_body, stream_with_tools, complete_with_tools, provider_of,
}

abbrev echo_delta : ℕ → Str → ToolDelta
echo_delta i id = record { index = pos i; id = id; name = bytes "echo"; arguments = bytes "{}" }

abbrev asking_chunk : StreamChunk
asking_chunk = record {
  choices =
      record {
        content = [];
        tool_calls = echo_delta 0 (bytes "1") ∷ echo_delta 1 (bytes "2") ∷ [];
        finish_reason = some (bytes "tool_calls");
      }
      ∷ [];
  usage = none;
}

abbrev api : Api ℕ
api = record {
  marshal_args = λ _. ok (bytes "{}");
  unmarshal_args = λ s. if s == bytes "{}" then some [] else none;
  marshal_chat = λ _. ok [];
  unmarshal_chat = λ _. err [];
  marshal_request = λ _. ok (bytes "body");
  unmarshal_chunk = λ _. some asking_chunk;
  post = λ _ _ _ w. (
    replied (record {
      status = 200;
      body = [];
      read_err = none;
      lines = bytes "data: 1" ∷ [];
      scan_err = none;
    }),
    w,
  );
  ctx_err = λ _ _. none;
}

abbrev provider : OpenAiProvider
provider = record {
  base_url = bytes "http://x";
  api_key = bytes "k";
  model = bytes "m";
  max_tokens = 10;
  timeout = 45;
  provider_name = bytes "openai";
}

asks_with :
    (tools : List ToolDefinition) → complete_with_tools api provider start tools 0 ≡ (ok asking, 0)
unfolding complete_with_tools stream_with_tools request_body request_of convert_messages
    convert_message on_sent on_http finish_reading response_of calls_from usage_of call_of
    read_lines read_line read_chunk read_text newer add_deltas add_delta find_call put_call
    extend_call bytes ◌==◌ strip_prefix int_eq
asks_with tools = refl

asks :
    (provider_of api provider).complete_with_tools start (definitions registry) 0 ≡ (ok asking, 0)
unfolding provider_of
asks = asks_with (definitions registry)

Reached-IsAnswered_example :
    (wire : List WireMessage) × (convert_messages api after_round ≡ ok wire) × IsAnswered [] wire
Reached-IsAnswered_example =
    Reached-IsAnswered api runtime provider registry config (λ _. (bytes "{}", refl))
      runtime-IsComplete (is_user refl refl refl, tt) (refl, refl)
      (first_round (provider_of api provider) asks)
