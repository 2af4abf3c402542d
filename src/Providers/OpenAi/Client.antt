-- ===== src/Providers/OpenAi/Client.antt =====
-- openai.go: the requests, and what is made of their replies.
use docsclaw.Providers.OpenAi.Wire.{
  OpenAiProvider, WireMessage, StreamRequest, WireUsage, ChatRequest, ChatReply, HttpReply, Sent,
  not_built, not_sent, replied, Api, convert_messages,
}
use docsclaw.Providers.OpenAi.Reading.{PendingCall, Reading, start_reading, find_call, read_lines}
use docsclaw.Base.{
  ℕ, zero, suc, ◌+◌, Str, bytes, ◌==◌, has_prefix, strip_prefix, has_suffix, take, length, ◌-◌,
  decimal, Map, Option, none, some, List, [], ◌∷◌, ◌++◌, map, Bool, true, false, not, ◌&&◌, ◌||◌,
  eqb, ℤ, pos, negsuc, int_eq, if◌then◌else◌, Result, ok, err, ◌>>=◌, ◌>>◌, or_else,
}
use docsclaw.Json.{Json, str}
use docsclaw.Llm.{
  ToolDefinition, ToolCall, ToolResultContent, Message, Usage, no_usage, Response, StreamEvent,
  text_delta, stream_done, stream_error, Provider,
}
use docsclaw.Providers.Config.{
  LlmConfig, provider_openai, provider_litellm, default_openai_model, default_litellm_model,
  default_openai_base_url,
}
pub mod Stream
pub mod Faithful
pub mod Examples

module _ {W : Type 0} (api : Api W) where
  unfoldable pub call_of : PendingCall → ToolCall
  call_of tc = record {
    id = tc.id;
    name = tc.name;
    args = or_else (api.unmarshal_args tc.args_json) ((bytes "_raw", str tc.args_json) ∷ []);
  }

  -- for i := start; i < start + n; i++
  unfoldable pub calls_from : ℕ → ℕ → List (ℤ × PendingCall) → List ToolCall
  calls_from start zero calls = []
  calls_from start (suc n) calls =
      let rest = calls_from (start + 1) n calls in
      elim (find_call (pos start) calls) [ none ↦ rest | some tc ↦ call_of tc ∷ rest ]

  unfoldable pub usage_of : Option WireUsage → Usage
  usage_of none = no_usage
  usage_of (some u) = record {
    input_tokens = u.prompt_tokens;
    output_tokens = u.completion_tokens;
    cache_read_tokens = 0;
    cache_write_tokens = 0;
    total_tokens = u.total_tokens;
  }

  unfoldable pub response_of : Reading → Response
  unfolding calls_from usage_of
  response_of s = record {
    stop_reason =
        if s.finish_reason == bytes "tool_calls" then bytes "tool_use" else bytes "end_turn";
    content = s.content;
    tool_calls = calls_from 0 (length s.calls) s.calls;
    usage = usage_of s.usage;
  }

  -- What is returned, and the events that were passed to the callback if there is one.
  unfoldable pub failed_with : Str → Str → List StreamEvent → List StreamEvent × Result Str Response
  failed_with shown e events = (events ++ stream_error shown ∷ [], err e)

  -- behind the loop; an error of the context passes no event on
  unfoldable pub finish_reading :
      Option Str → Result Str Reading × Reading → List StreamEvent × Result Str Response
  unfolding failed_with
  finish_reading scan_err (err e, s) = (s.events, err e)
  finish_reading (some e) (ok s, _) =
      failed_with (bytes "stream read error: " ++ e) (bytes "stream read error: " ++ e) s.events
  finish_reading none (ok s, _) = (s.events ++ stream_done ∷ [], ok (response_of s))

  unfoldable pub on_http : W → HttpReply → List StreamEvent × Result Str Response
  unfolding finish_reading
  on_http w reply =
      let text =
        bytes "API returned status " ++ (decimal reply.status ++ (bytes ": " ++ reply.body)) in
      if eqb reply.status 200
      then finish_reading reply.scan_err (read_lines api w 0 reply.lines start_reading)
      else failed_with text text []

  unfoldable pub on_sent : Sent × W → (List StreamEvent × Result Str Response) × W
  unfolding on_http failed_with
  on_sent (not_built e, w) = (([], err (bytes "failed to create request: " ++ e)), w)
  on_sent (not_sent e, w) =
      (failed_with (bytes "API request failed: " ++ e) (bytes "API request failed: " ++ e) [], w)
  on_sent (replied reply, w) = (on_http w reply, w)

  unfoldable pub request_of :
      OpenAiProvider → List ToolDefinition → List WireMessage → StreamRequest
  request_of p tools msgs = record {
    model = p.model;
    messages = msgs;
    tools = tools;
    max_tokens = p.max_tokens;
  }

  -- the body of the request, or the error that keeps it from being sent
  unfoldable pub request_body : OpenAiProvider → List Message → List ToolDefinition → Result Str Str
  unfolding request_of
  request_body p messages tools = elim (convert_messages api messages) [
    | err e ↦ err e
    | ok msgs ↦ elim (api.marshal_request (request_of p tools msgs)) [
      | err e ↦ err (bytes "failed to marshal request: " ++ e)
      | ok body ↦ ok body
    ]
  ]

  unfoldable pub stream_with_tools :
      OpenAiProvider
      → List Message
      → List ToolDefinition
      → W
      → (List StreamEvent × Result Str Response) × W
  unfolding on_sent
  stream_with_tools p messages tools w = elim (request_body p messages tools) [
    | err e ↦ (([], err e), w)
    | ok body ↦
        on_sent
          (api.post (p.base_url ++ bytes "/chat/completions") (bytes "Bearer " ++ p.api_key) body w)
  ]

  -- without a callback
  unfoldable pub complete_with_tools :
      OpenAiProvider → List Message → List ToolDefinition → W → Result Str Response × W
  complete_with_tools p messages tools w =
      let (streamed, w') = stream_with_tools p messages tools w in (streamed.1, w')

  -- What `Complete` makes of a reply.
  read_chat : ChatReply → Result Str Str
  read_chat reply = elim (reply.choices) [
    | [] ↦ err (bytes "empty response from API")
    | text ∷ _ ↦ ok text
  ]

  on_status : ℕ → Str → Result Str Str
  on_status status body =
      let plain = bytes "API returned status " ++ (decimal status ++ (bytes ": " ++ body)) in
      elim (api.unmarshal_chat body) [
        | err e ↦ err plain
        | ok reply ↦ elim (reply.error) [
          | none ↦ err plain
          | some message ↦ err (bytes "API error (" ++ (decimal status ++ (bytes "): " ++ message)))
        ]
      ]

  on_body : HttpReply → Result Str Str
  unfolding read_chat on_status
  on_body reply = elim (reply.read_err) [
    | some e ↦ err (bytes "failed to read response: " ++ e)
    | none ↦
        if eqb reply.status 200
        then (elim (api.unmarshal_chat reply.body) [
          | err e ↦ err (bytes "failed to parse response: " ++ e)
          | ok chat ↦ read_chat chat
        ])
        else on_status reply.status reply.body
  ]

  on_answer : Sent × W → Result Str Str × W
  unfolding on_body
  on_answer (not_built e, w) = (err (bytes "failed to create request: " ++ e), w)
  on_answer (not_sent e, w) = (err (bytes "API request failed: " ++ e), w)
  on_answer (replied reply, w) = (on_body reply, w)

  chat_of : OpenAiProvider → Str → Str → ChatRequest
  chat_of p system_prompt user_prompt = record {
    model = p.model;
    messages = (bytes "system", system_prompt) ∷ (bytes "user", user_prompt) ∷ [];
    max_tokens = p.max_tokens;
  }

  pub complete : OpenAiProvider → Str → Str → W → Result Str Str × W
  unfolding on_answer chat_of
  complete p system_prompt user_prompt w =
      elim (api.marshal_chat (chat_of p system_prompt user_prompt)) [
        | err e ↦ (err (bytes "failed to marshal request: " ++ e), w)
        | ok body ↦ on_answer (
            api.post (p.base_url ++ bytes "/chat/completions") (bytes "Bearer " ++ p.api_key) body
              w)
      ]

  -- `OpenAICompatProvider` as a `Provider`
  unfoldable pub provider_of : OpenAiProvider → Provider W
  provider_of p = record {
    complete = complete p;
    complete_with_tools = complete_with_tools p;
    stream_with_tools = stream_with_tools p;
    model = p.model;
    provider_name = p.provider_name;
  }
