-- ===== src/Providers/OpenAi/Client/Examples.antt =====
-- Runs of the OpenAI client against a server that cuts two calls into deltas, and the theorems on them.
use docsclaw.Base.{
  ℕ, ◌+◌, Str, bytes, ◌==◌, strip_prefix, Option, none, some, List, [], ◌∷◌, map, ◌≡◌, refl, ok,
  err, pos, int_eq, if◌then◌else◌, inl,
}
use docsclaw.Providers.Honest.{IsHonest}
use docsclaw.Llm.{Message, no_usage, Response, StreamEvent, text_delta, stream_done, text_message}
use docsclaw.Providers.OpenAi.Wire.{
  OpenAiProvider, ToolDelta, StreamChunk, HttpReply, replied, Api, convert_message,
  convert_messages,
}
use docsclaw.Providers.OpenAi.Reading.{
  PendingCall, find_call, put_call, extend_call, add_delta, add_deltas, newer, read_text,
  read_chunk, read_line, read_lines,
}
use docsclaw.Providers.OpenAi.Reading.Texts.{IsStream, finished, blank, event, chunk_deltas}
use docsclaw.Providers.OpenAi.Reading.Calls.{IsSent, all_sent, opens, extends}
use docsclaw.Providers.OpenAi.Client.{
  call_of, calls_from, usage_of, response_of, finish_reading, on_http, request_body,
  stream_with_tools,
}
use docsclaw.Providers.OpenAi.Client.Stream.{IsRead, stream_with_tools-IsStream}
use docsclaw.Providers.OpenAi.Client.Faithful.{stream_with_tools-IsHonest}

abbrev delta : ℕ → Str → Str → Str → ToolDelta
delta i id name arguments = record { index = pos i; id = id; name = name; arguments = arguments }

abbrev piece : Str → List ToolDelta → StreamChunk
piece text deltas = record {
  choices = record { content = text; tool_calls = deltas; finish_reason = none } ∷ [];
  usage = none;
}

abbrev chunks : List StreamChunk
chunks =
    piece (bytes "Hi") (delta 0 (bytes "a") (bytes "read") (bytes "{") ∷ [])
    ∷ piece [] (delta 1 (bytes "b") (bytes "list") (bytes "{}") ∷ delta 0 [] [] (bytes "}") ∷ [])
    ∷ []

abbrev calls : List PendingCall
calls =
    record { id = bytes "a"; name = bytes "read"; args_json = bytes "{}" }
    ∷ record { id = bytes "b"; name = bytes "list"; args_json = bytes "{}" }
    ∷ []

-- The texts 1 and 2 stand for the JSON of the two chunks.
abbrev chunk_at : Str → Option StreamChunk
chunk_at s =
    if s == bytes "1"
    then some (piece (bytes "Hi") (delta 0 (bytes "a") (bytes "read") (bytes "{") ∷ []))
    else if s == bytes "2"
    then some (
        piece [] (delta 1 (bytes "b") (bytes "list") (bytes "{}") ∷ delta 0 [] [] (bytes "}") ∷ []))
    else none

abbrev reply : HttpReply
reply = record {
  status = 200;
  body = [];
  read_err = none;
  lines = bytes "data: 1" ∷ [] ∷ bytes "data: 2" ∷ [] ∷ bytes "data: [DONE]" ∷ [];
  scan_err = none;
}

abbrev api : Api ℕ
api = record {
  marshal_args = λ _. ok (bytes "{}");
  unmarshal_args = λ s. if s == bytes "{}" then some [] else none;
  marshal_chat = λ _. ok [];
  unmarshal_chat = λ _. err [];
  marshal_request = λ _. ok (bytes "body");
  unmarshal_chunk = chunk_at;
  post = λ _ _ _ w. (replied reply, w + 1);
  ctx_err = λ _ _. none;
}

abbrev provider : OpenAiProvider
provider = record {
  base_url = bytes "http://x";
  api_key = bytes "k";
  model = bytes "m";
  max_tokens = 10;
  timeout = 45;
  provider_name = bytes "openai";
}

abbrev messages : List Message
messages = text_message (bytes "user") (bytes "hello") ∷ []

-- The server's reply to a request with any messages.
pub replies :
    (w : ℕ)
    → on_http api w reply ≡ (
      text_delta (bytes "Hi") ∷ stream_done ∷ [],
      ok (record {
        stop_reason = bytes "end_turn";
        content = bytes "Hi";
        tool_calls = map (call_of api) calls;
        usage = no_usage;
      }),
    )
unfolding on_http finish_reading response_of calls_from usage_of call_of read_lines read_line
    read_chunk read_text newer add_deltas add_delta find_call put_call extend_call bytes ◌==◌
    strip_prefix int_eq
replies w = refl

built : request_body api provider messages [] ≡ ok (bytes "body")
unfolding request_body convert_messages convert_message bytes ◌==◌
built = refl

is_stream : IsStream api reply.lines chunks
unfolding bytes strip_prefix ◌==◌
is_stream =
    event {json = bytes "1"} (λ e. absurd (cc (e))) refl refl
      (blank (event {json = bytes "2"} (λ e. absurd (cc (e))) refl refl (blank (finished refl))))

is_sent : IsSent [] (chunk_deltas chunks) calls
unfolding chunk_deltas bytes
is_sent = opens refl (opens refl (extends refl refl (inl refl) (inl refl) all_sent))

stream_with_tools-IsStream_example :
    (events : List StreamEvent) × (resp : Response) × (stream_with_tools api provider messages [] 0
      ≡ ((events, ok resp), 1))
    × IsRead api events resp chunks calls
stream_with_tools-IsStream_example =
    stream_with_tools-IsStream api provider messages [] 0 1 (bytes "body") reply chunks calls built
      refl refl refl (λ _. refl) is_stream is_sent

stream_with_tools-IsHonest_example :
    IsHonest
      (stream_with_tools api provider messages [] 0).0.0
      (stream_with_tools api provider messages [] 0).0.1
stream_with_tools-IsHonest_example = stream_with_tools-IsHonest api provider messages [] 0
