-- ===== src/OpenAiApi.antt =====
-- internal/openaiapi: the Chat Completions endpoint (handler.go), its types and message conversion
-- (types.go), and streaming (stream.go).
pub mod Tokens
pub mod Prompt
pub mod Streams
pub mod Listings
pub mod Examples
use docsclaw.Base.{
  ℕ, zero, suc, ◌+◌, Str, bytes, ◌==◌, Option, none, some, List, [], ◌∷◌, ◌++◌, map, Bool, true,
  false, not, ◌&&◌, ◌||◌, eqb, if◌then◌else◌, Result, ok, err, length,
}
use docsclaw.Llm.{
  Message, Response, Usage, no_usage, Provider, StreamEvent, text_delta, stream_done, stream_error,
  text_message,
}
use docsclaw.Tools.{Registry, LoopConfig, Runtime, definitions, run_tool_loop}

pub record ChatMessage : Type 0 where
  pub role : Str
  pub content : Str

pub record ChatCompletionRequest : Type 0 where
  pub model : Str
  pub messages : List ChatMessage
  pub stream : Bool

pub record ChatDelta : Type 0 where
  pub role : Str
  pub content : Str

-- One chunk with its single choice, whose index is 0.
pub record ChatCompletionChunk : Type 0 where
  pub id : Str
  pub created : ℕ
  pub model : Str
  pub delta : ChatDelta
  pub finish_reason : Option Str

-- What is written to a stream: a chunk, an error object, or the end mark.
pub data SseEvent : Type 0 where
  chunk : ChatCompletionChunk → SseEvent
  error_object : Str → SseEvent
  done_mark : SseEvent

pub record ChatCompletionResponse : Type 0 where
  pub id : Str
  pub created : ℕ
  pub model : Str
  pub message : ChatMessage
  pub finish_reason : Str
  pub prompt_tokens : ℕ
  pub completion_tokens : ℕ
  pub total_tokens : ℕ

pub build_response : ℕ → Str → Str → Str → Usage → ChatCompletionResponse
build_response now id model content usage = record {
  id = id;
  created = now;
  model = model;
  message = record { role = bytes "assistant"; content = content };
  finish_reason = bytes "stop";
  prompt_tokens = usage.input_tokens;
  completion_tokens = usage.output_tokens;
  total_tokens = usage.total_tokens;
}

-- the loop of `ConvertMessages`: the client's system texts, and the other messages
pub client_system : List ChatMessage → List Str
client_system [] = []
client_system (m ∷ ms) =
    let rest = client_system ms in if m.role == bytes "system" then m.content ∷ rest else rest

converted : List ChatMessage → List Message
converted [] = []
converted (m ∷ ms) =
    let rest = converted ms in
    if m.role == bytes "system" then rest else text_message m.role m.content ∷ rest

appended : Str → List Str → Str
appended prompt [] = prompt
appended prompt (cs ∷ rest) = appended (prompt ++ (10 ∷ 10 ∷ cs)) rest

pub convert_messages : List ChatMessage → Str → List Message × Str
unfolding converted appended client_system
convert_messages msgs server_prompt = (converted msgs, appended server_prompt (client_system msgs))

pub is_space : ℕ → Bool
is_space c = eqb c 32 || eqb c 9 || eqb c 10 || eqb c 13

same_kind : Bool → ℕ → Bool
same_kind space c = if space then is_space c else not (is_space c)

-- the inner loops of `tokenize`: the run at the head, and what follows it
span_kind : Bool → Str → Str × Str
span_kind space [] = ([], [])
span_kind space (c ∷ s) =
    let (run, rest) = span_kind space s in
    if same_kind space c then (c ∷ run, rest) else ([], c ∷ s)

tokenize_from : ℕ → Str → List Str
tokenize_from fuel [] = []
tokenize_from zero (c ∷ s) = []
tokenize_from (suc fuel) (c ∷ s) =
    let (run, rest) = span_kind (is_space c) s in (c ∷ run) ∷ tokenize_from fuel rest

-- Each round of the outer loop takes a byte at least, so the length is fuel enough.
pub tokenize : Str → List Str
unfolding tokenize_from span_kind same_kind is_space
tokenize s = tokenize_from (length s) s

module _ (now : ℕ) (id model : Str) where
  chunk_of : Str → Str → Option Str → SseEvent
  chunk_of role content finish = chunk (record {
    id = id;
    created = now;
    model = model;
    delta = record { role = role; content = content };
    finish_reason = finish;
  })

  pub stream_response : Str → List SseEvent
  unfolding chunk_of
  stream_response content =
      chunk_of (bytes "assistant") [] none
      ∷ (map (λ token. chunk_of [] token none) (tokenize content)
          ++ chunk_of [] [] (some (bytes "stop")) ∷ done_mark ∷ [])

  -- the callback of `StreamFromProvider`
  on_event : StreamEvent → List SseEvent
  unfolding chunk_of
  on_event (text_delta content) = chunk_of [] content none ∷ []
  on_event stream_done = chunk_of [] [] (some (bytes "stop")) ∷ done_mark ∷ []
  on_event (stream_error msg) = error_object msg ∷ done_mark ∷ []

  on_events : List StreamEvent → List SseEvent
  on_events [] = []
  on_events (e ∷ es) = on_event e ++ on_events es

  pub stream_from_provider : List StreamEvent → List SseEvent
  unfolding on_events on_event chunk_of
  stream_from_provider events = chunk_of (bytes "assistant") [] none ∷ on_events events

-- `writeError`, a whole response, or a stream.
pub data Reply : Type 0 where
  error_reply : (status : ℕ) (kind code message : Str) → Reply
  json_reply : ChatCompletionResponse → Reply
  stream_reply : List SseEvent → Reply

-- The body as http.MaxBytesReader and the JSON decoder give it.
pub data Decoded : Type 0 where
  too_large : Decoded
  invalid : Str → Decoded
  decoded : ChatCompletionRequest → Decoded

pub record Handler (W : Type 0) : Type 0 where
  pub provider : Option (Provider W)
  pub system_prompt : Str
  pub registry : Option (Registry W)
  pub loop_config : LoopConfig W

-- `h.Registry != nil && len(h.Registry.Definitions()) > 0`
pub with_tools : {W : Type 0} → Option (Registry W) → Option (Registry W)
with_tools none = none
with_tools (some r) = elim (definitions r) [ [] ↦ none | _ ↦ some r ]

module _ {W : Type 0} (rt : Runtime W) (h : Handler W) where
  abbrev all_messages : Str → List Message → List Message
  all_messages system_prompt msgs = text_message (bytes "system") system_prompt ∷ msgs

  pub only_content : Result Str Str × W → Result Str (Str × Usage) × W
  only_content (err e, w) = (err e, w)
  only_content (ok content, w) = (ok (content, no_usage), w)

  with_usage : Result Str Response × W → Result Str (Str × Usage) × W
  with_usage (err e, w) = (err e, w)
  with_usage (ok resp, w) = (ok (resp.content, resp.usage), w)

  pub complete : Str → List Message → W → Result Str (Str × Usage) × W
  unfolding only_content with_usage with_tools
  complete system_prompt msgs w = elim (h.provider) [
    | none ↦ (ok (bytes "LLM provider not configured.", no_usage), w)
    | some p ↦ elim (with_tools h.registry) [
      | some r ↦
          only_content (run_tool_loop rt p r h.loop_config (all_messages system_prompt msgs) w)
      | none ↦ with_usage (p.complete_with_tools (all_messages system_prompt msgs) [] w)
    ]
  ]

  streamed_loop : ℕ → Str → Str → Result Str Str × W → List SseEvent × W
  streamed_loop now id model (err e, w) =
      (error_object (bytes "LLM error: " ++ e) ∷ done_mark ∷ [], w)
  streamed_loop now id model (ok content, w) = (stream_response now id model content, w)

  pub stream_completion : ℕ → Str → Str → Str → List Message → W → List SseEvent × W
  unfolding streamed_loop with_tools
  stream_completion now id model system_prompt msgs w = elim (h.provider) [
    | none ↦ (stream_response now id model (bytes "LLM provider not configured."), w)
    | some p ↦ elim (with_tools h.registry) [
      | some r ↦
          streamed_loop now id model
            (run_tool_loop rt p r h.loop_config (all_messages system_prompt msgs) w)
      | none ↦
          let (streamed, w') = p.stream_with_tools (all_messages system_prompt msgs) [] w in
          (stream_from_provider now id model streamed.0, w')
    ]
  ]

  model_name : Str
  model_name = elim (h.provider) [ none ↦ bytes "docsclaw" | some p ↦ p.model ]

  finished : ℕ → Str → Result Str (Str × Usage) × W → Reply × W
  finished now id (err e, w) =
      (error_reply 502 (bytes "server_error") (bytes "llm_error") (bytes "LLM error: " ++ e), w)
  finished now id (ok answer, w) =
      (json_reply (build_response now id model_name answer.0 answer.1), w)

  streaming : List SseEvent × W → Reply × W
  streaming (events, w) = (stream_reply events, w)

  -- `id` is what `GenerateID` gives.
  pub chat_completion : ℕ → Str → Decoded → W → Reply × W
  unfolding finished model_name streaming
  chat_completion now id too_large w = (
    error_reply 413 (bytes "invalid_request_error") (bytes "payload_too_large")
        (bytes "Request body too large (max 1MB)."),
    w,
  )
  chat_completion now id (invalid e) w = (
    error_reply 400 (bytes "invalid_request_error") (bytes "invalid_json")
        (bytes "Failed to parse request body: " ++ e),
    w,
  )
  chat_completion now id (decoded req) w =
      let (msgs, system_prompt) = convert_messages req.messages h.system_prompt in
      elim (req.messages) [
        | [] ↦ (
          error_reply 400 (bytes "invalid_request_error") (bytes "invalid_messages")
              (bytes "Messages must not be empty."),
          w,
        )
        | _ ↦
            if req.stream
            then streaming (stream_completion now id model_name system_prompt msgs w)
            else finished now id (complete system_prompt msgs w)
      ]
