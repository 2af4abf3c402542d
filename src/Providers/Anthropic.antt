-- ===== src/Providers/Anthropic.antt =====
-- anthropic.go: the provider over the Anthropic SDK.
pub mod Paired
pub mod Examples
use docsclaw.Base.{
  ℕ, ◌+◌, Str, bytes, ◌==◌, eqb, Map, lookup, Option, none, some, List, [], ◌∷◌, ◌++◌, map, Bool,
  Result, ok, err, ◌>>=◌, if◌then◌else◌,
}
use docsclaw.Json.{Json, str, arr, Elems, nil, cons}
use docsclaw.Llm.{
  ToolDefinition, ToolCall, ToolResultContent, Message, Usage, Response, StreamEvent, text_delta,
  stream_done, stream_error, Provider,
}
use docsclaw.Providers.Config.{LlmConfig, default_anthropic_model, provider_anthropic}

-- The key and the HTTP client stand in the SDK's client.
pub record AnthropicProvider : Type 0 where
  pub api_key : Str
  pub model : Str
  pub max_tokens : ℕ
  pub timeout : ℕ

pub new_anthropic_provider : LlmConfig → Result Str AnthropicProvider
new_anthropic_provider cfg =
    if cfg.api_key == []
    then err (bytes "API key is required")
    else ok (record {
      api_key = cfg.api_key;
      model = if cfg.model == [] then default_anthropic_model else cfg.model;
      max_tokens = if eqb cfg.max_tokens 0 then 4096 else cfg.max_tokens;
      timeout = if eqb cfg.timeout 0 then 45 else cfg.timeout;
    })

-- The blocks that the SDK's constructors make.
pub data BlockParam : Type 0 where
  text_block : Str → BlockParam
  tool_use_block : (id : Str) → Map Json → (name : Str) → BlockParam
  tool_result_block : (tool_use_id output : Str) → Bool → BlockParam

pub record MessageParam : Type 0 where
  pub role : Str
  pub content : List BlockParam

pub record ToolParam : Type 0 where
  pub name : Str
  pub description : Str
  pub properties : Option Json
  pub required : List Str

pub record MessageParams : Type 0 where
  pub model : Str
  pub max_tokens : ℕ
  pub system : Option Str
  pub messages : List MessageParam
  pub tools : List ToolParam

-- The SDK's message: its blocks by their types, with those that the code does not read as one.
pub data ContentBlock : Type 0 where
  text_content : Str → ContentBlock
  tool_use_content : (id name input : Str) → ContentBlock
  other_content : ContentBlock

pub record SdkUsage : Type 0 where
  pub input : ℕ
  pub output : ℕ
  pub cache_read : ℕ
  pub cache_creation : ℕ

pub record SdkMessage : Type 0 where
  pub content : List ContentBlock
  pub stop_reason : Str
  pub usage : SdkUsage

-- The zero value.
abbrev pub no_message : SdkMessage
no_message = record {
  content = [];
  stop_reason = [];
  usage = record { input = 0; output = 0; cache_read = 0; cache_creation = 0 };
}

-- The SDK and encoding/json. A stream is the events up to its end or its error. `text_of` is the
-- text of an event that is a text delta, and `accumulate` is `Accumulate`.
pub record Sdk (W : Type 0) (E : Type 0) : Type 0 where
  pub new_message : AnthropicProvider → MessageParams → W → Result Str SdkMessage × W
  pub new_streaming : AnthropicProvider → MessageParams → W → (List E × Option Str) × W
  pub text_of : E → Option Str
  pub accumulate : E → SdkMessage → Result Str SdkMessage
  pub unmarshal_args : Str → Result Str (Map Json)

-- the conversion of messages: the last system prompt, and the others
abbrev call_block : ToolCall → BlockParam
call_block tc = tool_use_block tc.id tc.args tc.name

abbrev result_block : ToolResultContent → BlockParam
result_block tr = tool_result_block tr.tool_use_id tr.output tr.is_error

pub convert_message : Message → Str × List MessageParam → Str × List MessageParam
convert_message msg (system, converted) =
    if msg.role == bytes "system"
    then (msg.content, converted)
    else if msg.role == bytes "user"
    then (
      system,
      converted ++ record { role = bytes "user"; content = text_block msg.content ∷ [] } ∷ [],
    )
    else if msg.role == bytes "assistant"
    then (
      system,
      converted
          ++ record {
            role = bytes "assistant";
            content =
                (if msg.content == [] then [] else text_block msg.content ∷ [])
                ++ map call_block msg.tool_calls;
          }
            ∷ [],
    )
    else if msg.role == bytes "tool"
    then (
      system,
      converted ++ record { role = bytes "user"; content = map result_block msg.tool_results } ∷ [],
    )
    else (system, converted)

pub convert_messages : List Message → Str × List MessageParam → Str × List MessageParam
unfolding convert_message
convert_messages [] done = done
convert_messages (msg ∷ messages) done = convert_messages messages (convert_message msg done)

strings_of : Elems → List Str
strings_of nil = []
strings_of (cons (str s) items) = s ∷ strings_of items
strings_of (cons _ items) = strings_of items

-- `[]string` and `[]any` are both arrays here.
required_of : Option Json → List Str
unfolding strings_of
required_of (some (arr items)) = strings_of items
required_of _ = []

pub convert_tool : ToolDefinition → ToolParam
unfolding required_of
convert_tool td = record {
  name = td.name;
  description = td.description;
  properties = lookup (bytes "properties") td.parameters;
  required = required_of (lookup (bytes "required") td.parameters);
}

pub params_of : AnthropicProvider → List Message → List ToolDefinition → MessageParams
unfolding convert_messages convert_tool
params_of p messages tools =
    let (system, converted) = convert_messages messages ([], []) in
    record {
      model = p.model;
      max_tokens = p.max_tokens;
      system = if system == [] then none else some system;
      messages = converted;
      tools = map convert_tool tools;
    }

-- The texts of the text blocks, one behind the other.
pub text_content_of : List ContentBlock → Str
text_content_of [] = []
text_content_of (text_content t ∷ blocks) = t ++ text_content_of blocks
text_content_of (_ ∷ blocks) = text_content_of blocks

-- The number of tokens is an int64 that does not wrap around for numbers that a provider reports.
pub usage_of : SdkUsage → Usage
usage_of u = record {
  input_tokens = u.input;
  output_tokens = u.output;
  cache_read_tokens = u.cache_read;
  cache_write_tokens = u.cache_creation;
  total_tokens = u.input + u.output;
}

module _ {W E : Type 0} (sdk : Sdk W E) where
  pub emitted : E → List StreamEvent
  emitted event = elim (sdk.text_of event) [
    | none ↦ []
    | some text ↦ if text == [] then [] else text_delta text ∷ []
  ]

  -- The loop over the events of the stream: the message, or the error of `Accumulate`, with what the
  -- callback was passed.
  pub accumulate_all :
      List E → SdkMessage → List StreamEvent → Result Str SdkMessage × List StreamEvent
  unfolding emitted
  accumulate_all [] message told = (ok message, told)
  accumulate_all (event ∷ events) message told = elim (sdk.accumulate event message) [
    | err e ↦ (err e, told)
    | ok message' ↦ accumulate_all events message' (told ++ emitted event)
  ]

  pub parse_input : Str → Result Str (Map Json)
  parse_input [] = ok []
  parse_input (c ∷ input) = elim (sdk.unmarshal_args (c ∷ input)) [
    | err e ↦ err (bytes "failed to parse tool input: " ++ e)
    | ok args ↦ ok args
  ]

  pub tool_calls_of : List ContentBlock → Result Str (List ToolCall)
  unfolding parse_input
  tool_calls_of [] = ok []
  tool_calls_of (tool_use_content id name input ∷ blocks) = do
    args ← parse_input input
    rest ← tool_calls_of blocks
    ok (record { id = id; name = name; args = args } ∷ rest)
  tool_calls_of (_ ∷ blocks) = tool_calls_of blocks

  pub response_of : SdkMessage → Result Str Response
  unfolding text_content_of usage_of tool_calls_of
  response_of message = do
    calls ← tool_calls_of message.content
    ok (record {
      stop_reason =
          if message.stop_reason == bytes "tool_use" then bytes "tool_use" else bytes "end_turn";
      content = text_content_of message.content;
      tool_calls = calls;
      usage = usage_of message.usage;
    })

  -- The end of StreamWithTools; a tool input that cannot be parsed passes no event on.
  pub finish_message : SdkMessage → List StreamEvent → List StreamEvent × Result Str Response
  unfolding response_of
  finish_message message told = elim (response_of message) [
    | err e ↦ (told, err e)
    | ok resp ↦ (told ++ stream_done ∷ [], ok resp)
  ]

  pub finish_stream :
      Option Str → Result Str SdkMessage × List StreamEvent → List StreamEvent × Result Str Response
  unfolding finish_message
  finish_stream stream_err (err e, told) = (
    told ++ stream_error (bytes "accumulate error: " ++ e) ∷ [],
    err (bytes "stream accumulate failed: " ++ e),
  )
  finish_stream (some e) (ok message, told) = (
    told ++ stream_error (bytes "stream error: " ++ e) ∷ [],
    err (bytes "API streaming failed: " ++ e),
  )
  finish_stream none (ok message, told) = finish_message message told

  -- With a callback.
  pub stream_with_tools :
      AnthropicProvider
      → List Message
      → List ToolDefinition
      → W
      → (List StreamEvent × Result Str Response) × W
  unfolding accumulate_all finish_stream params_of
  stream_with_tools p messages tools w =
      let ((events, stream_err), w') = sdk.new_streaming p (params_of p messages tools) w in
      (finish_stream stream_err (accumulate_all events no_message []), w')

  -- without a callback
  pub complete_with_tools :
      AnthropicProvider → List Message → List ToolDefinition → W → Result Str Response × W
  unfolding stream_with_tools
  complete_with_tools p messages tools w =
      let (streamed, w') = stream_with_tools p messages tools w in (streamed.1, w')

  read_message : Result Str SdkMessage → Result Str Str
  unfolding text_content_of
  read_message (err e) = err (bytes "API request failed: " ++ e)
  read_message (ok message) = elim (message.content) [
    | [] ↦ err (bytes "empty response from API")
    | _ ↦ ok (text_content_of message.content)
  ]

  pub complete : AnthropicProvider → Str → Str → W → Result Str Str × W
  unfolding read_message
  complete p system_prompt user_prompt w =
      let params : MessageParams = record {
        model = p.model;
        max_tokens = p.max_tokens;
        system = some system_prompt;
        messages = record { role = bytes "user"; content = text_block user_prompt ∷ [] } ∷ [];
        tools = [];
      } in
      let (reply, w') = sdk.new_message p params w in (read_message reply, w')

  -- `AnthropicProvider` as a `Provider`
  pub provider_of : AnthropicProvider → Provider W
  unfolding complete complete_with_tools stream_with_tools
  provider_of p = record {
    complete = complete p;
    complete_with_tools = complete_with_tools p;
    stream_with_tools = stream_with_tools p;
    model = p.model;
    provider_name = provider_anthropic;
  }
