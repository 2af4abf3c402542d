-- ===== src/Providers/OpenAi/Wire.antt =====
-- openai.go: the configuration, what is sent and received, and the conversion of messages.
pub mod Paired
pub mod Examples
use docsclaw.Base.{
  ℕ, zero, suc, ◌+◌, Str, bytes, ◌==◌, has_prefix, strip_prefix, has_suffix, take, length, ◌-◌,
  decimal, Map, Option, none, some, List, [], ◌∷◌, ◌++◌, map, Bool, true, false, not, ◌&&◌, ◌||◌,
  eqb, ℤ, pos, negsuc, int_eq, if◌then◌else◌, Result, ok, err, ◌>>=◌, ◌>>◌, or_else,
}
use docsclaw.Json.{Json, str}
use docsclaw.Llm.{
  ToolDefinition, ToolCall, ToolResultContent, Message, Usage, no_usage, Response, StreamEvent,
  text_delta, stream_done, stream_error, Provider,
}
use docsclaw.Providers.Config.{
  LlmConfig, provider_openai, provider_litellm, default_openai_model, default_litellm_model,
  default_openai_base_url,
}

pub record OpenAiProvider : Type 0 where
  pub base_url : Str
  pub api_key : Str
  pub model : Str
  pub max_tokens : ℕ
  pub timeout : ℕ
  pub provider_name : Str

or_default : Str → Str → Str
or_default s d = if s == [] then d else s

-- strings.TrimSuffix(s, "/")
trim_slash : Str → Str
trim_slash s = if has_suffix s (bytes "/") then take (length s - 1) s else s

pub new_openai_compat_provider : LlmConfig → Result Str OpenAiProvider
unfolding or_default trim_slash
new_openai_compat_provider cfg =
    if cfg.api_key == []
    then err (bytes "API key is required")
    else if cfg.base_url == [] && cfg.provider == provider_litellm
    then err (bytes "base_url is required for LiteLLM provider")
    else ok (record {
      base_url = trim_slash (or_default cfg.base_url default_openai_base_url);
      api_key = cfg.api_key;
      model = or_default cfg.model (
          if cfg.provider == provider_litellm then default_litellm_model else default_openai_model);
      max_tokens = if eqb cfg.max_tokens 0 then 4096 else cfg.max_tokens;
      timeout = if eqb cfg.timeout 0 then 45 else cfg.timeout;
      provider_name = or_default cfg.provider provider_openai;
    })

-- `openAIToolCall`, whose type is always "function"
pub record WireCall : Type 0 where
  pub id : Str
  pub name : Str
  pub arguments : Str

-- What a message is marshalled from: a map of texts, the map of an assistant's message, the map of a
-- tool's message, or nothing for a role that the switch does not know, which stands as null.
pub data WireMessage : Type 0 where
  plain : (role content : Str) → WireMessage
  assistant : (content : Option Str) → List WireCall → WireMessage
  tool : (tool_call_id content : Str) → WireMessage
  null_message : WireMessage

-- The body of the request; its `stream` is true.
pub record StreamRequest : Type 0 where
  pub model : Str
  pub messages : List WireMessage
  pub tools : List ToolDefinition
  pub max_tokens : ℕ

-- The body of a request that is not streamed: `openAIChatRequest`, whose messages are plain.
pub record ChatRequest : Type 0 where
  pub model : Str
  pub messages : List (Str × Str)
  pub max_tokens : ℕ

-- What is read of an `openAIChatResponse`: the texts of its choices, and its error's message.
pub record ChatReply : Type 0 where
  pub choices : List Str
  pub error : Option Str

-- `openAIStreamToolDelta`
pub record ToolDelta : Type 0 where
  pub index : ℤ
  pub id : Str
  pub name : Str
  pub arguments : Str

pub record Choice : Type 0 where
  pub content : Str
  pub tool_calls : List ToolDelta
  pub finish_reason : Option Str

pub record WireUsage : Type 0 where
  pub prompt_tokens : ℕ
  pub completion_tokens : ℕ
  pub total_tokens : ℕ

-- `openAIStreamChunk`; only the first choice is read.
pub record StreamChunk : Type 0 where
  pub choices : List Choice
  pub usage : Option WireUsage

-- A reply as it is read: whole, with the error of reading it, or by lines, with the error that the
-- scanner ends with.
pub record HttpReply : Type 0 where
  pub status : ℕ
  pub body : Str
  pub read_err : Option Str
  pub lines : List Str
  pub scan_err : Option Str

pub data Sent : Type 0 where
  not_built not_sent : Str → Sent
  replied : HttpReply → Sent

-- The code that is called: encoding/json, and net/http with the URL, the Authorization header and the
-- body. `ctx_err n` is the
-- state of the context when the line with index `n` has been read.
pub record Api (W : Type 0) : Type 0 where
  pub marshal_args : Map Json → Result Str Str
  pub unmarshal_args : Str → Option (Map Json)
  pub marshal_chat : ChatRequest → Result Str Str
  pub unmarshal_chat : Str → Result Str ChatReply
  pub marshal_request : StreamRequest → Result Str Str
  pub unmarshal_chunk : Str → Option StreamChunk
  pub post : (url authorization body : Str) → W → Sent × W
  pub ctx_err : W → ℕ → Option Str

module _ {W : Type 0} (api : Api W) where
  unfoldable pub marshal_calls : List ToolCall → Result Str (List WireCall)
  marshal_calls [] = ok []
  marshal_calls (tc ∷ calls) = elim (api.marshal_args tc.args) [
    | err e ↦ err (bytes "failed to marshal tool args: " ++ e)
    | ok arguments ↦ do
      rest ← marshal_calls calls
      ok (record { id = tc.id; name = tc.name; arguments = arguments } ∷ rest)
  ]

  -- The messages that one message becomes; json.Marshal of a map of texts does not fail.
  unfoldable pub convert_message : Message → Result Str (List WireMessage)
  unfolding marshal_calls
  convert_message msg =
      if msg.role == bytes "system" || msg.role == bytes "user"
      then ok (plain msg.role msg.content ∷ [])
      else if msg.role == bytes "assistant"
      then (marshal_calls msg.tool_calls >>= λ calls.
          ok (assistant (if msg.content == [] then none else some msg.content) calls ∷ []))
      else if msg.role == bytes "tool"
      then ok (map (λ (r : ToolResultContent). tool r.tool_use_id r.output) msg.tool_results)
      else ok (null_message ∷ [])

  unfoldable pub convert_messages : List Message → Result Str (List WireMessage)
  convert_messages [] = ok []
  convert_messages (msg ∷ msgs) = do
    front ← convert_message msg
    rest ← convert_messages msgs
    ok (front ++ rest)
