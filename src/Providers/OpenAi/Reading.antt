-- ===== src/Providers/OpenAi/Reading.antt =====
-- openai.go, the loop of StreamWithTools over the lines of a reply.
use docsclaw.Providers.OpenAi.Wire.{Api, ToolDelta, Choice, WireUsage, StreamChunk}
pub mod Texts
pub mod Calls
pub mod Told
use docsclaw.Base.{
  ℕ, zero, suc, ◌+◌, Str, bytes, ◌==◌, has_prefix, strip_prefix, has_suffix, take, length, ◌-◌,
  decimal, Map, Option, none, some, List, [], ◌∷◌, ◌++◌, map, Bool, true, false, not, ◌&&◌, ◌||◌,
  eqb, ℤ, pos, negsuc, int_eq, if◌then◌else◌, Result, ok, err, ◌>>=◌, ◌>>◌, or_else,
}
use docsclaw.Json.{Json, str}
use docsclaw.Llm.{
  ToolDefinition, ToolCall, ToolResultContent, Message, Usage, no_usage, Response, StreamEvent,
  text_delta, stream_done, stream_error, Provider,
}
use docsclaw.Providers.Config.{
  LlmConfig, provider_openai, provider_litellm, default_openai_model, default_litellm_model,
  default_openai_base_url,
}

-- A call that is being put together.
pub record PendingCall : Type 0 where
  pub id : Str
  pub name : Str
  pub args_json : Str

-- The variables of the loop over the lines, and the events passed on so far.
pub record Reading : Type 0 where
  pub content : Str
  pub finish_reason : Str
  pub usage : Option WireUsage
  pub calls : List (ℤ × PendingCall)
  pub events : List StreamEvent

abbrev pub start_reading : Reading
start_reading = record { content = []; finish_reason = []; usage = none; calls = []; events = [] }

abbrev pub no_call : PendingCall
no_call = record { id = []; name = []; args_json = [] }

unfoldable pub find_call : ℤ → List (ℤ × PendingCall) → Option PendingCall
find_call i [] = none
find_call i ((j, tc) ∷ calls) = if int_eq j i then some tc else find_call i calls

unfoldable pub put_call : ℤ → PendingCall → List (ℤ × PendingCall) → List (ℤ × PendingCall)
put_call i tc [] = (i, tc) ∷ []
put_call i tc ((j, old) ∷ calls) =
    let rest = put_call i tc calls in if int_eq j i then (i, tc) ∷ calls else (j, old) ∷ rest

-- the body of the loop over the deltas of one chunk
unfoldable pub extend_call : ToolDelta → PendingCall → PendingCall
extend_call d tc = record {
  id = if d.id == [] then tc.id else d.id;
  name = if d.name == [] then tc.name else d.name;
  args_json = tc.args_json ++ d.arguments;
}

unfoldable pub add_delta : ToolDelta → List (ℤ × PendingCall) → List (ℤ × PendingCall)
unfolding put_call extend_call
add_delta d calls =
    put_call d.index (extend_call d (or_else (find_call d.index calls) no_call)) calls

unfoldable pub add_deltas : List ToolDelta → List (ℤ × PendingCall) → List (ℤ × PendingCall)
add_deltas [] calls = calls
add_deltas (d ∷ deltas) calls = add_deltas deltas (add_delta d calls)

unfoldable pub newer : {A : Type 0} → Option A → Option A → Option A
newer none old = old
newer (some a) old = some a

-- the text of a choice, where there is one
unfoldable pub read_text : Str → Reading → Reading
read_text text s =
    if text == []
    then s
    else record s { content = s.content ++ text; events = s.events ++ text_delta text ∷ [] }

unfoldable pub read_chunk : StreamChunk → Reading → Reading
unfolding add_deltas newer read_text
read_chunk chunk s = elim (chunk.choices) [
  | [] ↦ record s { usage = newer chunk.usage s.usage }
  | choice ∷ _ ↦ record (read_text choice.content s) {
    calls = add_deltas choice.tool_calls s.calls;
    finish_reason = or_else choice.finish_reason s.finish_reason;
    usage = newer chunk.usage s.usage;
  }
]

module _ {W : Type 0} (api : Api W) where
  -- One line of the stream; `none` ends the loop.
  unfoldable pub read_line : Str → Reading → Option Reading
  read_line line s =
      if line == []
      then some s
      else if line == bytes "data: [DONE]"
      then none
      else elim (strip_prefix (bytes "data: ") line) [
        | none ↦ some s
        | some json ↦ elim (api.unmarshal_chunk json) [
          | none ↦ some s
          | some chunk ↦ some (read_chunk chunk s)
        ]
      ]

  -- The loop over the lines, of which `n` were read; an error is that of the context.
  unfoldable pub read_lines : W → ℕ → List Str → Reading → Result Str Reading × Reading
  read_lines w n [] s = (ok s, s)
  read_lines w n (line ∷ lines) s = elim (api.ctx_err w n) [
    | some e ↦ (err e, s)
    | none ↦ elim (read_line line s) [ none ↦ (ok s, s) | some s' ↦ read_lines w (suc n) lines s' ]
  ]
