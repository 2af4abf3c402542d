-- ===== src/Providers/OpenAi/Reading/Texts.antt =====
-- openai.go, the loop over the lines: what it makes of the chunks that the lines hold.
use mathlib.Core.Option.{none-ne-some}
use mathlib.Core.List.{append-nil, append_assoc}
use docsclaw.Base.{
  ℕ, suc, Str, bytes, ◌==◌, eq_iff, strip_prefix, none, some, List, [], ◌∷◌, ◌++◌, false, ◌≡◌, ◌≢◌,
  refl, sym, ap, ◌∙◌, arith, Bool-cases, inl, inr, if◌then◌else◌, ok,
}
use docsclaw.Llm.{StreamEvent, text_delta}
use docsclaw.Providers.OpenAi.Wire.{Api, ToolDelta, StreamChunk}
use docsclaw.Providers.OpenAi.Reading.Calls.{add_deltas-append}
use docsclaw.Providers.OpenAi.Reading.{
  Reading, read_text, add_deltas, read_chunk, read_line, read_lines,
}

-- The lines hold the chunks: each in a data line of its own, with empty lines between, up to the end
-- mark or to the last line.
pub data IsStream {W : Type 0} (api : Api W) : List Str → List StreamChunk → Type 0 where
  closed : IsStream api [] []
  finished :
      {line : Str} {rest : List Str} → line ≡ bytes "data: [DONE]" → IsStream api (line ∷ rest) []
  blank :
      {lines : List Str} {chunks : List StreamChunk}
      → IsStream api lines chunks
      → IsStream api ([] ∷ lines) chunks
  event :
      {line json : Str} {lines : List Str} {chunk : StreamChunk} {chunks : List StreamChunk}
      → line ≢ bytes "data: [DONE]"
      → strip_prefix (bytes "data: ") line ≡ some json
      → api.unmarshal_chunk json ≡ some chunk
      → IsStream api lines chunks
      → IsStream api (line ∷ lines) (chunk ∷ chunks)

pub read_chunks : List StreamChunk → Reading → Reading
read_chunks [] s = s
read_chunks (c ∷ chunks) s = read_chunks chunks (read_chunk c s)

not_line : {s t : Str} → s ≢ t → (s == t) ≡ false
not_line {s} {t} ne = elim (Bool-cases (s == t)) [
  | inl e ↦ absurd (ne ((eq_iff s t).0 e))
  | inr e ↦ e
]

line_not_empty : {line json : Str} → strip_prefix (bytes "data: ") line ≡ some json → line ≢ []
unfolding strip_prefix bytes
line_not_empty front e =
    absurd (none-ne-some _ (sym (ap (strip_prefix (bytes "data: ")) e) ∙ front))

read_line-event :
    {W : Type 0} (api : Api W) (line json : Str) (chunk : StreamChunk) (s : Reading)
    → line ≢ bytes "data: [DONE]"
    → strip_prefix (bytes "data: ") line ≡ some json
    → api.unmarshal_chunk json ≡ some chunk
    → read_line api line s ≡ some (read_chunk chunk s)
unfolding read_line
read_line-event api line json chunk s more front parsed =
    rw (not_line (line_not_empty front), not_line more, front, parsed)

read_line-end :
    {W : Type 0} (api : Api W) (line : Str) (s : Reading)
    → line ≡ bytes "data: [DONE]"
    → read_line api line s ≡ none
unfolding read_line ◌==◌ bytes
read_line-end api line s e = rw e

read_line-blank : {W : Type 0} (api : Api W) (s : Reading) → read_line api [] s ≡ some s
unfolding read_line ◌==◌
read_line-blank api s = refl

-- While the context is alive, the loop reads the chunks in their order, and nothing else.
pub read_lines-IsStream :
    {W : Type 0} (api : Api W) (w : W) (n : ℕ) {lines : List Str} {chunks : List StreamChunk}
    (s : Reading)
    → ((k : ℕ) → api.ctx_err w k ≡ none)
    → IsStream api lines chunks
    → read_lines api w n lines s ≡ (ok (read_chunks chunks s), read_chunks chunks s)
unfolding read_lines read_chunks
read_lines-IsStream api w n s alive closed = refl
read_lines-IsStream api w n s alive (finished {line = line} {rest = rest} e) =
    rw (alive n, read_line-end api line s e, read_lines)
read_lines-IsStream api w n s alive (blank more) =
    rw (alive n, read_line-blank api s, read_lines) (read_lines-IsStream api w (suc n) s alive more)
read_lines-IsStream api w n s alive (event {line = line} {json = json} {chunk = chunk} e f g more) =
    rw (alive n, read_line-event api line json chunk s e f g, read_lines)
      (read_lines-IsStream api w (suc n) (read_chunk chunk s) alive more)

abbrev first_content : StreamChunk → Str
first_content c = elim (c.choices) [ [] ↦ [] | choice ∷ _ ↦ choice.content ]

abbrev first_deltas : StreamChunk → List ToolDelta
first_deltas c = elim (c.choices) [ [] ↦ [] | choice ∷ _ ↦ choice.tool_calls ]

-- The text of all chunks, and the deltas of all chunks.
pub chunk_text : List StreamChunk → Str
chunk_text [] = []
chunk_text (c ∷ chunks) = first_content c ++ chunk_text chunks

unfoldable pub chunk_deltas : List StreamChunk → List ToolDelta
chunk_deltas [] = []
chunk_deltas (c ∷ chunks) = first_deltas c ++ chunk_deltas chunks

-- The texts that the events carry, put together.
pub event_text : List StreamEvent → Str
event_text [] = []
event_text (text_delta t ∷ es) = t ++ event_text es
event_text (_ ∷ es) = event_text es

pub event_text-append :
    (es fs : List StreamEvent) → event_text (es ++ fs) ≡ event_text es ++ event_text fs
unfolding event_text
event_text-append [] fs = refl
event_text-append (text_delta t ∷ es) fs =
    rw (event_text-append es fs) (sym (append_assoc t (event_text es) (event_text fs)))
event_text-append (StreamEvent.stream_done ∷ es) fs = event_text-append es fs
event_text-append (StreamEvent.stream_error e ∷ es) fs = event_text-append es fs

read_chunk-content :
    (c : StreamChunk) (s : Reading) → (read_chunk c s).content ≡ s.content ++ first_content c
unfolding read_chunk read_text
read_chunk-content c s = grind (arith, eq_iff, append-nil)

read_chunk-calls :
    (c : StreamChunk) (s : Reading) → (read_chunk c s).calls ≡ add_deltas (first_deltas c) s.calls
unfolding read_chunk read_text add_deltas
read_chunk-calls c s = ground arith

abbrev text_event : StreamChunk → List StreamEvent
text_event c = if first_content c == [] then [] else text_delta (first_content c) ∷ []

-- One event for each text that is not empty.
pub text_events : List StreamChunk → List StreamEvent
text_events [] = []
text_events (c ∷ chunks) = text_event c ++ text_events chunks

read_chunk-events :
    (c : StreamChunk) (s : Reading) → (read_chunk c s).events ≡ s.events ++ text_event c
unfolding read_chunk read_text
read_chunk-events c s = grind (arith, eq_iff, append-nil)

pub read_chunks-content :
    (chunks : List StreamChunk) (s : Reading)
    → (read_chunks chunks s).content ≡ s.content ++ chunk_text chunks
unfolding read_chunks chunk_text
read_chunks-content [] s = sym (append-nil s.content)
read_chunks-content (c ∷ chunks) s =
    rw (read_chunks-content chunks (read_chunk c s), read_chunk-content c s)
      (append_assoc s.content (first_content c) (chunk_text chunks))

pub read_chunks-events :
    (chunks : List StreamChunk) (s : Reading)
    → (read_chunks chunks s).events ≡ s.events ++ text_events chunks
unfolding read_chunks text_events
read_chunks-events [] s = sym (append-nil s.events)
read_chunks-events (c ∷ chunks) s =
    rw (read_chunks-events chunks (read_chunk c s), read_chunk-events c s)
      (append_assoc s.events (text_event c) (text_events chunks))

pub read_chunks-calls :
    (chunks : List StreamChunk) (s : Reading)
    → (read_chunks chunks s).calls ≡ add_deltas (chunk_deltas chunks) s.calls
unfolding read_chunks chunk_deltas add_deltas
read_chunks-calls [] s = refl
read_chunks-calls (c ∷ chunks) s =
    read_chunks-calls chunks (read_chunk c s)
    ∙ ap (add_deltas (chunk_deltas chunks)) (read_chunk-calls c s)
    ∙ sym (add_deltas-append (first_deltas c) (chunk_deltas chunks) s.calls)
