-- ===== src/Providers/OpenAi/Client/Stream.antt =====
-- openai.go, StreamWithTools: what is returned and passed on for a reply that holds a stream of
-- chunks.
use docsclaw.Base.{
  ℕ, suc, ◌+◌, or_else, Map, Str, bytes, none, List, [], ◌∷◌, ◌++◌, map, length, get_elem?, ◌≡◌,
  refl, ap, ◌∙◌, arith, ok, ℤ, pos, eqb_iff,
}
use docsclaw.Json.{Json, str}
use docsclaw.Llm.{Message, ToolCall, ToolDefinition, Response, StreamEvent, stream_done}
use docsclaw.Providers.OpenAi.Wire.{OpenAiProvider, HttpReply, replied, Api, StreamChunk}
use docsclaw.Providers.OpenAi.Reading.{PendingCall, start_reading, find_call}
use docsclaw.Providers.OpenAi.Reading.Texts.{
  IsStream, read_lines-IsStream, read_chunks, chunk_text, chunk_deltas, text_events,
  read_chunks-content, read_chunks-events, read_chunks-calls,
}
use docsclaw.Providers.OpenAi.Reading.Calls.{
  IsSent, keyed, length-keyed, find_call-keyed, add_deltas-IsSent_start,
}
use docsclaw.Providers.OpenAi.Client.{
  call_of, calls_from, response_of, finish_reading, on_http, on_sent, request_body,
  stream_with_tools,
}

module _ {W : Type 0} (api : Api W) where
  calls_from-found :
      (cs : List PendingCall) (k : ℕ) (calls : List (ℤ × PendingCall))
      → ((i n : ℕ) → n ≡ k + i → find_call (pos n) calls ≡ get_elem? cs i)
      → calls_from api k (length cs) calls ≡ map (call_of api) cs
  unfolding calls_from
  calls_from-found [] k calls found = refl
  calls_from-found (c ∷ cs) k calls found =
      let later = calls_from-found cs (k + 1) calls (λ i n e. found (suc i) n (omega arith)) in
      rw (found 0 k (omega arith), calls_from) (ap (λ l. call_of api c ∷ l) later)

  calls_from-keyed :
      (cs : List PendingCall)
      → calls_from api 0 (length (keyed 0 cs)) (keyed 0 cs) ≡ map (call_of api) cs
  calls_from-keyed cs =
      rw (length-keyed 0 cs)
        (calls_from-found cs 0 (keyed 0 cs) (λ i n e. find_call-keyed 0 i n cs e))

  call_of-ids :
      (cs : List PendingCall)
      → map (λ (c : ToolCall). c.id) (map (call_of api) cs) ≡ map (λ (c : PendingCall). c.id) cs
  unfolding call_of
  call_of-ids [] = refl
  call_of-ids (c ∷ cs) = ap (λ l. c.id ∷ l) (call_of-ids cs)

  call_of-names :
      (cs : List PendingCall)
      → map (λ (c : ToolCall). c.name) (map (call_of api) cs) ≡ map (λ (c : PendingCall). c.name) cs
  unfolding call_of
  call_of-names [] = refl
  call_of-names (c ∷ cs) = ap (λ l. c.name ∷ l) (call_of-names cs)

  -- Arguments that cannot be parsed stand under the key _raw as they came.
  abbrev args_of : PendingCall → Map Json
  args_of c = or_else (api.unmarshal_args c.args_json) ((bytes "_raw", str c.args_json) ∷ [])

  call_of-args :
      (cs : List PendingCall)
      → map (λ (c : ToolCall). c.args) (map (call_of api) cs) ≡ map args_of cs
  unfolding call_of
  call_of-args [] = refl
  call_of-args (c ∷ cs) = ap (λ l. args_of c ∷ l) (call_of-args cs)

  -- What the chunks of a stream and the calls they bring amount to.
  pub record IsRead (events : List StreamEvent) (resp : Response) (chunks : List StreamChunk)
      (cs : List PendingCall) : Type 0 where
    pub content_lem : resp.content ≡ chunk_text chunks
    pub ids_lem : map (λ (c : ToolCall). c.id) resp.tool_calls ≡ map (λ (c : PendingCall). c.id) cs
    pub names_lem :
        map (λ (c : ToolCall). c.name) resp.tool_calls ≡ map (λ (c : PendingCall). c.name) cs
    pub args_lem :
        map (λ (c : ToolCall). c.args) resp.tool_calls
        ≡ map
            (λ (c : PendingCall).
              or_else (api.unmarshal_args c.args_json) ((bytes "_raw", str c.args_json) ∷ []))
            cs
    pub events_lem : events ≡ text_events chunks ++ stream_done ∷ []

  read_chunks-IsRead :
      (chunks : List StreamChunk) (cs : List PendingCall)
      → IsSent [] (chunk_deltas chunks) cs
      → IsRead
          ((read_chunks chunks start_reading).events ++ stream_done ∷ [])
          (response_of api (read_chunks chunks start_reading))
          chunks
          cs
  unfolding response_of
  read_chunks-IsRead chunks cs sent =
      let sum = read_chunks-calls chunks start_reading ∙ add_deltas-IsSent_start sent in
      let calls : (response_of api (read_chunks chunks start_reading)).tool_calls
          ≡ map (call_of api) cs =
        rw sum (calls_from-keyed cs) in
      record {
        content_lem = read_chunks-content chunks start_reading;
        ids_lem = ap (map (λ (c : ToolCall). c.id)) calls ∙ call_of-ids cs;
        names_lem = ap (map (λ (c : ToolCall). c.name)) calls ∙ call_of-names cs;
        args_lem = ap (map (λ (c : ToolCall). c.args)) calls ∙ call_of-args cs;
        events_lem = rw (read_chunks-events chunks start_reading) refl;
      }

  on_http-IsStream :
      (w : W) (reply : HttpReply) (chunks : List StreamChunk)
      → reply.status ≡ 200
      → reply.scan_err ≡ none
      → ((k : ℕ) → api.ctx_err w k ≡ none)
      → IsStream api reply.lines chunks
      → let s = read_chunks chunks start_reading in
        on_http api w reply ≡ (s.events ++ stream_done ∷ [], ok (response_of api s))
  unfolding on_http finish_reading
  on_http-IsStream w reply chunks e f alive stream =
      rw ((eqb_iff reply.status 200).1 e, f, read_lines-IsStream api w 0 start_reading alive stream)
        refl

  -- A request that is sent and gets a whole reply of status 200, while the context is alive, of which
  -- the deltas bring the calls `cs` in the way of `IsSent`: they are numbered from 0 without a gap,
  -- the first delta of a call has its id and its name, and the arguments come in any pieces, those of
  -- several calls in any order. Then the response has the text of the chunks as its content and the
  -- calls `cs` in their order, each with its id, its name and what its arguments' text parses to,
  -- or that text itself where it does not parse; and the callback gets each text that is not empty,
  -- in order, and then the end.
  pub stream_with_tools-IsStream :
      (p : OpenAiProvider) (messages : List Message) (tools : List ToolDefinition) (w w' : W)
      (body : Str) (reply : HttpReply) (chunks : List StreamChunk) (cs : List PendingCall)
      → request_body api p messages tools ≡ ok body
      → api.post (p.base_url ++ bytes "/chat/completions") (bytes "Bearer " ++ p.api_key) body w
        ≡ (replied reply, w')
      → reply.status ≡ 200
      → reply.scan_err ≡ none
      → ((k : ℕ) → api.ctx_err w' k ≡ none)
      → IsStream api reply.lines chunks
      → IsSent [] (chunk_deltas chunks) cs
      → (events : List StreamEvent) × (resp : Response) × (stream_with_tools api p messages tools w
          ≡ ((events, ok resp), w'))
        × IsRead events resp chunks cs
  unfolding stream_with_tools on_sent
  stream_with_tools-IsStream p messages tools w w' body reply chunks cs built sent e f alive stream
        cut =
      let s = read_chunks chunks start_reading in
      (
        s.events ++ stream_done ∷ [],
        response_of api s,
        rw
            (
              built,
              sent,
              on_http-IsStream w' reply chunks e f alive stream,
              stream_with_tools,
              on_sent,
            )
            refl,
        read_chunks-IsRead chunks cs cut,
      )
