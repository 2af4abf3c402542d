-- ===== src/Providers/OpenAi/Client/Faithful.antt =====
-- openai.go, StreamWithTools: what the callback is told, against what is returned, for every reply.
use docsclaw.Base.{
  Str, bytes, Option, none, some, List, ◌++◌, ◌≡◌, inl, inr, refl, subst, sym, Bool-cases, Result,
  Result-cases, ok, err, eqb,
}
use docsclaw.Providers.Honest.{
  IsHonest, IsHonestPair, IsToldText, told_start, told_done, told_error, told_silent,
}
use docsclaw.Llm.{Message, ToolDefinition, StreamEvent}
use docsclaw.Providers.OpenAi.Wire.{
  OpenAiProvider, HttpReply, Sent, not_built, not_sent, replied, Api,
}
use docsclaw.Providers.OpenAi.Reading.{Reading, start_reading, read_lines}
use docsclaw.Providers.OpenAi.Reading.Told.{IsTold, read_lines-IsTold, read_lines-same}
use docsclaw.Providers.OpenAi.Client.{
  response_of, failed_with, finish_reading, on_http, on_sent, request_body, stream_with_tools,
}

module _ {W : Type 0} (api : Api W) where
  failed_with-IsHonest :
      {events : List StreamEvent} {text : Str} (shown e : Str)
      → IsToldText events text
      → IsHonestPair (failed_with api shown e events)
  unfolding failed_with
  failed_with-IsHonest shown e h = told_error shown e h

  response_of-content : (s : Reading) → (response_of api s).content ≡ s.content
  unfolding response_of
  response_of-content s = refl

  finish_reading-IsHonest :
      (scan_err : Option Str) (read : Result Str Reading × Reading)
      → ((end : Reading) → read.0 ≡ ok end → read.1 ≡ end)
      → IsTold read.1
      → IsHonestPair (finish_reading api scan_err read)
  unfolding finish_reading
  finish_reading-IsHonest scan_err (err e, s) same h = told_silent h
  finish_reading-IsHonest (some e) (ok end, s) same h =
      failed_with-IsHonest _ _ (subst IsTold (same end refl) h)
  finish_reading-IsHonest none (ok end, s) same h =
      told_done (response_of api end) (subst IsTold (same end refl) h)
        (sym (response_of-content end))

  on_http-IsHonest : (w : W) (reply : HttpReply) → IsHonestPair (on_http api w reply)
  unfolding on_http
  on_http-IsHonest w reply = elim (Bool-cases (eqb reply.status 200)) [
    | inr e ↦ rw (e, on_http) (failed_with-IsHonest _ _ told_start)
    | inl e ↦
        rw (e, on_http)
          (finish_reading-IsHonest reply.scan_err (read_lines api w 0 reply.lines start_reading)
            (read_lines-same api w 0 reply.lines start_reading)
            (read_lines-IsTold api w 0 reply.lines start_reading told_start))
  ]

  on_sent-IsHonest : (sent : Sent × W) → IsHonestPair (on_sent api sent).0
  unfolding on_sent
  on_sent-IsHonest (not_built e, w) = told_silent told_start
  on_sent-IsHonest (not_sent e, w) = failed_with-IsHonest _ _ told_start
  on_sent-IsHonest (replied reply, w) = on_http-IsHonest w reply

  -- Whatever the server sends and whenever the context ends: the texts that the callback is told are,
  -- put together, the content of the response, with the end behind them; when the call fails, the end
  -- is not told, and an error, if it is told, is the last event.
  pub stream_with_tools-IsHonest :
      (p : OpenAiProvider) (messages : List Message) (tools : List ToolDefinition) (w : W)
      → IsHonest
          (stream_with_tools api p messages tools w).0.0
          (stream_with_tools api p messages tools w).0.1
  unfolding stream_with_tools
  stream_with_tools-IsHonest p messages tools w =
      elim (Result-cases (request_body api p messages tools)) [
        | inl (e, failed) ↦ rw (failed, stream_with_tools) (told_silent told_start)
        | inr (body, built) ↦
            rw (built, stream_with_tools)
              (on_sent-IsHonest (
                api.post (p.base_url ++ bytes "/chat/completions") (bytes "Bearer " ++ p.api_key)
                  body w))
      ]
