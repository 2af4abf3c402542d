-- ===== src/Providers/OpenAi/Wire/Paired.antt =====
-- openai.go, the conversion of the messages of a tool loop: that its calls are answered.
use docsclaw.Base.{
  Str, bytes, ◌==◌, Option, none, some, List, [], ◌∷◌, ◌++◌, map, Map, ◌≡◌, refl, sym, subst, ap,
  ok, All, ℕ, if◌then◌else◌,
}
use docsclaw.Json.{Json}
use docsclaw.Providers.OpenAi.Client.{provider_of}
use docsclaw.Llm.{ToolCall, ToolResultContent, Message}
use docsclaw.Tools.{Registry, LoopConfig, Runtime}
use docsclaw.Tools.Pairing.{IsPaired, call_ids, result_ids}
use docsclaw.Tools.Shapes.{IsShaped, is_system, is_user, is_assistant, is_tool, Reached-IsShaped}
use docsclaw.Tools.Rounds.{Reached, IsComplete, Reached-IsPaired}
use docsclaw.Providers.OpenAi.Wire.{
  OpenAiProvider, WireCall, WireMessage, plain, assistant, tool, Api, marshal_calls,
  convert_message, convert_messages,
}

-- Each call is answered, with the ids of the calls that are not answered yet: each tool message
-- answers the first of them, no other message comes before all are answered, none stays open, and no
-- message is null.
pub data IsAnswered : List Str → List WireMessage → Type 0 where
  end : IsAnswered [] []
  plain_next :
      {role content : Str} {ms : List WireMessage}
      → IsAnswered [] ms
      → IsAnswered [] (plain role content ∷ ms)
  assistant_next :
      {content : Option Str} {calls : List WireCall} {ms : List WireMessage}
      → IsAnswered (map (λ c. c.id) calls) ms
      → IsAnswered [] (assistant content calls ∷ ms)
  tool_next :
      {id content : Str} {ids : List Str} {ms : List WireMessage}
      → IsAnswered ids ms
      → IsAnswered (id ∷ ids) (tool id content ∷ ms)

tools_of : List ToolResultContent → List WireMessage
tools_of = map (λ (r : ToolResultContent). tool r.tool_use_id r.output)

tools_of-IsAnswered :
    (results : List ToolResultContent) (rest : List WireMessage)
    → IsAnswered [] rest
    → IsAnswered (result_ids results) (tools_of results ++ rest)
unfolding tools_of
tools_of-IsAnswered [] rest h = h
tools_of-IsAnswered (r ∷ results) rest h = tool_next (tools_of-IsAnswered results rest h)

module _ {W : Type 0} (api : Api W) where
  -- Arguments can always be marshalled.
  abbrev pub IsMarshalled : Type 0
  IsMarshalled = (args : Map Json) → (s : Str) × (api.marshal_args args ≡ ok s)

  marshal_calls-ids :
      (calls : List ToolCall)
      → IsMarshalled
      → (wire : List WireCall) × (marshal_calls api calls ≡ ok wire)
        × (map (λ c. c.id) wire ≡ call_ids calls)
  unfolding marshal_calls
  marshal_calls-ids [] total = ([], refl, refl)
  marshal_calls-ids (c ∷ calls) total =
      let (rest, e, f) = marshal_calls-ids calls total in
      let (s, g) = total c.args in
      (
        record { id = c.id; name = c.name; arguments = s } ∷ rest,
        rw (g, marshal_calls, e) refl,
        ap (λ l. c.id ∷ l) f,
      )

  -- One message, in front of messages that answer its calls.
  convert_message-IsAnswered :
      (m : Message)
      → IsMarshalled
      → IsShaped m
      → (front : List WireMessage) × (convert_message api m ≡ ok front)
        × ((rest : List WireMessage)
            → IsAnswered (call_ids m.tool_calls) rest
            → IsAnswered (result_ids m.tool_results) (front ++ rest))
  unfolding convert_message ◌==◌ bytes tools_of
  convert_message-IsAnswered m total (is_system e f g) = (
    plain m.role m.content ∷ [],
    rw (e, convert_message) refl,
    λ rest h. rw g (plain_next (subst (λ l. IsAnswered (call_ids l) rest) f h)),
  )
  convert_message-IsAnswered m total (is_user e f g) = (
    plain m.role m.content ∷ [],
    rw (e, convert_message) refl,
    λ rest h. rw g (plain_next (subst (λ l. IsAnswered (call_ids l) rest) f h)),
  )
  convert_message-IsAnswered m total (is_assistant e g) =
      let (wire, h, ids) = marshal_calls-ids m.tool_calls total in
      (
        assistant (if m.content == [] then none else some m.content) wire ∷ [],
        rw (e, h, convert_message) refl,
        λ rest k. rw g (assistant_next (subst (λ l. IsAnswered l rest) (sym ids) k)),
      )
  convert_message-IsAnswered m total (is_tool e f) = (
    tools_of m.tool_results,
    rw (e, convert_message) refl,
    λ rest h.
        tools_of-IsAnswered m.tool_results rest (subst (λ l. IsAnswered (call_ids l) rest) f h),
  )

  convert_messages-IsAnswered :
      (ids : List Str) (ms : List Message)
      → IsMarshalled
      → All IsShaped ms
      → IsPaired ids ms
      → (wire : List WireMessage) × (convert_messages api ms ≡ ok wire) × IsAnswered ids wire
  unfolding convert_messages
  convert_messages-IsAnswered ids [] total h e =
      ([], refl, subst (λ l. IsAnswered l []) (sym e) end)
  convert_messages-IsAnswered ids (m ∷ ms) total (first, h) (e, k) =
      let (front, f, accepted) = convert_message-IsAnswered m total first in
      let (rest, g, later) = convert_messages-IsAnswered (call_ids m.tool_calls) ms total h k in
      (
        front ++ rest,
        rw (f, g, convert_messages) refl,
        subst (λ l. IsAnswered l (front ++ rest)) e (accepted rest later),
      )

  -- If the first messages are paired and shaped, each scheduled round runs every call, and arguments
  -- can always be marshalled: the conversation of the tool loop, whenever its provider is asked and in
  -- whatever order the calls of a round ran, is converted without an error, and in what is sent of it
  -- each message with calls is directly followed by one tool message for each of them, with its id and
  -- in their order, no tool message stands elsewhere, and no message is null.
  pub Reached-IsAnswered :
      (rt : Runtime W) (p : OpenAiProvider) (r : Registry W) (config : LoopConfig W)
      {messages : List Message} {w : W} {ms : List Message} {v : W} {n : ℕ}
      → IsMarshalled
      → IsComplete rt
      → All IsShaped messages
      → IsPaired [] messages
      → Reached rt (provider_of api p) r config messages w n ms v
      → (wire : List WireMessage) × (convert_messages api ms ≡ ok wire) × IsAnswered [] wire
  Reached-IsAnswered rt p r config {ms = ms} total complete shaped paired reach =
      convert_messages-IsAnswered [] ms total
        (Reached-IsShaped rt (provider_of api p) r config shaped reach)
        (Reached-IsPaired rt (provider_of api p) r config complete paired reach)
