-- ===== src/Providers/Anthropic/Paired.antt =====
-- anthropic.go, the conversion of the messages of a tool loop: each use of a tool is answered.
use mathlib.Core.List.{append-nil, append_assoc}
use docsclaw.Base.{
  ℕ, Str, bytes, ◌==◌, List, [], ◌∷◌, ◌++◌, map, ◌≡◌, refl, sym, subst, ap, ◌∙◌, arith, All,
  if◌then◌else◌,
}
use docsclaw.Llm.{ToolCall, ToolResultContent, ToolDefinition, Message}
use docsclaw.Tools.{Registry, LoopConfig, Runtime}
use docsclaw.Tools.Pairing.{IsPaired, call_ids, result_ids}
use docsclaw.Tools.Shapes.{IsShaped, is_system, is_user, is_assistant, is_tool, Reached-IsShaped}
use docsclaw.Tools.Rounds.{Reached, IsComplete, Reached-IsPaired}
use docsclaw.Providers.Anthropic.{
  AnthropicProvider, BlockParam, text_block, tool_use_block, tool_result_block, MessageParam, Sdk,
  call_block, result_block, convert_message, convert_messages, params_of, provider_of,
}

-- The ids that the blocks of a message use, and the ids that they answer.
pub used_ids : List BlockParam → List Str
used_ids [] = []
used_ids (tool_use_block id args name ∷ blocks) = id ∷ used_ids blocks
used_ids (_ ∷ blocks) = used_ids blocks

pub answered_ids : List BlockParam → List Str
answered_ids [] = []
answered_ids (tool_result_block id output e ∷ blocks) = id ∷ answered_ids blocks
answered_ids (_ ∷ blocks) = answered_ids blocks

-- Uses are answered, with the ids that the message before used: each message answers exactly
-- those, in their order, only an assistant's message uses tools, and none stays unanswered.
pub data IsAccepted : List Str → List MessageParam → Type 0 where
  end : IsAccepted [] []
  user_next :
      {ids : List Str} {m : MessageParam} {ms : List MessageParam}
      → m.role ≡ bytes "user"
      → answered_ids m.content ≡ ids
      → used_ids m.content ≡ []
      → IsAccepted [] ms
      → IsAccepted ids (m ∷ ms)
  assistant_next :
      {m : MessageParam} {ms : List MessageParam}
      → m.role ≡ bytes "assistant"
      → answered_ids m.content ≡ []
      → IsAccepted (used_ids m.content) ms
      → IsAccepted [] (m ∷ ms)

used_ids-calls : (calls : List ToolCall) → used_ids (map call_block calls) ≡ call_ids calls
unfolding used_ids
used_ids-calls [] = refl
used_ids-calls (c ∷ calls) = ap (λ l. c.id ∷ l) (used_ids-calls calls)

answered_ids-calls : (calls : List ToolCall) → answered_ids (map call_block calls) ≡ []
unfolding answered_ids
answered_ids-calls [] = refl
answered_ids-calls (c ∷ calls) = answered_ids-calls calls

answered_ids-results :
    (results : List ToolResultContent)
    → answered_ids (map result_block results) ≡ result_ids results
unfolding answered_ids
answered_ids-results [] = refl
answered_ids-results (r ∷ results) = ap (λ l. r.tool_use_id ∷ l) (answered_ids-results results)

used_ids-results : (results : List ToolResultContent) → used_ids (map result_block results) ≡ []
unfolding used_ids
used_ids-results [] = refl
used_ids-results (r ∷ results) = used_ids-results results

abbrev assistant_blocks : Message → List BlockParam
assistant_blocks m =
    (if m.content == [] then [] else text_block m.content ∷ []) ++ map call_block m.tool_calls

used_ids-assistant : (m : Message) → used_ids (assistant_blocks m) ≡ call_ids m.tool_calls
unfolding used_ids
used_ids-assistant m = let ids = used_ids-calls m.tool_calls in ground (arith, ids)

answered_ids-assistant : (m : Message) → answered_ids (assistant_blocks m) ≡ []
unfolding answered_ids
answered_ids-assistant m = let ids = answered_ids-calls m.tool_calls in ground (arith, ids)

-- The message is converted to `added`, behind what is converted so far.
abbrev IsConverted : Message → List MessageParam → Type 0
IsConverted m added =
    (system : Str) (done : List MessageParam)
    → (system' : Str) × (convert_message m (system, done) ≡ (system', done ++ added))

-- What a message adds is accepted in front of messages that are accepted behind its calls.
abbrev IsAnswering : Message → List MessageParam → Type 0
IsAnswering m added =
    (rest : List MessageParam)
    → IsAccepted (call_ids m.tool_calls) rest
    → IsAccepted (result_ids m.tool_results) (added ++ rest)

no_calls :
    (calls : List ToolCall) {rest : List MessageParam}
    → calls ≡ []
    → IsAccepted (call_ids calls) rest
    → IsAccepted [] rest
no_calls calls {rest = rest} e h = subst (λ l. IsAccepted (call_ids l) rest) e h

convert_message-IsAccepted :
    (m : Message)
    → IsShaped m
    → (added : List MessageParam) × IsConverted m added × IsAnswering m added
unfolding convert_message ◌==◌ bytes used_ids answered_ids
convert_message-IsAccepted m (is_system e f g) = (
  [],
  λ system done. (m.content, rw (e, convert_message, append-nil done) refl),
  λ rest h. rw g (no_calls m.tool_calls f h),
)
convert_message-IsAccepted m (is_user e f g) = (
  record { role = bytes "user"; content = text_block m.content ∷ [] } ∷ [],
  λ system done. (system, rw (e, convert_message) refl),
  λ rest h. rw g (user_next refl refl refl (no_calls m.tool_calls f h)),
)
convert_message-IsAccepted m (is_assistant e g) = (
  record { role = bytes "assistant"; content = assistant_blocks m } ∷ [],
  λ system done. (system, rw (e, convert_message) refl),
  λ rest h. rw g (
      assistant_next refl (answered_ids-assistant m)
        (subst (λ l. IsAccepted l rest) (sym (used_ids-assistant m)) h)),
)
convert_message-IsAccepted m (is_tool e f) = (
  record { role = bytes "user"; content = map result_block m.tool_results } ∷ [],
  λ system done. (system, rw (e, convert_message) refl),
  λ rest h.
      user_next refl (answered_ids-results m.tool_results) (used_ids-results m.tool_results)
        (no_calls m.tool_calls f h),
)

convert_messages-IsAccepted :
    (ids : List Str) (ms : List Message) (system : Str) (done : List MessageParam)
    → All IsShaped ms
    → IsPaired ids ms
    → (added : List MessageParam) × ((convert_messages ms (system, done)).1 ≡ done ++ added)
      × IsAccepted ids added
unfolding convert_messages
convert_messages-IsAccepted ids [] system done h e =
    ([], sym (append-nil done), subst (λ l. IsAccepted l []) (sym e) end)
convert_messages-IsAccepted ids (m ∷ ms) system done (first, h) (e, k) =
    let (added, converted, accepted) = convert_message-IsAccepted m first in
    let (system', f) = converted system done in
    let (rest, g, later) =
      convert_messages-IsAccepted (call_ids m.tool_calls) ms system' (done ++ added) h k in
    (
      added ++ rest,
      ap (λ d. (convert_messages ms d).1) f ∙ g ∙ append_assoc done added rest,
      subst (λ l. IsAccepted l (added ++ rest)) e (accepted rest later),
    )

params_of-IsAccepted :
    (p : AnthropicProvider) (ms : List Message) (tools : List ToolDefinition)
    → All IsShaped ms
    → IsPaired [] ms
    → IsAccepted [] (params_of p ms tools).messages
unfolding params_of
params_of-IsAccepted p ms tools shaped paired =
    let (added, e, accepted) = convert_messages-IsAccepted [] ms [] [] shaped paired in
    subst (IsAccepted []) (sym e) accepted

-- The conversation of the tool loop, whenever its provider is asked and in whatever order the calls
-- of a round ran: in what is sent of it, each message answers exactly the tools that the message
-- before used, if the first messages are paired and shaped and each scheduled round runs every call.
pub Reached-sent-IsAccepted :
    {W E : Type 0} (sdk : Sdk W E) (rt : Runtime W) (p : AnthropicProvider) (r : Registry W)
    (config : LoopConfig W) (tools : List ToolDefinition) {messages : List Message} {w : W}
    {ms : List Message} {v : W} {n : ℕ}
    → IsComplete rt
    → All IsShaped messages
    → IsPaired [] messages
    → Reached rt (provider_of sdk p) r config messages w n ms v
    → IsAccepted [] (params_of p ms tools).messages
Reached-sent-IsAccepted sdk rt p r config tools {ms = ms} complete shaped paired reach =
    params_of-IsAccepted p ms tools (Reached-IsShaped rt (provider_of sdk p) r config shaped reach)
      (Reached-IsPaired rt (provider_of sdk p) r config complete paired reach)
