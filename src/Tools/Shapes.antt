-- ===== src/Tools/Shapes.antt =====
-- loop.go, the conversation: which fields a message has with its role.
use docsclaw.Base.{ℕ, Str, bytes, List, [], ◌≡◌, refl, subst, Result, ok, err, All, All-append}
use docsclaw.Llm.{Message, Response, Provider}
use docsclaw.Tools.{Registry, LoopConfig, Runtime, again, on_reply, iteration}
use docsclaw.Tools.Rounds.{Reached, here, next, respond-again}

-- Only an assistant's message has calls, and only a tool's message has results.
pub data IsShaped (m : Message) : Type 0 where
  is_system : m.role ≡ bytes "system" → m.tool_calls ≡ [] → m.tool_results ≡ [] → IsShaped m
  is_user : m.role ≡ bytes "user" → m.tool_calls ≡ [] → m.tool_results ≡ [] → IsShaped m
  is_assistant : m.role ≡ bytes "assistant" → m.tool_results ≡ [] → IsShaped m
  is_tool : m.role ≡ bytes "tool" → m.tool_calls ≡ [] → IsShaped m

module _ {W : Type 0} (rt : Runtime W) (provider : Provider W) (r : Registry W)
    (config : LoopConfig W) where
  on_reply-IsShaped :
      (messages ms : List Message) (reply : Result Str Response) (w v : W)
      → All IsShaped messages
      → on_reply rt provider r config messages reply w ≡ again ms v
      → All IsShaped ms
  unfolding on_reply
  on_reply-IsShaped messages ms (err x) w v h e = absurd (cc)
  on_reply-IsShaped messages ms (ok resp) w v h e =
      subst (All IsShaped) (respond-again rt provider r config messages ms resp w v e)
        (All-append IsShaped messages _ h (is_assistant refl refl, (is_tool refl refl, tt)))

  -- The loop adds only messages whose fields fit their roles.
  pub Reached-IsShaped :
      {messages : List Message} {w : W} {ms : List Message} {v : W} {n : ℕ}
      → All IsShaped messages
      → Reached rt provider r config messages w n ms v
      → All IsShaped ms
  unfolding iteration
  Reached-IsShaped h here = h
  Reached-IsShaped h (next {ms = ms} {ms' = ms'} {v' = v'} reach e) =
      on_reply-IsShaped ms ms' _ _ v' (Reached-IsShaped h reach) e
