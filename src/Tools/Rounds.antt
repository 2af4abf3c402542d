-- ===== src/Tools/Rounds.antt =====
-- loop.go, the whole loop: the rounds it goes through, and how it ends.
use mathlib.Core.List.{Memᴰ}
use docsclaw.Base.{
  ℕ, zero, suc, ◌+◌, ◌<◌, Str, bytes, decimal, List, [], ◌∷◌, ◌++◌, false, ◌≡◌, refl, sym, ap,
  subst, ◌∙◌, arith, Result, ok, err, length, replicate,
}
use docsclaw.Llm.{ToolResultContent, Message, Response, Provider, has_tool_calls}
use docsclaw.Tools.{
  Registry, LoopConfig, Runtime, Turn, stop, again, follow, empty_result, asked_message,
  tool_message, run_calls, respond, on_reply, iteration, tool_loop, run_tool_loop, definitions,
}
use docsclaw.Tools.Pairing.{IsPaired, IsPaired-append, result_ids-run_calls}

-- The schedule runs the goroutine of each call.
abbrev pub IsComplete : {W : Type 0} → Runtime W → Type 0
IsComplete {W} rt = (w : W) (n i : ℕ) → i < n → Memᴰ i (rt.schedule w n)

module _ {W : Type 0} (rt : Runtime W) (provider : Provider W) (r : Registry W) where
  module _ (config : LoopConfig W) where
    -- The conversation and the world at the start of the round behind `n` completed rounds.
    pub data Reached (messages : List Message) (w : W) : ℕ → List Message → W → Type 0 where
      here : Reached messages w zero messages w
      next :
          {n : ℕ} {ms ms' : List Message} {v v' : W}
          → Reached messages w n ms v
          → iteration rt provider r config ms v ≡ again ms' v'
          → Reached messages w (suc n) ms' v'

    abbrev round_results : Response → W → List ToolResultContent
    round_results resp w =
        (run_calls r config resp.tool_calls (rt.schedule w (length resp.tool_calls))
          (replicate (length resp.tool_calls) empty_result) w).0

    pub respond-again :
        (messages ms : List Message) (resp : Response) (w v : W)
        → respond rt provider r config messages resp w ≡ again ms v
        → messages ++ asked_message resp ∷ tool_message (round_results resp w) ∷ [] ≡ ms
    unfolding respond
    respond-again messages ms resp w v e = ground arith

    on_reply-IsPaired :
        (messages ms : List Message) (reply : Result Str Response) (w v : W)
        → IsComplete rt
        → IsPaired [] messages
        → on_reply rt provider r config messages reply w ≡ again ms v
        → IsPaired [] ms
    unfolding on_reply
    on_reply-IsPaired messages ms (err x) w v complete h e = absurd (cc)
    on_reply-IsPaired messages ms (ok resp) w v complete h e =
        rw (sym (respond-again messages ms resp w v e)) (
          IsPaired-append [] messages (asked_message resp) (tool_message (round_results resp w)) h
            refl
            (result_ids-run_calls r config resp.tool_calls (rt.schedule w (length resp.tool_calls))
              w (complete w (length resp.tool_calls)))
            refl)

    -- Whenever the provider is asked, in whatever order the calls of the earlier rounds ran, every
    -- tool call made so far has exactly one result, in the message directly behind it and at the
    -- same place: if this holds of the first messages and each scheduled round runs every call.
    pub Reached-IsPaired :
        {messages : List Message} {w : W} {ms : List Message} {v : W} {n : ℕ}
        → IsComplete rt
        → IsPaired [] messages
        → Reached messages w n ms v
        → IsPaired [] ms
    unfolding iteration
    Reached-IsPaired complete h here = h
    Reached-IsPaired complete h (next {ms = ms} {ms' = ms'} {v' = v'} reach e) =
        on_reply-IsPaired ms ms' _ _ v' complete (Reached-IsPaired complete h reach) e

    -- A run that answered `content`: fewer than `bound` rounds led to a conversation for which the
    -- provider's reply holds no tool calls, and `content` is the text of that reply.
    pub record IsAnswered (messages : List Message) (w : W) (bound : ℕ) (content : Str) (end : W)
        : Type 0 where
      pub rounds : ℕ
      pub last : List Message
      pub before : W
      pub resp : Response
      pub in_bound : rounds < bound
      pub reached : Reached messages w rounds last before
      pub replied : provider.complete_with_tools last (definitions r) before ≡ (ok resp, end)
      pub final : has_tool_calls resp ≡ false
      pub text : resp.content ≡ content

    on_reply-stop_ok :
        (messages : List Message) (reply : Result Str Response) (w v : W) (content : Str)
        → on_reply rt provider r config messages reply w ≡ stop (ok content) v
        → (resp : Response) × (reply ≡ ok resp)
          × (has_tool_calls resp ≡ false)
          × (resp.content ≡ content)
          × (w ≡ v)
    unfolding on_reply respond
    on_reply-stop_ok messages (err x) w v content e = absurd (cc)
    on_reply-stop_ok messages (ok resp) w v content e =
        (resp, refl, ground arith, ground arith, ground arith)

    iteration-stop_ok :
        (messages ms : List Message) (w v v' : W) (n bound : ℕ) (content : Str)
        → n < bound
        → Reached messages w n ms v
        → iteration rt provider r config ms v ≡ stop (ok content) v'
        → IsAnswered messages w bound content v'
    unfolding iteration
    iteration-stop_ok messages ms w v v' n bound content h reach e =
        let (resp, replied, final, text, same) = on_reply-stop_ok ms _ _ v' content e in
        record {
          rounds = n;
          last = ms;
          before = v;
          resp = resp;
          in_bound = h;
          reached = reach;
          replied = λ i. (replied i, same i);
          final = final;
          text = text;
        }

    tool_loop-IsAnswered :
        (k n : ℕ) (messages ms : List Message) (w v v' : W) (content : Str)
        → Reached messages w n ms v
        → tool_loop rt provider r config k ms v ≡ (ok content, v')
        → IsAnswered messages w (n + k) content v'
    unfolding tool_loop follow
    tool_loop-IsAnswered zero n messages ms w v v' content reach e = absurd (cc)
    tool_loop-IsAnswered (suc k) n messages ms w v v' content reach e =
        turn (iteration rt provider r config ms v) refl e (λ ms' u again_e back.
          tool_loop-IsAnswered k (suc n) messages ms' w u v' content (next reach again_e) back)
      where
        turn :
            (t : Turn W)
            → iteration rt provider r config ms v ≡ t
            → follow t (tool_loop rt provider r config k) ≡ (ok content, v')
            → ((ms' : List Message) (u : W)
                → iteration rt provider r config ms v ≡ again ms' u
                → tool_loop rt provider r config k ms' u ≡ (ok content, v')
                → IsAnswered messages w (suc n + k) content v')
            → IsAnswered messages w (n + suc k) content v'
        turn (stop result u) te f ih =
            iteration-stop_ok messages ms w v v' n (n + suc k) content (omega arith) reach
              (te ∙ ap {B = Turn W} (λ (x : Result Str Str × W). stop x.0 x.1) f)
        turn (again ms' u) te f ih =
            let same : suc n + k ≡ n + suc k = omega arith in
            subst (λ b. IsAnswered messages w b content v') same (ih ms' u te f)

    -- A run answers only with the text of a reply that asks for no more tools, got in fewer rounds
    -- than the limit from a conversation that its own rounds built; nothing happens after it.
    pub run_tool_loop-IsAnswered :
        (messages : List Message) (w v : W) (content : Str)
        → run_tool_loop rt provider r config messages w ≡ (ok content, v)
        → IsAnswered messages w config.max_iterations content v
    unfolding run_tool_loop
    run_tool_loop-IsAnswered messages w v content e =
        let answered =
          tool_loop-IsAnswered config.max_iterations 0 messages messages w w v content here e in
        subst (λ b. IsAnswered messages w b content v) (omega arith) answered

    tool_loop_of_Reached :
        (k n : ℕ) {messages : List Message} {w : W} {ms : List Message} {v : W}
        → Reached messages w n ms v
        → tool_loop rt provider r config (n + k) messages w ≡ tool_loop rt provider r config k ms v
    unfolding tool_loop follow
    tool_loop_of_Reached k zero {messages} {w} here = let e : 0 + k ≡ k = omega arith in rw e
    tool_loop_of_Reached k (suc n) {messages} {w} (next {ms = ms'} {v = v'} reach e) =
        let more : suc n + k ≡ n + suc k = omega arith in
        let round : follow (iteration rt provider r config ms' v')
              (tool_loop rt provider r config k)
            ≡ _ =
          ap (λ t. follow t (tool_loop rt provider r config k)) e in
        rw more (tool_loop_of_Reached (suc k) n reach ∙ round)

    -- If all the rounds that the limit allows end in tool calls, the run gives the error that names
    -- the limit, and leaves the world as the last round left it: it never goes one round further.
    pub run_tool_loop_exhausted :
        {messages : List Message} {w : W} {ms : List Message} {v : W}
        → Reached messages w config.max_iterations ms v
        → run_tool_loop rt provider r config messages w ≡ (
          err (
              bytes "max iterations ("
              ++ (decimal config.max_iterations ++ bytes ") reached without final response")),
          v,
        )
    unfolding run_tool_loop tool_loop
    run_tool_loop_exhausted reach =
        let same : config.max_iterations + 0 ≡ config.max_iterations = omega arith in
        rw same at (tool_loop_of_Reached 0 config.max_iterations reach)
