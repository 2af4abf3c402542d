-- ===== src/Tools/Visible.antt =====
-- A tool that the registry hides cannot be run: registry.go and loop.go.
use docsclaw.Base.{
  ℕ, zero, suc, Str, bytes, eq_iff, Map, insert, lookup-insert, Option, none, some, List, [], ◌∷◌,
  ◌++◌, Bool, true, false, ◌≡◌, refl, ap, arith, inl, inr, Result, Option-cases, get_elem?, length,
  replicate, ok, err,
}
use docsclaw.Llm.{ToolCall, ToolResultContent, Message, Response, Provider}
use docsclaw.Tools.{
  follow, Tool, Hook, Registry, LoopConfig, Runtime, errorf, register, hidden, get, collect,
  definitions, call_tool, execute_tool, run_call, run_calls, respond, on_reply, Turn, empty_result,
  iteration, tool_loop, run_tool_loop, stop, again, sort_definitions,
}

module _ {W : Type 0} where
  -- A call of a tool that the registry does not hand out runs no tool and no after-hook: without a
  -- hook nothing outside the process changes, with a hook only what its before-call does, and the
  -- result is an error in either case.
  execute_tool_unavailable :
      (r : Registry W) (h : Hook W) (tc : ToolCall) (w : W)
      → get r tc.name ≡ none
      → (execute_tool r none tc w ≡ (errorf (bytes "Unknown tool: " ++ tc.name), w))
        × ((execute_tool r (some h) tc w).1 ≡ (h.before_tool_call tc.name tc.args w).1)
        × ((execute_tool r (some h) tc w).0.error ≡ true)
  unfolding execute_tool call_tool
  execute_tool_unavailable r h tc w e = ground arith

  -- A call that the hook denies changes nothing beyond what the hook's before-call does, whatever
  -- the registry holds, and gives the model the hook's reason as an error.
  pub execute_tool_denied :
      (r : Registry W) (h : Hook W) (tc : ToolCall) (w : W)
      → (h.before_tool_call tc.name tc.args w).0.0 ≡ false
      → execute_tool r (some h) tc w ≡ (
        errorf (bytes "Tool call denied: " ++ (h.before_tool_call tc.name tc.args w).0.1),
        (h.before_tool_call tc.name tc.args w).1,
      )
  unfolding execute_tool
  execute_tool_denied r h tc w e = rw e

  -- Two registries that hand out the same tools under each name.
  abbrev Same : Registry W → Registry W → Type 0
  Same r q = (n : Str) → get r n ≡ get q n

  execute_tool-Same :
      (r q : Registry W) (h : Option (Hook W)) (tc : ToolCall) (w : W)
      → Same r q
      → execute_tool r h tc w ≡ execute_tool q h tc w
  unfolding execute_tool call_tool
  execute_tool-Same r q none tc w s = ground (arith, s tc.name)
  execute_tool-Same r q (some h) tc w s = ground (arith, s tc.name)

  run_call-Same :
      (r q : Registry W) (config : LoopConfig W) (calls : List ToolCall) (i : ℕ)
      (results : List ToolResultContent) (w : W)
      → Same r q
      → run_call r config calls i results w ≡ run_call q config calls i results w
  unfolding run_call
  run_call-Same r q config calls i results w s = elim (Option-cases (get_elem? calls i)) [
    | inl e ↦ ground (arith, e)
    | inr (tc, e) ↦ ground (arith, e, execute_tool-Same r q config.hook tc w s)
  ]

  run_calls-Same :
      (r q : Registry W) (config : LoopConfig W) (calls : List ToolCall) (order : List ℕ)
      (results : List ToolResultContent) (w : W)
      → Same r q
      → run_calls r config calls order results w ≡ run_calls q config calls order results w
  unfolding run_calls
  run_calls-Same r q config calls [] results w s = refl
  run_calls-Same r q config calls (i ∷ order) results w s =
      let first = run_call-Same r q config calls i results w s in
      rw first (run_calls-Same r q config calls order _ _ s)

  follow_ext :
      (next other : List Message → W → Result Str Str × W) (t : Turn W)
      → ((m : List Message) (v : W) → next m v ≡ other m v)
      → follow t next ≡ follow t other
  unfolding follow
  follow_ext next other (stop result w) same = refl
  follow_ext next other (again m v) same = same m v

  module _ (rt : Runtime W) (provider : Provider W) (config : LoopConfig W) where
    on_reply-Same :
        (r q : Registry W) (messages : List Message) (reply : Result Str Response) (w : W)
        → Same r q
        → on_reply rt provider r config messages reply w
          ≡ on_reply rt provider q config messages reply w
    unfolding on_reply respond
    on_reply-Same r q messages (err e) w s = refl
    on_reply-Same r q messages (ok resp) w s =
        let n = length resp.tool_calls in
        let same =
          run_calls-Same r q config resp.tool_calls (rt.schedule w n) (replicate n empty_result) w
            s in
        ground (arith, same)

    iteration-Same :
        (r q : Registry W) (messages : List Message) (w : W)
        → Same r q
        → definitions r ≡ definitions q
        → iteration rt provider r config messages w ≡ iteration rt provider q config messages w
    unfolding iteration
    iteration-Same r q messages w s d = rw d (on_reply-Same r q messages _ _ s)

    tool_loop-Same :
        (r q : Registry W) (rounds : ℕ) (messages : List Message) (w : W)
        → Same r q
        → definitions r ≡ definitions q
        → tool_loop rt provider r config rounds messages w
          ≡ tool_loop rt provider q config rounds messages w
    unfolding tool_loop
    tool_loop-Same r q zero messages w s d = refl
    tool_loop-Same r q (suc rounds) messages w s d = rw (iteration-Same r q messages w s d) (
        follow_ext _ _ (iteration rt provider q config messages w)
          (λ m v. tool_loop-Same r q rounds m v s d))

  register-get_hidden :
      (t : Tool W) (r : Registry W) → hidden r t.name ≡ true → Same (register t r) r
  unfolding register get hidden
  register-get_hidden t r h n = ground (arith, lookup-insert t.name n t r.tools, eq_iff t.name n)

  collect-insert_hidden :
      (hide : Str → Bool) (t : Tool W) (m : Map (Tool W))
      → hide t.name ≡ true
      → collect hide (insert t.name t m) ≡ collect hide m
  unfolding collect insert
  collect-insert_hidden hide t [] h = rw h
  collect-insert_hidden hide t ((j, u) ∷ m) h =
      ground (arith, eq_iff j t.name, collect-insert_hidden hide t m h)

  definitions-register-hidden :
      (t : Tool W) (r : Registry W)
      → hidden r t.name ≡ true
      → definitions (register t r) ≡ definitions r
  unfolding definitions register hidden
  definitions-register-hidden t r h =
      ap sort_definitions (collect-insert_hidden (hidden r) t r.tools h)

  -- A tool outside the allow list has no part in a run: registering it, with whatever code behind
  -- it, gives the same answer and the same effects of the whole loop, for every provider and hook.
  pub run_tool_loop-register-hidden :
      (rt : Runtime W) (provider : Provider W) (r : Registry W) (config : LoopConfig W) (t : Tool W)
      (messages : List Message) (w : W)
      → hidden r t.name ≡ true
      → run_tool_loop rt provider (register t r) config messages w
        ≡ run_tool_loop rt provider r config messages w
  unfolding run_tool_loop
  run_tool_loop-register-hidden rt provider r config t messages w h =
      tool_loop-Same rt provider config (register t r) r config.max_iterations messages w
        (register-get_hidden t r h) (definitions-register-hidden t r h)
