-- ===== src/Tools/Examples.antt =====
-- Runs of the registry and the loop over a world that counts what happened, and the theorems on them.
use mathlib.Core.List.{Memᴰ}
use native.Mathlib.Decide.{ℕ_discrete}
use docsclaw.Base.{
  ℕ, zero, suc, ◌+◌, ◌<◌, Str, bytes, ◌==◌, decimal, none, List, [], ◌∷◌, ◌++◌, true, false, ◌≡◌,
  refl, arith, ok, err, lookup, insert,
}
use docsclaw.Llm.{
  ToolDefinition, ToolCall, Message, Response, Provider, no_usage, text_message, ToolResultContent,
  has_tool_calls,
}
use docsclaw.Tools.{
  Tool, Hook, Registry, LoopConfig, Runtime, errorf, new_registry, register, hidden, get,
  definitions, execute_tool, truncate_result, iteration, tool_loop, run_tool_loop, again, filter_of,
  flag, call_tool, run_tool, on_reply, respond, follow, run_call, run_calls, asked_message,
  tool_message, collect, sort_definitions, insert_definition,
}
use docsclaw.Tools.Names.{IsKeyed, new_registry-IsKeyed, register-IsKeyed}
use docsclaw.Tools.Visible.{run_tool_loop-register-hidden}
use docsclaw.Tools.Pairing.{IsPaired}
use docsclaw.Tools.Rounds.{
  IsComplete, Reached, here, next, Reached-IsPaired, IsAnswered, run_tool_loop-IsAnswered,
  run_tool_loop_exhausted,
}

-- the last goroutine first
abbrev pub countdown : ℕ → List ℕ
countdown zero = []
countdown (suc n) = n ∷ countdown n

countdown-Mem : (n i : ℕ) → i < n → Memᴰ i (countdown n)
countdown-Mem zero i h = absurd (omega (arith, h))
countdown-Mem (suc n) i h = elim (ℕ_discrete i n) [
  | yes e ↦ Memᴰ.head e
  | no ne ↦ Memᴰ.tail (countdown-Mem n i (omega (arith, h, ne)))
]

abbrev pub runtime : Runtime ℕ
runtime = record { schedule = λ _ n. countdown n; ctx_err = λ _. none }

abbrev pub echo : Tool ℕ
echo = record {
  name = bytes "echo";
  description = [];
  parameters = [];
  execute = λ _ w. (record { output = bytes "done"; error = false }, w + 1);
}

abbrev pub other : Tool ℕ
other = record {
  name = bytes "alpha";
  description = [];
  parameters = [];
  execute = λ _ w. (errorf [], w + 5);
}

abbrev pub registry : Registry ℕ
registry = register echo (register other (new_registry (bytes "echo" ∷ bytes "last" ∷ [])))

abbrev pub config : LoopConfig ℕ
config = record { max_iterations = 1; max_result_bytes = 0; hook = none }

abbrev pub call_named : Str → ToolCall
call_named id = record { id = id; name = bytes "echo"; args = [] }

abbrev pub asking : Response
asking = record {
  stop_reason = bytes "tool_use";
  content = [];
  tool_calls = call_named (bytes "1") ∷ call_named (bytes "2") ∷ [];
  usage = no_usage;
}

abbrev pub answering : Response
answering = record { stop_reason = []; content = bytes "hi"; tool_calls = []; usage = no_usage }

abbrev pub provider_of : Response → Provider ℕ
provider_of resp = record {
  complete = λ _ _ w. (ok resp.content, w);
  complete_with_tools = λ _ _ w. (ok resp, w);
  stream_with_tools = λ _ _ w. (([], ok resp), w);
  model = [];
  provider_name = [];
}

abbrev asker : Provider ℕ
asker = provider_of asking

abbrev pub answerer : Provider ℕ
answerer = provider_of answering

abbrev pub start : List Message
start = text_message (bytes "user") (bytes "go") ∷ []

abbrev pub result_of : Str → ToolResultContent
result_of id = record { tool_use_id = id; output = bytes "done"; is_error = false }

abbrev pub after_round : List Message
after_round =
    start
    ++ asked_message asking ∷ tool_message (result_of (bytes "1") ∷ result_of (bytes "2") ∷ []) ∷ []

pub runtime-IsComplete : IsComplete runtime
runtime-IsComplete w n i h = countdown-Mem n i h

registry-IsKeyed : IsKeyed registry
registry-IsKeyed =
    register-IsKeyed echo _
      (register-IsKeyed other _ (new_registry-IsKeyed (bytes "echo" ∷ bytes "last" ∷ [])))

-- A round with any provider that asks for the two calls.
one_round :
    (provider : Provider ℕ)
    → provider.complete_with_tools start (definitions registry) 0 ≡ (ok asking, 0)
    → iteration runtime provider registry config start 0 ≡ again after_round 2
unfolding iteration on_reply respond run_calls run_call execute_tool call_tool run_tool get hidden
    flag register new_registry filter_of truncate_result has_tool_calls lookup insert bytes ◌==◌
one_round provider e = rw e refl

pub first_round :
    (provider : Provider ℕ)
    → provider.complete_with_tools start (definitions registry) 0 ≡ (ok asking, 0)
    → Reached runtime provider registry config start 0 1 after_round 2
first_round provider e = next here (one_round provider e)

Reached-IsPaired_example : IsPaired [] after_round
Reached-IsPaired_example =
    Reached-IsPaired runtime asker registry config runtime-IsComplete (refl, refl)
      (first_round asker refl)

run_tool_loop_exhausted_example :
    run_tool_loop runtime asker registry config start 0
    ≡ (err (bytes "max iterations (" ++ (decimal 1 ++ bytes ") reached without final response")), 2)
run_tool_loop_exhausted_example =
    run_tool_loop_exhausted runtime asker registry config (first_round asker refl)

pub answers :
    (messages : List Message)
    → run_tool_loop runtime answerer registry config messages 7 ≡ (ok (bytes "hi"), 7)
unfolding run_tool_loop tool_loop follow iteration on_reply respond has_tool_calls
answers messages = refl

abbrev pub echo_definition : ToolDefinition
echo_definition = record { name = bytes "echo"; description = []; parameters = [] }

pub definitions_of_registry : definitions registry ≡ echo_definition ∷ []
unfolding definitions collect sort_definitions insert_definition hidden flag register new_registry
    filter_of lookup insert bytes ◌==◌
definitions_of_registry = refl

run_tool_loop-IsAnswered_example :
    IsAnswered runtime answerer registry config start 7 1 (bytes "hi") 7
run_tool_loop-IsAnswered_example =
    run_tool_loop-IsAnswered runtime answerer registry config start 7 7 (bytes "hi") (answers start)

abbrev echo_elsewhere : Tool ℕ
echo_elsewhere = record {
  name = bytes "rm";
  description = [];
  parameters = [];
  execute = λ _ w. (errorf [], w + 100);
}

rm_hidden : hidden registry (bytes "rm") ≡ true
unfolding hidden flag register new_registry filter_of lookup insert bytes ◌==◌
rm_hidden = refl

run_tool_loop-register-hidden_example :
    run_tool_loop runtime asker (register echo_elsewhere registry) config start 0
    ≡ run_tool_loop runtime asker registry config start 0
run_tool_loop-register-hidden_example =
    run_tool_loop-register-hidden runtime asker registry config echo_elsewhere start 0 rm_hidden

abbrev counting_hook : Hook ℕ
counting_hook = record {
  before_tool_call = λ _ _ w. ((true, []), w + 1);
  after_tool_call = λ _ _ _ w. w + 1;
}

abbrev alpha_call : ToolCall
alpha_call = record { id = bytes "3"; name = bytes "alpha"; args = [] }

alpha_hidden : get registry (bytes "alpha") ≡ none
unfolding get hidden flag register new_registry filter_of lookup insert bytes ◌==◌
alpha_hidden = refl
