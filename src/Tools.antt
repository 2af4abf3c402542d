-- ===== src/Tools.antt =====
-- pkg/tools: the tool registry (registry.go), one tool call and the agentic loop (loop.go).
-- `W` is all that lies outside the process: files, the network, the provider, the clock.
pub mod Names
pub mod Sorted
pub mod Visible
pub mod Pairing
pub mod Rounds
pub mod Shapes
pub mod Allowed
pub mod Entries
pub mod Examples
use docsclaw.Base.{
  ℕ, zero, suc, ◌+◌, ◌<◌, Str, bytes, ◌==◌, decimal, Map, lookup, insert, Option, none, some, List,
  [], ◌∷◌, ◌++◌, Bool, true, false, not, ◌&&◌, ◌||◌, Result, ok, err, eqb, ltb, leb, length, take,
  set, get_elem?, replicate, or_else, if◌then◌else◌,
}
use docsclaw.Json.{Json}
use docsclaw.Llm.{
  ToolDefinition, ToolCall, ToolResultContent, Message, Response, Provider, has_tool_calls,
}
use docsclaw.Utf8.{to_valid}

pub record ToolResult : Type 0 where
  pub output : Str
  pub error : Bool

abbrev pub errorf : Str → ToolResult
errorf message = record { output = message; error = true }

-- The interface `Tool`; the methods that describe it are constants.
pub record Tool (W : Type 0) : Type 0 where
  pub name : Str
  pub description : Str
  pub parameters : Map Json
  pub execute : Map Json → W → ToolResult × W

-- The interface `Hook`.
pub record Hook (W : Type 0) : Type 0 where
  pub before_tool_call : Str → Map Json → W → (Bool × Str) × W
  pub after_tool_call : Str → Map Json → ToolResult → W → W

-- `allowed_filter` is `none` where the source's map is nil.
pub record Registry (W : Type 0) : Type 0 where
  pub tools : Map (Tool W)
  pub always_allowed : Map Bool
  pub allowed_filter : Option (Map Bool)

-- A negative limit acts as 0 in both places, so both are natural numbers.
pub record LoopConfig (W : Type 0) : Type 0 where
  pub max_iterations : ℕ
  pub max_result_bytes : ℕ
  pub hook : Option (Hook W)

abbrev pub default_loop_config : {W : Type 0} → LoopConfig W
default_loop_config = record { max_iterations = 10; max_result_bytes = 32768; hook = none }

-- `m[name]` of a `map[string]bool`
pub flag : Str → Map Bool → Bool
flag name m = or_else (lookup name m) false

filter_of : List Str → Map Bool
filter_of [] = []
filter_of (name ∷ names) = insert name true (filter_of names)

-- The bytes of two names compared as Go's `<` does.
pub str_lt : Str → Str → Bool
str_lt s [] = false
str_lt [] (b ∷ t) = true
str_lt (a ∷ s) (b ∷ t) = ltb a b || (eqb a b && str_lt s t)

pub insert_definition : ToolDefinition → List ToolDefinition → List ToolDefinition
insert_definition d [] = d ∷ []
insert_definition d (e ∷ ds) =
    if str_lt e.name d.name then e ∷ insert_definition d ds else d ∷ e ∷ ds

-- sort.Slice by name
pub sort_definitions : List ToolDefinition → List ToolDefinition
sort_definitions [] = []
sort_definitions (d ∷ ds) = insert_definition d (sort_definitions ds)

module _ {W : Type 0} where
  unfoldable pub new_registry : List Str → Registry W
  unfolding filter_of
  new_registry [] = record { tools = []; always_allowed = []; allowed_filter = none }
  new_registry names = record {
    tools = [];
    always_allowed = [];
    allowed_filter = some (filter_of names);
  }

  unfoldable pub register : Tool W → Registry W → Registry W
  register t r = record r { tools = insert t.name t r.tools }

  unfoldable pub register_always_allowed : Tool W → Registry W → Registry W
  register_always_allowed t r = record r {
    tools = insert t.name t r.tools;
    always_allowed = insert t.name true r.always_allowed;
  }

  -- `r.allowedFilter != nil && !r.allowedFilter[name] && !r.alwaysAllowed[name]`
  unfoldable pub hidden : Registry W → Str → Bool
  unfolding flag
  hidden r name = elim (r.allowed_filter) [
    | none ↦ false
    | some names ↦ not (flag name names) && not (flag name r.always_allowed)
  ]

  unfoldable pub get : Registry W → Str → Option (Tool W)
  get r name = elim (lookup name r.tools) [
    | none ↦ none
    | some t ↦ if hidden r name then none else some t
  ]

  abbrev definition_of : Tool W → ToolDefinition
  definition_of t = record { name = t.name; description = t.description; parameters = t.parameters }

  -- the loop of `Definitions` over the map
  pub collect : (Str → Bool) → Map (Tool W) → List ToolDefinition
  collect hide [] = []
  collect hide ((name, t) ∷ m) =
      let rest = collect hide m in if hide name then rest else definition_of t ∷ rest

  pub definitions : Registry W → List ToolDefinition
  definitions r = sort_definitions (collect (hidden r) r.tools)

-- The notice behind a cut output.
truncation_notice : ℕ → ℕ → Str
truncation_notice kept total =
    10 ∷ 10 ∷ bytes "[Truncated: showing first "
    ++ (decimal kept ++ (bytes " bytes of " ++ (decimal total ++ bytes " total]")))

pub truncate_result : Str → ℕ → Str
truncate_result s max_bytes =
    let truncated = to_valid (take max_bytes s) in
    if eqb max_bytes 0 || leb (length s) max_bytes
    then s
    else truncated ++ truncation_notice (length truncated) (length s)

abbrev pub empty_result : ToolResultContent
empty_result = record { tool_use_id = []; output = []; is_error = false }

abbrev asked_message : Response → Message
asked_message resp = record {
  role = bytes "assistant";
  content = resp.content;
  tool_calls = resp.tool_calls;
  tool_results = [];
}

abbrev tool_message : List ToolResultContent → Message
tool_message results = record {
  role = bytes "tool";
  content = [];
  tool_calls = [];
  tool_results = results;
}

-- What the Go runtime decides: the order in which the goroutines of one round run, each taken as
-- one step, and the state of the context.
pub record Runtime (W : Type 0) : Type 0 where
  pub schedule : W → ℕ → List ℕ
  pub ctx_err : W → Option Str

pub data Turn (W : Type 0) : Type 0 where
  stop : Result Str Str → W → Turn W
  again : List Message → W → Turn W

module _ {W : Type 0} where
  -- leave the loop, or go on with the next round
  follow : Turn W → (List Message → W → Result Str Str × W) → Result Str Str × W
  follow (stop result w) next = (result, w)
  follow (again messages w) next = next messages w

  pub run_tool : Option (Hook W) → ToolCall → Tool W → W → ToolResult × W
  run_tool none tc t w = t.execute tc.args w
  run_tool (some h) tc t w =
      let (result, w') = t.execute tc.args w in
      (result, h.after_tool_call tc.name tc.args result w')

  pub call_tool : Registry W → Option (Hook W) → ToolCall → W → ToolResult × W
  unfolding run_tool
  call_tool r hook tc w = elim (get r tc.name) [
    | none ↦ (errorf (bytes "Unknown tool: " ++ tc.name), w)
    | some t ↦ run_tool hook tc t w
  ]

  pub execute_tool : Registry W → Option (Hook W) → ToolCall → W → ToolResult × W
  execute_tool r none tc w = call_tool r none tc w
  execute_tool r (some h) tc w =
      let (verdict, w') = h.before_tool_call tc.name tc.args w in
      if verdict.0
      then call_tool r (some h) tc w'
      else (errorf (bytes "Tool call denied: " ++ verdict.1), w')

  module _ (r : Registry W) (config : LoopConfig W) (calls : List ToolCall) where
    -- the body of the goroutine with index `i`
    pub run_call : ℕ → List ToolResultContent → W → List ToolResultContent × W
    run_call i results w = elim (get_elem? calls i) [
      | none ↦ (results, w)
      | some tc ↦
          let (result, w') = execute_tool r config.hook tc w in
          (
            set results i (record {
              tool_use_id = tc.id;
              output = truncate_result result.output config.max_result_bytes;
              is_error = result.error;
            }),
            w',
          )
    ]

    pub run_calls : List ℕ → List ToolResultContent → W → List ToolResultContent × W
    run_calls [] results w = (results, w)
    run_calls (i ∷ order) results w =
        let (results', w') = run_call i results w in run_calls order results' w'

  module _ (rt : Runtime W) (provider : Provider W) (r : Registry W) (config : LoopConfig W) where
    -- the rest of a round once the provider has answered
    pub respond : List Message → Response → W → Turn W
    respond messages resp w =
        let calls = resp.tool_calls in
        let (results, w') =
          run_calls r config calls (rt.schedule w (length calls))
            (replicate (length calls) empty_result) w in
        if has_tool_calls resp
        then (elim (rt.ctx_err w') [
          | some e ↦ stop (err e) w'
          | none ↦ again (messages ++ asked_message resp ∷ tool_message results ∷ []) w'
        ])
        else stop (ok resp.content) w

    on_reply : List Message → Result Str Response → W → Turn W
    on_reply messages (err e) w = stop (err (bytes "LLM call failed: " ++ e)) w
    on_reply messages (ok resp) w = respond messages resp w

    -- one round of the loop
    pub iteration : List Message → W → Turn W
    iteration messages w =
        let (reply, w') = provider.complete_with_tools messages (definitions r) w in
        on_reply messages reply w'

    -- the loop with `rounds` rounds left
    tool_loop : ℕ → List Message → W → Result Str Str × W
    tool_loop zero messages w = (
      err (
          bytes "max iterations ("
          ++ (decimal config.max_iterations ++ bytes ") reached without final response")),
      w,
    )
    tool_loop (suc rounds) messages w = follow (iteration messages w) (tool_loop rounds)

    pub run_tool_loop : List Message → W → Result Str Str × W
    unfolding tool_loop follow
    run_tool_loop messages w = tool_loop config.max_iterations messages w
