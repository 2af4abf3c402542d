-- ===== src/Tools/Pairing.antt =====
-- loop.go, one round: its results answer its calls in order, whatever order the goroutines run in.
use mathlib.Core.List.{Memᴰ}
use native.Mathlib.Decide.{ℕ_discrete}
use docsclaw.Base.{
  ℕ, ◌<◌, Str, List, [], ◌∷◌, ◌++◌, map, ◌≡◌, ◌≢◌, refl, sym, ◌∙◌, arith, Option-cases, inl, inr,
  length, get_elem?, replicate, length-set, length-replicate, length-map, map-set, get_elem?-map,
  get_elem?_of_lt, get_elem?-set_self, get_elem?-set_ne, list_ext,
}
use docsclaw.Llm.{ToolCall, ToolResultContent, Message}
use docsclaw.Tools.{Registry, LoopConfig, empty_result, run_call, run_calls}

abbrev pub call_ids : List ToolCall → List Str
call_ids = map (λ c. c.id)

abbrev pub result_ids : List ToolResultContent → List Str
result_ids = map (λ c. c.tool_use_id)

-- Each message's results answer, one by one and in order, exactly the calls that the message before
-- it made; `open_calls` are the calls made before the first message, and none stay open at the end.
abbrev pub IsPaired : List Str → List Message → Type 0
IsPaired open_calls [] = open_calls ≡ []
IsPaired open_calls (m ∷ ms) =
    (result_ids m.tool_results ≡ open_calls) × IsPaired (call_ids m.tool_calls) ms

module _ {W : Type 0} (r : Registry W) (config : LoopConfig W) (calls : List ToolCall) where
  abbrev Filled : ℕ → List ToolResultContent → Type 0
  Filled i results = get_elem? (result_ids results) i ≡ get_elem? (call_ids calls) i

  length-run_call :
      (i : ℕ) (results : List ToolResultContent) (w : W)
      → length (run_call r config calls i results w).0 ≡ length results
  unfolding run_call
  length-run_call i results w = elim (Option-cases (get_elem? calls i)) [
    | inl e ↦ rw (e, run_call)
    | inr (tc, e) ↦ rw (e, run_call) (length-set results i _)
  ]

  run_call-Filled_self :
      (i : ℕ) (results : List ToolResultContent) (w : W)
      → length results ≡ length calls
      → i < length calls
      → Filled i (run_call r config calls i results w).0
  unfolding run_call
  run_call-Filled_self i results w l h =
      let (tc, e) = get_elem?_of_lt calls i h in
      rw (e, run_call)
        (rw map-set (
          get_elem?-set_self (result_ids results) i tc.id
            (omega (arith, length-map (λ (c : ToolResultContent). c.tool_use_id) results))
          ∙ sym (get_elem?-map (λ c. c.id) calls i tc e)))

  run_call-Filled_other :
      (i j : ℕ) (results : List ToolResultContent) (w : W)
      → i ≢ j
      → Filled j results
      → Filled j (run_call r config calls i results w).0
  unfolding run_call
  run_call-Filled_other i j results w ne h = elim (Option-cases (get_elem? calls i)) [
    | inl e ↦ rw (e, run_call) h
    | inr (tc, e) ↦
        rw (e, run_call) (rw map-set (get_elem?-set_ne (result_ids results) i j tc.id ne ∙ h))
  ]

  run_call-Filled :
      (i j : ℕ) (results : List ToolResultContent) (w : W)
      → length results ≡ length calls
      → j < length calls
      → Filled j results
      → Filled j (run_call r config calls i results w).0
  run_call-Filled i j results w l k h = elim (ℕ_discrete i j) [
    | yes e ↦ rw e (run_call-Filled_self j results w l k)
    | no ne ↦ run_call-Filled_other i j results w ne h
  ]

  length-run_calls :
      (order : List ℕ) (results : List ToolResultContent) (w : W)
      → length (run_calls r config calls order results w).0 ≡ length results
  unfolding run_calls
  length-run_calls [] results w = refl
  length-run_calls (i ∷ order) results w = length-run_calls order _ _ ∙ length-run_call i results w

  run_calls-Filled_kept :
      (order : List ℕ) (j : ℕ) (results : List ToolResultContent) (w : W)
      → length results ≡ length calls
      → j < length calls
      → Filled j results
      → Filled j (run_calls r config calls order results w).0
  unfolding run_calls
  run_calls-Filled_kept [] j results w l k h = h
  run_calls-Filled_kept (i ∷ order) j results w l k h =
      run_calls-Filled_kept order j _ _ (length-run_call i results w ∙ l) k
        (run_call-Filled i j results w l k h)

  run_calls-Filled :
      (order : List ℕ) (j : ℕ) (results : List ToolResultContent) (w : W)
      → length results ≡ length calls
      → j < length calls
      → Memᴰ j order
      → Filled j (run_calls r config calls order results w).0
  unfolding run_calls
  run_calls-Filled [] j results w l k m = elim m [ ]
  run_calls-Filled (i ∷ order) j results w l k (Memᴰ.head e) =
      run_calls-Filled_kept order j _ _ (length-run_call i results w ∙ l) k
        (rw e (run_call-Filled_self i results w l (rw (sym e) k)))
  run_calls-Filled (i ∷ order) j results w l k (Memᴰ.tail m) =
      run_calls-Filled order j _ _ (length-run_call i results w ∙ l) k m

  pub result_ids-run_calls :
      (order : List ℕ) (w : W)
      → ((i : ℕ) → i < length calls → Memᴰ i order)
      → result_ids (run_calls r config calls order (replicate (length calls) empty_result) w).0
        ≡ call_ids calls
  result_ids-run_calls order w all =
      let start : List ToolResultContent = replicate (length calls) empty_result in
      let size = length-run_calls order start w ∙ length-replicate (length calls) empty_result in
      let ids =
        length-map (λ (c : ToolResultContent). c.tool_use_id)
          (run_calls r config calls order start w).0 in
      list_ext _ _ (ids ∙ (size ∙ sym (length-map (λ (c : ToolCall). c.id) calls))) (λ i k.
        run_calls-Filled order i start w (length-replicate (length calls) empty_result)
          (omega (arith, ids, size)) (all i (omega (arith, ids, size))))

pub IsPaired-append :
    (ids : List Str) (ms : List Message) (asked answered : Message)
    → IsPaired ids ms
    → asked.tool_results ≡ []
    → result_ids answered.tool_results ≡ call_ids asked.tool_calls
    → answered.tool_calls ≡ []
    → IsPaired ids (ms ++ asked ∷ answered ∷ [])
IsPaired-append ids [] asked answered h a b c = (rw a (sym h), (b, rw c refl))
IsPaired-append ids (m ∷ ms) asked answered (e, h) a b c =
    (e, IsPaired-append (call_ids m.tool_calls) ms asked answered h a b c)
