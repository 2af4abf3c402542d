-- ===== src/OpenAiApi/Tokens.antt =====
-- stream.go: the tokens and the chunks hold exactly the content.
use mathlib.Core.List.{append-nil, append_assoc}
use docsclaw.Base.{
  ℕ, zero, suc, ◌≤◌, Str, List, [], ◌∷◌, ◌++◌, map, Bool, true, false, not, ◌≡◌, ◌≢◌, refl, ap, sym,
  ◌∙◌, arith, length, concat, All, Bool-cases, inl, inr, none,
}
use docsclaw.OpenAiApi.{
  SseEvent, chunk, error_object, done_mark, is_space, same_kind, span_kind, tokenize_from, tokenize,
  chunk_of, stream_response,
}

span_kind-concat : (space : Bool) (s : Str) → (span_kind space s).0 ++ (span_kind space s).1 ≡ s
unfolding span_kind
span_kind-concat space [] = refl
span_kind-concat space (c ∷ s) = elim (Bool-cases (same_kind space c)) [
  | inl e ↦ rw e (ap (λ l. c ∷ l) (span_kind-concat space s))
  | inr e ↦ rw e
]

length-span_kind : (space : Bool) (s : Str) → length (span_kind space s).1 ≤ length s
unfolding span_kind
length-span_kind space [] = omega arith
length-span_kind space (c ∷ s) = elim (Bool-cases (same_kind space c)) [
  | inl e ↦ rw e (omega (arith, length-span_kind space s))
  | inr e ↦ rw e (omega arith)
]

tokenize_from-concat : (fuel : ℕ) (s : Str) → length s ≤ fuel → concat (tokenize_from fuel s) ≡ s
unfolding tokenize_from
tokenize_from-concat fuel [] h = refl
tokenize_from-concat zero (c ∷ s) h = absurd (omega arith)
tokenize_from-concat (suc fuel) (c ∷ s) h =
    let (run, rest) = span_kind (is_space c) s in
    let short = length-span_kind (is_space c) s in
    ap (λ l. c ∷ l)
      (ap (λ l. run ++ l) (tokenize_from-concat fuel rest (omega (arith, short)))
        ∙ span_kind-concat (is_space c) s)

-- Every byte of the token is of the one kind or of the other.
abbrev pub IsRun : Bool → Str → Type 0
IsRun space token = (token ≢ []) × All (λ c. is_space c ≡ space) token

-- The tokens alternate between the two kinds, beginning with `space`.
abbrev pub IsAlternating : Bool → List Str → Type 0
IsAlternating space [] = Unit
IsAlternating space (t ∷ ts) = IsRun space t × IsAlternating (not space) ts

same_kind-eq : (space : Bool) (c : ℕ) → same_kind space c ≡ true → is_space c ≡ space
unfolding same_kind
same_kind-eq true c h = h
same_kind-eq false c h = ground arith

other_kind-eq : (space : Bool) (c : ℕ) → same_kind space c ≡ false → is_space c ≡ not space
unfolding same_kind
other_kind-eq true c h = h
other_kind-eq false c h = ground arith

abbrev Heads : Bool → Str → Type 0
Heads space [] = Unit
Heads space (c ∷ s) = is_space c ≡ space

span_kind-runs :
    (space : Bool) (s : Str)
    → All (λ c. is_space c ≡ space) (span_kind space s).0 × Heads (not space) (span_kind space s).1
unfolding span_kind
span_kind-runs space [] = (tt, tt)
span_kind-runs space (c ∷ s) = elim (Bool-cases (same_kind space c)) [
  | inl e ↦ let (run, rest) = span_kind-runs space s in rw e ((same_kind-eq space c e, run), rest)
  | inr e ↦ rw e (tt, other_kind-eq space c e)
]

tokenize_from-IsAlternating :
    (fuel : ℕ) (space : Bool) (s : Str) → Heads space s → IsAlternating space (tokenize_from fuel s)
unfolding tokenize_from
tokenize_from-IsAlternating fuel space [] h = tt
tokenize_from-IsAlternating zero space (c ∷ s) h = tt
tokenize_from-IsAlternating (suc fuel) space (c ∷ s) h =
    let (run, rest) = span_kind-runs space s in
    rw h (
      (λ e. cc, (refl, run)),
      tokenize_from-IsAlternating fuel (not space) (span_kind space s).1 rest,
    )

first_kind : Str → Bool
first_kind [] = false
first_kind (c ∷ s) = is_space c

-- The tokens put together are the text, none is empty, and they alternate between runs of white
-- space and runs of other bytes, so each is as long as it can be.
pub tokenize_lem :
    (s : Str) → (concat (tokenize s) ≡ s) × (space : Bool) × IsAlternating space (tokenize s)
unfolding tokenize
tokenize_lem s = (
  tokenize_from-concat (length s) s (omega arith),
  first_kind s,
  tokenize_from-IsAlternating (length s) (first_kind s) s (starts s),
)
  where
    starts : (s : Str) → Heads (first_kind s) s
    starts [] = tt
    starts (c ∷ s) = unfold first_kind in refl

-- The text that a client puts together from the events of a stream.
pub delivered : List SseEvent → Str
delivered [] = []
delivered (chunk c ∷ es) = c.delta.content ++ delivered es
delivered (error_object m ∷ es) = delivered es
delivered (done_mark ∷ es) = delivered es

module _ (now : ℕ) (id model : Str) where
  delivered-chunks :
      (tokens : List Str) (end : List SseEvent)
      → delivered (map (λ token. chunk_of now id model [] token none) tokens ++ end)
        ≡ concat tokens ++ delivered end
  unfolding delivered chunk_of
  delivered-chunks [] end = refl
  delivered-chunks (t ∷ tokens) end =
      ap (λ l. t ++ l) (delivered-chunks tokens end) ∙ sym (append_assoc t (concat tokens) _)

  -- A simulated stream delivers exactly the content, however it is cut into tokens.
  pub delivered-stream_response :
      (content : Str) → delivered (stream_response now id model content) ≡ content
  unfolding stream_response delivered
  delivered-stream_response content =
      delivered-chunks (tokenize content) _ ∙ (rw append-nil ((tokenize_lem content).0))
