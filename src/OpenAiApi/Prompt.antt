-- ===== src/OpenAiApi/Prompt.antt =====
-- types.go, ConvertMessages: what a client can do to the system prompt.
use mathlib.Core.List.{append-nil, append_assoc}
use docsclaw.Base.{
  Str, bytes, ◌==◌, eq_iff, List, [], ◌∷◌, ◌++◌, map, ◌≡◌, ◌≢◌, sym, ◌∙◌, concat, All, Bool-cases,
  inl, inr,
}
use docsclaw.OpenAiApi.{ChatMessage, client_system, converted, appended, convert_messages}

converted-roles : (ms : List ChatMessage) → All (λ m. m.role ≢ bytes "system") (converted ms)
unfolding converted
converted-roles [] = tt
converted-roles (m ∷ ms) = elim (Bool-cases (m.role == bytes "system")) [
  | inl e ↦ rw e (converted-roles ms)
  | inr e ↦
      rw e (λ same. absurd (cc (e, (eq_iff m.role (bytes "system")).1 same)), converted-roles ms)
]

abbrev pub spaced : Str → Str
spaced c = 10 ∷ 10 ∷ c

appended-eq : (prompt : Str) (cs : List Str) → appended prompt cs ≡ prompt ++ concat (map spaced cs)
unfolding appended
appended-eq prompt [] = sym (append-nil prompt)
appended-eq prompt (c ∷ cs) =
    appended-eq (prompt ++ spaced c) cs ∙ append_assoc prompt (spaced c) (concat (map spaced cs))

-- Whatever messages a client sends, none of those passed on has the role "system", and the system
-- prompt begins with the server's own, behind which stand the client's system texts in their order,
-- each behind an empty line.
convert_messages_lem :
    (msgs : List ChatMessage) (server_prompt : Str)
    → All (λ m. m.role ≢ bytes "system") (convert_messages msgs server_prompt).0
      × ((convert_messages msgs server_prompt).1
          ≡ server_prompt ++ concat (map spaced (client_system msgs)))
unfolding convert_messages
convert_messages_lem msgs server_prompt =
    (converted-roles msgs, appended-eq server_prompt (client_system msgs))
