-- ===== src/Bridge/Keys.antt =====
-- executor.go, sessionKey: which callers share a conversation.
use mathlib.Core.List.{append_assoc}
use docsclaw.Base.{
  Str, bytes, eq_iff, some, [], ◌∷◌, ◌++◌, ◌≡◌, ◌≢◌, refl, sym, ap, ap₂, ◌∙◌, arith, All,
}
use docsclaw.Auth.Verify.{Claims}
use docsclaw.Bridge.{session_key}

-- The text holds no "|".
abbrev pub HasNoBar : Str → Type 0
HasNoBar s = All (λ c. c ≢ b'|') s

bar-injective :
    (a b x y : Str) → HasNoBar a → HasNoBar b → a ++ b'|' ∷ x ≡ b ++ b'|' ∷ y → (a ≡ b) × (x ≡ y)
bar-injective [] [] x y h k e = (refl, cc)
bar-injective [] (d ∷ b) x y h (k, _) e = absurd (k (cc))
bar-injective (c ∷ a) [] x y (h, _) k e = absurd (h (cc))
bar-injective (c ∷ a) (d ∷ b) x y (_, h) (_, k) e =
    let (same, rest) = bar-injective a b x y h k (cc) in
    let head : c ≡ d = cc in (ap₂ (λ i l. i ∷ l) head same, rest)

session_key_of_claims :
    (c : Claims) (s : Str)
    → s ≢ []
    → session_key (some c) s ≡ c.subject ++ b'|' ∷ (c.azp ++ b'|' ∷ s)
unfolding session_key bytes
session_key_of_claims c s h = ground (arith, eq_iff s [])

-- Two verified callers whose subject and authorized party hold no "|" share a session only if they
-- are the same subject and the same party, and then only under one session id.
pub session_key-injective :
    (c d : Claims) (s t : Str)
    → HasNoBar c.subject
    → HasNoBar c.azp
    → HasNoBar d.subject
    → HasNoBar d.azp
    → s ≢ []
    → t ≢ []
    → session_key (some c) s ≡ session_key (some d) t
    → (c.subject ≡ d.subject) × (c.azp ≡ d.azp) × (s ≡ t)
session_key-injective c d s t cs ca ds da hs ht e =
    let e' = sym (session_key_of_claims c s hs) ∙ (e ∙ session_key_of_claims d t ht) in
    let (subject, rest) = bar-injective c.subject d.subject _ _ cs ds e' in
    let (azp, id) = bar-injective c.azp d.azp s t ca da rest in (subject, azp, id)

-- Where a party's name or a session id holds "|", two different verified callers share a session:
-- the party "b|c" with the session id d has the key of the party "b" with the session id "c|d".
session_key_collision :
    (c d : Claims) (rest t : Str)
    → c.subject ≡ d.subject
    → d.azp ≡ c.azp ++ b'|' ∷ rest
    → t ≢ []
    → session_key (some c) (rest ++ b'|' ∷ t) ≡ session_key (some d) t
session_key_collision c d rest t subject azp h =
    session_key_of_claims c (rest ++ b'|' ∷ t) (not_empty rest)
    ∙ (ap₂ (λ x y. x ++ b'|' ∷ y) subject
          (sym (append_assoc c.azp (b'|' ∷ rest) (b'|' ∷ t)) ∙ ap (λ x. x ++ b'|' ∷ t) (sym azp))
        ∙ sym (session_key_of_claims d t h))
  where
    not_empty : (rest : Str) → rest ++ b'|' ∷ t ≢ []
    not_empty [] e = cc
    not_empty (x ∷ rest) e = cc
