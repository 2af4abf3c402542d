-- ===== src/Auth/Middleware/Guarded.antt =====
-- middleware.go: the handler behind it is reached only by verified or exempt requests.
use mathlib.Core.List.{Memᴰ}
use docsclaw.Base.{
  ℕ, Str, ◌==◌, eq_iff, Option, none, some, List, [], ◌∷◌, true, ◌≡◌, inl, inr, refl, sym, ap,
  subst, arith, Bool-cases, Result, ok, err,
}
use docsclaw.Text.{clean}
use docsclaw.Auth.Policy.{Config, AuthError}
use docsclaw.Auth.Keys.{KeyError}
use docsclaw.Auth.Verify.{Claims, Codec, verify_token}
use docsclaw.Auth.Middleware.{
  HttpRequest, passed_on, header_values, delete_header, listed, is_exempt, parse_bearer,
  authorization, without_authorization, after_check, handle_bearer, handle_values, handle,
}

header_values-delete_header :
    (name : Str) (headers : List (Str × Str)) → header_values name (delete_header name headers) ≡ []
unfolding header_values delete_header
header_values-delete_header name [] = refl
header_values-delete_header name ((n, v) ∷ headers) =
    ground (arith, header_values-delete_header name headers)

listed_iff : (path : Str) (exempt : List Str) → listed path exempt ≡ true → Memᴰ path exempt
unfolding listed
listed_iff path [] h = absurd (cc)
listed_iff path (entry ∷ exempt) h = elim (Bool-cases (entry == path)) [
  | inl e ↦ Memᴰ.head (sym ((eq_iff entry path).0 e))
  | inr e ↦ Memᴰ.tail (listed_iff path exempt (ground arith))
]

module _ {Key : Type 0} (codec : Codec Key) (cfg : Config) (now : ℕ) where
  module _ (source : Str → Result KeyError Key) (r : HttpRequest) where
    -- How a request may reach the next handler: without claims, if its cleaned path is one of the
    -- exempt ones; or with claims, if its single Authorization header holds a bearer token that is
    -- accepted with exactly these claims.
    pub data Admitted : Option Claims → Type 0 where
      exempt : Memᴰ (clean r.path) cfg.exempt_paths → Admitted none
      verified :
          {claims : Claims} (value token : Str)
          → header_values authorization r.headers ≡ value ∷ []
          → parse_bearer value ≡ some token
          → verify_token codec cfg now source token ≡ ok claims
          → Admitted (some claims)

    after_check-Admitted :
        (value token : Str) (checked : Result AuthError Claims) (sent : HttpRequest)
        (claims : Option Claims)
        → header_values authorization r.headers ≡ value ∷ []
        → parse_bearer value ≡ some token
        → verify_token codec cfg now source token ≡ checked
        → after_check r checked ≡ passed_on sent claims
        → Admitted claims × (without_authorization r ≡ sent)
    unfolding after_check
    after_check-Admitted value token (err e) sent claims v p c h = absurd (cc)
    after_check-Admitted value token (ok cl) sent claims v p c h =
        let same : some cl ≡ claims = ground arith in
        (subst Admitted same (verified value token v p c), ground arith)

    handle_bearer-Admitted :
        (value : Str) (parsed : Option Str) (sent : HttpRequest) (claims : Option Claims)
        → header_values authorization r.headers ≡ value ∷ []
        → parse_bearer value ≡ parsed
        → handle_bearer codec cfg now source r parsed ≡ passed_on sent claims
        → Admitted claims × (without_authorization r ≡ sent)
    unfolding handle_bearer
    handle_bearer-Admitted value none sent claims v p h = absurd (cc)
    handle_bearer-Admitted value (some token) sent claims v p h =
        after_check-Admitted value token _ sent claims v p refl h

    handle_values-Admitted :
        (values : List Str) (sent : HttpRequest) (claims : Option Claims)
        → header_values authorization r.headers ≡ values
        → handle_values codec cfg now source r values ≡ passed_on sent claims
        → Admitted claims × (without_authorization r ≡ sent)
    unfolding handle_values
    handle_values-Admitted [] sent claims v h = absurd (cc)
    handle_values-Admitted (value ∷ []) sent claims v h =
        handle_bearer-Admitted value _ sent claims v refl h
    handle_values-Admitted (_ ∷ _ ∷ _) sent claims v h = absurd (cc)

    handle-sent :
        (sent : HttpRequest) (claims : Option Claims)
        → handle codec cfg now source r ≡ passed_on sent claims
        → Admitted claims × (without_authorization r ≡ sent)
    unfolding handle is_exempt
    handle-sent sent claims h = elim (Bool-cases (listed (clean r.path) cfg.exempt_paths)) [
      | inl e ↦
          let same : ◌≡◌ {A = Option Claims} none claims = ground arith in
          (subst Admitted same (exempt (listed_iff _ _ e)), ground arith)
      | inr e ↦ handle_values-Admitted _ sent claims refl (ground arith)
    ]

    -- A request that reaches the next handler was admitted, and goes on with its path and without
    -- any Authorization header, whatever the policy, the keys and the token.
    pub handle-Admitted :
        (sent : HttpRequest) (claims : Option Claims)
        → handle codec cfg now source r ≡ passed_on sent claims
        → Admitted claims × (sent.path ≡ r.path) × (header_values authorization sent.headers ≡ [])
    unfolding without_authorization
    handle-Admitted sent claims h =
        let (admitted, same) = handle-sent sent claims h in
        (
          admitted,
          ap (λ (q : HttpRequest). q.path) (sym same),
          rw (sym same) (header_values-delete_header authorization r.headers),
        )
