-- ===== src/Auth/Middleware.antt =====
-- middleware.go: what happens to a request before the agent's handler sees it.
pub mod Guarded
pub mod Examples
use docsclaw.Base.{
  ℕ, Str, bytes, ◌==◌, Option, none, some, List, [], ◌∷◌, Bool, true, false, ◌||◌, not, ◌&&◌, eqb,
  any, if◌then◌else◌, Result, ok, err, ◌>>=◌, ◌>>◌,
}
use docsclaw.Text.{trim_space, cut, equal_fold, clean}
use docsclaw.Auth.Policy.{
  Config, AuthError, Url, with_defaults, validate, err_missing_token, err_malformed_authorization,
}
use docsclaw.Auth.Keys.{KeyError}
use docsclaw.Auth.Verify.{Claims, Codec, verify_token}

-- The headers of a request under their canonical names, in the order received.
pub record HttpRequest : Type 0 where
  pub path : Str
  pub headers : List (Str × Str)

-- A denial is written and the next handler is not called; else it gets a request and, if the
-- request was verified, its claims.
pub data Handled : Type 0 where
  denied : AuthError → Handled
  passed_on : HttpRequest → Option Claims → Handled

-- http.Header.Values
pub header_values : Str → List (Str × Str) → List Str
header_values name [] = []
header_values name ((n, v) ∷ headers) =
    let rest = header_values name headers in if n == name then v ∷ rest else rest

-- http.Header.Del
pub delete_header : Str → List (Str × Str) → List (Str × Str)
delete_header name [] = []
delete_header name ((n, v) ∷ headers) =
    let rest = delete_header name headers in if n == name then rest else (n, v) ∷ rest

listed : Str → List Str → Bool
listed path [] = false
listed path (entry ∷ exempt) = entry == path || listed path exempt

unfoldable pub is_exempt : Str → List Str → Bool
unfolding listed
is_exempt request_path exempt = listed (clean request_path) exempt

-- a token holds no space and no tab
no_blank : Str → Bool
no_blank token = not (any (λ c. eqb c 32 || eqb c 9) token)

pub parse_bearer : Str → Option Str
unfolding no_blank
parse_bearer value = elim (cut 32 (trim_space value)) [
  | none ↦ none
  | some p ↦
      let token = trim_space p.1 in
      if not (equal_fold p.0 (bytes "bearer"))
      then none
      else if token == [] || not (no_blank token)
      then none
      else some token
]

abbrev pub authorization : Str
authorization = bytes "Authorization"

unfoldable pub without_authorization : HttpRequest → HttpRequest
unfolding delete_header
without_authorization r = record r { headers = delete_header authorization r.headers }

after_check : HttpRequest → Result AuthError Claims → Handled
after_check r (err e) = denied e
after_check r (ok claims) = passed_on (without_authorization r) (some claims)

module _ {Key : Type 0} (codec : Codec Key) where
  -- behind the count of the header's values
  handle_bearer : Config → ℕ → (Str → Result KeyError Key) → HttpRequest → Option Str → Handled
  handle_bearer cfg now source r none = denied err_malformed_authorization
  handle_bearer cfg now source r (some token) =
      after_check r (verify_token codec cfg now source token)

  handle_values : Config → ℕ → (Str → Result KeyError Key) → HttpRequest → List Str → Handled
  unfolding handle_bearer after_check
  handle_values cfg now source r [] = denied err_missing_token
  handle_values cfg now source r (value ∷ []) = handle_bearer cfg now source r (parse_bearer value)
  handle_values cfg now source r (_ ∷ _ ∷ _) = denied err_malformed_authorization

  -- the handler that `Middleware` returns
  unfoldable pub handle : Config → ℕ → (Str → Result KeyError Key) → HttpRequest → Handled
  unfolding handle_values without_authorization
  handle cfg now source r =
      if is_exempt r.path cfg.exempt_paths
      then passed_on (without_authorization r) none
      else handle_values cfg now source r (header_values authorization r.headers)

  -- `Middleware` itself: the handler for a configuration that is valid with its defaults.
  unfoldable pub middleware :
      (Str → Option Url)
      → Config
      → Result Str (ℕ → (Str → Result KeyError Key) → HttpRequest → Handled)
  middleware parse cfg = do validate parse (with_defaults cfg); ok (handle (with_defaults cfg))
