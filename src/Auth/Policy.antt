-- ===== src/Auth/Policy.antt =====
-- config.go, errors.go, and the scope and caller checks of verify.go.
pub mod Callers
pub mod Examples
use docsclaw.Base.{
  ℕ, String, Str, bytes, ◌==◌, has_prefix, has_suffix, join, Option, none, some, List, [], ◌∷◌,
  ◌++◌, Bool, true, false, not, ◌&&◌, ◌||◌, eqb, if◌then◌else◌, Result, ok, err, ◌>>=◌, ◌>>◌,
  fail_if, or_fail,
}

-- Durations and instants are in nanoseconds, and not negative. The HTTP client and the logger are
-- left out: they default to the process's own.
pub record Config : Type 0 where
  pub issuer : Str
  pub jwks_url : Str
  pub audience : Str
  pub required_scopes : List Str
  pub allowed_callers : List Str
  pub clock_skew : ℕ
  pub exempt_paths : List Str
  pub min_refresh_interval : ℕ

unfoldable pub with_defaults : Config → Config
with_defaults c = record c {
  clock_skew = if eqb c.clock_skew 0 then 30_000_000_000 else c.clock_skew;
  min_refresh_interval =
      if eqb c.min_refresh_interval 0 then 60_000_000_000 else c.min_refresh_interval;
}

-- The parts of a url.URL that `validate` reads.
pub record Url : Type 0 where
  pub scheme : Str
  pub host : Str

abbrev is_http : Url → Bool
is_http u = (u.scheme == bytes "http" || u.scheme == bytes "https") && not (u.host == [])

-- `parse` is url.Parse; the error is its text.
unfoldable pub validate : (Str → Option Url) → Config → Result Str (Unit {0})
validate parse c = do
  fail_if (c.issuer == []) (bytes "inboundauth: issuer is required")
  fail_if (c.jwks_url == []) (bytes "inboundauth: jwks_url is required")
  u ←
      or_fail (parse c.jwks_url)
        (bytes "inboundauth: jwks_url must be an absolute http or https URL")
  fail_if (not (is_http u)) (bytes "inboundauth: jwks_url must be an absolute http or https URL")
  fail_if (c.audience == []) (bytes "inboundauth: audience is required")

pub record AuthError : Type 0 where
  pub status : ℕ
  pub code : Str
  pub desc : Str
  pub scopes : List Str

abbrev denial : ℕ → String → String → AuthError
denial status code desc = record {
  status = status;
  code = bytes code;
  desc = bytes desc;
  scopes = [];
}

abbrev pub err_missing_token : AuthError
err_missing_token = denial 401 "missing_token" "an Authorization header is required"

abbrev pub err_malformed_authorization : AuthError
err_malformed_authorization =
    denial 401 "malformed_authorization" "Authorization must be exactly one Bearer token"

abbrev pub err_unsupported_algorithm : AuthError
err_unsupported_algorithm =
    denial 401 "unsupported_algorithm" "token algorithm must be ES256 or RS256"

abbrev pub err_invalid_token : AuthError
err_invalid_token = denial 401 "invalid_token" "token is not valid"

abbrev pub err_token_expired : AuthError
err_token_expired = denial 401 "token_expired" "token has expired"

abbrev pub err_token_not_yet_valid : AuthError
err_token_not_yet_valid = denial 401 "token_not_yet_valid" "token is not valid yet"

abbrev pub err_invalid_issuer : AuthError
err_invalid_issuer = denial 401 "invalid_issuer" "token issuer is not accepted"

abbrev pub err_invalid_audience : AuthError
err_invalid_audience = denial 403 "invalid_audience" "token audience is not accepted"

abbrev pub err_caller_not_allowed : AuthError
err_caller_not_allowed = denial 403 "caller_not_allowed" "caller is not allowed"

abbrev pub err_jwks_unavailable : AuthError
err_jwks_unavailable = denial 503 "jwks_unavailable" "issuer keys are unavailable"

-- The denial that `verifyToken` makes where a required scope is missing.
abbrev pub err_insufficient_scope : List Str → AuthError
err_insufficient_scope scopes = record {
  status = 403;
  code = bytes "insufficient_scope";
  desc = bytes "token is missing a required scope";
  scopes = scopes;
}

-- What `write` sends. The JSON encoder is a parameter there.
pub record HttpResponse : Type 0 where
  pub status : ℕ
  pub headers : List (Str × Str)
  pub body : Str

module _ (encode : Str → Str → Str) where
  pub write : AuthError → HttpResponse
  unfolding join
  write e = record {
    status = e.status;
    headers =
        (if eqb e.status 401
          then (
            bytes "WWW-Authenticate",
            bytes "Bearer realm=\"docsclaw\", error=\"" ++ (e.code ++ bytes "\""),
          )
            ∷ []
          else if e.code == bytes "insufficient_scope"
          then (
            bytes "WWW-Authenticate",
            bytes "Bearer realm=\"docsclaw\", error=\"insufficient_scope\", scope=\""
                ++ (join (bytes " ") e.scopes ++ bytes "\""),
          )
            ∷ []
          else [])
        ++ (bytes "Content-Type", bytes "application/json") ∷ [];
    body = encode e.code e.desc;
  }

unfoldable pub contains_string : List Str → Str → Bool
contains_string [] needle = false
contains_string (s ∷ haystack) needle = s == needle || contains_string haystack needle

unfoldable pub contains_any : List Str → List Str → Bool
unfolding contains_string
contains_any haystack [] = false
contains_any haystack (n ∷ needles) = contains_string haystack n || contains_any haystack needles

-- one entry of the loop of `callerAllowed`
pub entry_allows : Str → Str → Bool
entry_allows caller entry =
    if has_suffix entry (bytes "/") then has_prefix caller entry else caller == entry

some_entry_allows : Str → List Str → Bool
some_entry_allows caller [] = false
some_entry_allows caller (entry ∷ allowed) =
    entry_allows caller entry || some_entry_allows caller allowed

unfoldable pub caller_allowed : Str → List Str → Bool
unfolding some_entry_allows entry_allows
caller_allowed caller allowed = if caller == [] then false else some_entry_allows caller allowed
