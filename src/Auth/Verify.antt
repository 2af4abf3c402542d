-- ===== src/Auth/Verify.antt =====
-- verify.go: the checks of one token.
pub mod Accepts
pub mod Tokens
pub mod Examples
use docsclaw.Base.{
  ℕ, ◌+◌, Str, bytes, ◌==◌, Map, lookup, or_else, Option, none, some, List, [], ◌∷◌, ◌++◌, Bool,
  true, false, not, ◌&&◌, ◌||◌, ltb, if◌then◌else◌, Result, ok, err, ◌>>=◌, ◌>>◌, fail_if, or_fail,
  length, eqb, is_some,
}
use docsclaw.Json.{Json, as_str, str}
use docsclaw.Text.{split, fields}
use docsclaw.Auth.Policy.{
  Config, AuthError, err_invalid_token, err_unsupported_algorithm, err_token_expired,
  err_token_not_yet_valid, err_invalid_issuer, err_invalid_audience, err_insufficient_scope,
  err_caller_not_allowed, err_jwks_unavailable, contains_string, contains_any, caller_allowed,
}
use docsclaw.Auth.Keys.{KeyError, fetch_failed, key_unknown}

pub record Claims : Type 0 where
  pub subject : Str
  pub issuer : Str
  pub audience : List Str
  pub azp : Str
  pub scopes : List Str
  pub expiry : ℕ
  pub raw : Map Json

-- What the code reads of a jwt.Token. `get_string`, `get_strings` and `get_values` are `Get` into
-- a string, a `[]string` and an `[]any`, `none` where it gives an error.
pub record Token : Type 0 where
  pub expiration : Option ℕ
  pub not_before : Option ℕ
  pub issued_at : Option ℕ
  pub issuer : Option Str
  pub audience : Option (List Str)
  pub get_string : Str → Option Str
  pub get_strings : Str → Option (List Str)
  pub get_values : Str → Option (List Json)

pub data KeyAlgorithm : Type 0 where
  rs256 es256 : KeyAlgorithm

-- The code that is called: the base64 decoder of package encoding/base64, json.Unmarshal into a
-- map, and jwt.Parse with a key, which checks the signature and nothing else.
pub record Codec (Key : Type 0) : Type 0 where
  pub decode_base64 : Str → Option Str
  pub unmarshal : Str → Option (Map Json)
  pub parse_token : KeyAlgorithm → Key → Str → Option Token

pub key_algorithm : Str → KeyAlgorithm
key_algorithm alg = if alg == bytes "RS256" then rs256 else es256

-- `v, _ := claims[name].(string)`
pub claims_string : Map Json → Str → Str
claims_string claims name = or_else (as_str (lookup name claims)) []

only_strings : List Json → List Str
only_strings [] = []
only_strings (str s ∷ values) = s ∷ only_strings values
only_strings (v ∷ values) = only_strings values

scope_fields : Option Str → List Str
scope_fields none = []
scope_fields (some s) = fields s

-- the three forms of "scp", tried in turn
scp_scopes : Token → List Str
unfolding only_strings
scp_scopes tok = elim (tok.get_string (bytes "scp")) [
  | some s ↦ fields s
  | none ↦ elim (tok.get_strings (bytes "scp")) [
    | some list ↦ list
    | none ↦ elim (tok.get_values (bytes "scp")) [ some values ↦ only_strings values | none ↦ [] ]
  ]
]

pub token_scopes : Token → List Str
unfolding scope_fields scp_scopes
token_scopes tok = scope_fields (tok.get_string (bytes "scope")) ++ scp_scopes tok

pub token_caller : Token → Str
token_caller tok =
    let azp = or_else (tok.get_string (bytes "azp")) [] in
    if azp == [] then or_else (tok.get_string (bytes "client_id")) [] else azp

-- `t, ok := …; ok && t.After(limit)`
abbrev after : Option ℕ → ℕ → Bool
after none limit = false
after (some t) limit = ltb limit t

module _ (cfg : Config) (now : ℕ) where
  -- the time checks; the result is the expiry
  pub check_time : Token → Result AuthError ℕ
  check_time tok = do
    exp ← or_fail tok.expiration err_invalid_token
    fail_if (ltb (exp + cfg.clock_skew) now) err_token_expired
    fail_if (after tok.not_before (now + cfg.clock_skew)) err_token_not_yet_valid
    fail_if (after tok.issued_at (now + cfg.clock_skew)) err_token_not_yet_valid
    ok exp

abbrev is_nonempty : List Str → Bool
is_nonempty [] = false
is_nonempty (_ ∷ _) = true

module _ (cfg : Config) where
  -- issuer, audience, scope and caller
  pub check_policy : Token → Result AuthError (Unit {0})
  check_policy tok = do
    fail_if (not (or_else tok.issuer [] == cfg.issuer)) err_invalid_issuer
    fail_if (not (contains_string (or_else tok.audience []) cfg.audience)) err_invalid_audience
    fail_if
        (is_nonempty cfg.required_scopes
          && not (contains_any (token_scopes tok) cfg.required_scopes))
        (err_insufficient_scope cfg.required_scopes)
    fail_if
        (is_nonempty cfg.allowed_callers
          && not (caller_allowed (token_caller tok) cfg.allowed_callers))
        err_caller_not_allowed

key_denial : KeyError → AuthError
key_denial fetch_failed = err_jwks_unavailable
key_denial key_unknown = err_invalid_token

from_key_source : {Key : Type 0} → Result KeyError Key → Result AuthError Key
unfolding key_denial
from_key_source (ok key) = ok key
from_key_source (err e) = err (key_denial e)

-- `len(parts) != 3`
pub three : List Str → Option (Str × Str)
three (header ∷ payload ∷ signature ∷ []) = some (header, payload)
three _ = none

-- The checks on the header; the result is the algorithm and the key id.
check_header : Map Json → Result AuthError (Str × Str)
check_header header =
    let alg = claims_string header (bytes "alg") in
    let kid = claims_string header (bytes "kid") in
    do
      fail_if (not (alg == bytes "ES256") && not (alg == bytes "RS256")) err_unsupported_algorithm
      fail_if (kid == []) err_invalid_token
      ok (alg, kid)

module _ {Key : Type 0} (codec : Codec Key) where
  pub decode_segment : Str → Option (Map Json)
  decode_segment segment = elim (codec.decode_base64 segment) [
    | none ↦ none
    | some data_bytes ↦ codec.unmarshal data_bytes
  ]

  -- `source` is what `ks.key` returns for a key id in this request.
  pub verify_token : Config → ℕ → (Str → Result KeyError Key) → Str → Result AuthError Claims
  verify_token cfg now source raw = do
    parts ← or_fail (three (split b'.' raw)) err_invalid_token
    header ← or_fail (decode_segment parts.0) err_invalid_token
    signed ← check_header header
    key ← from_key_source (source signed.1)
    tok ← or_fail (codec.parse_token (key_algorithm signed.0) key raw) err_invalid_token
    exp ← check_time cfg now tok
    check_policy cfg tok
    claims ← or_fail (decode_segment parts.1) err_invalid_token
    ok (record {
      subject = claims_string claims (bytes "sub");
      issuer = or_else tok.issuer [];
      audience = or_else tok.audience [];
      azp = token_caller tok;
      scopes = token_scopes tok;
      expiry = exp;
      raw = claims;
    })
