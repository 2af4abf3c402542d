-- ===== src/Auth/Verify/Examples.antt =====
-- A token that is accepted, over a codec that knows one header and one payload.
use docsclaw.Base.{
  ℕ, Str, bytes, ◌==◌, lookup, Option, none, some, [], ◌∷◌, ◌≡◌, ◌↔◌, refl, Result, ok, err,
  has_prefix, has_suffix, if◌then◌else◌, Map,
}
use docsclaw.Json.{Json, str}
use docsclaw.Text.{split, fields}
use docsclaw.Auth.Policy.{Config, contains_string, contains_any, caller_allowed}
use docsclaw.Auth.Keys.{KeyError, key_unknown}
use docsclaw.Auth.Verify.{
  Claims, Token, Codec, key_algorithm, claims_string, token_scopes, token_caller, check_time,
  check_policy, from_key_source, three, decode_segment, check_header, verify_token, scope_fields,
  scp_scopes,
}
use docsclaw.Auth.Verify.Tokens.{IsAccepted, verify_token_iff}

abbrev pub policy : Config
policy = record {
  issuer = bytes "i";
  jwks_url = bytes "https://i/keys";
  audience = bytes "me";
  required_scopes = bytes "run" ∷ [];
  allowed_callers = bytes "spiffe://a/" ∷ [];
  clock_skew = 3;
  exempt_paths = bytes "/healthz" ∷ [];
  min_refresh_interval = 60;
}

abbrev text_of : Str → Option Str
text_of name =
    if name == bytes "scope"
    then some (bytes "read run")
    else if name == bytes "azp"
    then some (bytes "spiffe://a/b")
    else none

abbrev token : Token
token = record {
  expiration = some 8;
  not_before = some 12;
  issued_at = none;
  issuer = some (bytes "i");
  audience = some (bytes "you" ∷ bytes "me" ∷ []);
  get_string = text_of;
  get_strings = λ _. none;
  get_values = λ _. none;
}

abbrev header : Map Json
header = (bytes "alg", str (bytes "ES256")) ∷ (bytes "kid", str (bytes "k")) ∷ []

abbrev payload : Map Json
payload = (bytes "sub", str (bytes "bob")) ∷ []

-- "h" decodes to the header, "p" to the payload, and every signature is good.
abbrev pub codec : Codec ℕ
codec = record {
  decode_base64 = λ s. some s;
  unmarshal =
      λ s. if s == bytes "h" then some header else if s == bytes "p" then some payload else none;
  parse_token = λ _ _ _. some token;
}

abbrev pub one_key : Str → Result KeyError ℕ
one_key kid = if kid == bytes "k" then ok 1 else err key_unknown

abbrev pub bob : Claims
bob = record {
  subject = bytes "bob";
  issuer = bytes "i";
  audience = bytes "you" ∷ bytes "me" ∷ [];
  azp = bytes "spiffe://a/b";
  scopes = bytes "read" ∷ bytes "run" ∷ [];
  expiry = 8;
  raw = payload;
}

pub verify_token-bob : verify_token codec policy 10 one_key (bytes "h.p.s") ≡ ok bob
unfolding verify_token decode_segment check_header check_policy check_time from_key_source three
    claims_string key_algorithm token_scopes token_caller scope_fields scp_scopes split fields
    contains_string contains_any caller_allowed bytes ◌==◌ lookup has_prefix has_suffix
verify_token-bob = refl

verify_token_iff_example :
    (verify_token codec policy 10 one_key (bytes "h.p.s") ≡ ok bob)
    ↔ IsAccepted codec policy 10 one_key (bytes "h.p.s") bob
verify_token_iff_example = verify_token_iff codec policy 10 one_key (bytes "h.p.s") bob
