-- ===== src/Auth/Verify/Tokens.antt =====
-- verify.go, verifyToken from the raw token to the claims.
use docsclaw.Base.{
  ℕ, Str, bytes, eq_iff, Map, or_else, some, [], ◌≡◌, ◌≢◌, ◌↔◌, ◌⊎◌, sym, ap, ◌∙◌, arith, Result,
  ok, err, or_fail, or_fail-eq-ok, >>=-eq-ok, unit_eq,
}
use docsclaw.Json.{Json}
use docsclaw.Text.{split}
use docsclaw.Auth.Policy.{Config, err_invalid_token}
use docsclaw.Auth.Keys.{KeyError}
use docsclaw.Auth.Verify.{
  Claims, Token, Codec, key_algorithm, claims_string, token_scopes, token_caller, check_time,
  check_policy, from_key_source, three, decode_segment, check_header, verify_token,
}
use docsclaw.Auth.Verify.Accepts.{
  IsCurrent, IsEntitled, check_time_sound, check_time_complete, check_policy_sound,
  check_policy_complete,
}

abbrev claims_of : Token → ℕ → Map Json → Claims
claims_of tok exp claims = record {
  subject = claims_string claims (bytes "sub");
  issuer = or_else tok.issuer [];
  audience = or_else tok.audience [];
  azp = token_caller tok;
  scopes = token_scopes tok;
  expiry = exp;
  raw = claims;
}

abbrev alg_of : Map Json → Str
alg_of header = claims_string header (bytes "alg")

abbrev kid_of : Map Json → Str
kid_of header = claims_string header (bytes "kid")

check_header_sound :
    (header : Map Json) (signed : Str × Str)
    → check_header header ≡ ok signed
    → ((alg_of header ≡ bytes "ES256") ⊎ (alg_of header ≡ bytes "RS256"))
      × (kid_of header ≢ [])
      × (signed.0 ≡ alg_of header)
      × (signed.1 ≡ kid_of header)
unfolding check_header
check_header_sound header signed h = (
  ground (arith, eq_iff (alg_of header) (bytes "ES256"), eq_iff (alg_of header) (bytes "RS256")),
  λ e. ground (arith, (eq_iff (kid_of header) []).1 e),
  ground arith,
  ground arith,
)

check_header_complete :
    (header : Map Json)
    → (alg_of header ≡ bytes "ES256") ⊎ (alg_of header ≡ bytes "RS256")
    → kid_of header ≢ []
    → check_header header ≡ ok (alg_of header, kid_of header)
unfolding check_header
check_header_complete header alg kid = ground (
  arith,
  eq_iff (alg_of header) (bytes "ES256"),
  eq_iff (alg_of header) (bytes "RS256"),
  eq_iff (kid_of header) [],
)

from_key_source_sound :
    {Key : Type 0} (r : Result KeyError Key) (key : Key) → from_key_source r ≡ ok key → r ≡ ok key
unfolding from_key_source
from_key_source_sound (ok k) key h = ground arith
from_key_source_sound (err e) key h = absurd (cc)

ok_injective : {E A : Type 0} {a b : A} → ◌≡◌ {A = Result E A} (ok a) (ok b) → a ≡ b
ok_injective h = cc

module _ {Key : Type 0} (codec : Codec Key) (cfg : Config) (now : ℕ) where
  module _ (source : Str → Result KeyError Key) (raw : Str) where
    -- All that has to hold for a token to be accepted with `claims`: three parts, a header with one
    -- of the two algorithms and a key id that the source has a key for, a signature that this key
    -- verifies, a current token that the policy entitles, and a payload that decodes.
    pub record IsAccepted (claims : Claims) : Type 0 where
      pub header_part : Str
      pub payload_part : Str
      pub header : Map Json
      pub key : Key
      pub tok : Token
      pub exp : ℕ
      pub payload : Map Json
      pub parts : three (split b'.' raw) ≡ some (header_part, payload_part)
      pub header_decodes : decode_segment codec header_part ≡ some header
      pub algorithm :
          (claims_string header (bytes "alg") ≡ bytes "ES256")
          ⊎ (claims_string header (bytes "alg") ≡ bytes "RS256")
      pub has_kid : claims_string header (bytes "kid") ≢ []
      pub key_found : source (claims_string header (bytes "kid")) ≡ ok key
      pub verified :
          codec.parse_token (key_algorithm (claims_string header (bytes "alg"))) key raw ≡ some tok
      pub current : IsCurrent cfg now tok exp
      pub entitled : IsEntitled cfg tok
      pub payload_decodes : decode_segment codec payload_part ≡ some payload
      pub result : claims ≡ claims_of tok exp payload

    verify_token_sound :
        (claims : Claims) → verify_token codec cfg now source raw ≡ ok claims → IsAccepted claims
    unfolding verify_token
    verify_token_sound claims h =
        let (parts, split_e, h1) =
          >>=-eq-ok (or_fail (three (split b'.' raw)) err_invalid_token) _ h in
        let (header, header_e, h2) =
          >>=-eq-ok (or_fail (decode_segment codec parts.0) err_invalid_token) _ h1 in
        let (signed, signed_e, h3) = >>=-eq-ok (check_header header) _ h2 in
        let (key, key_e, h4) = >>=-eq-ok (from_key_source (source signed.1)) _ h3 in
        let (tok, tok_e, h5) =
          >>=-eq-ok (or_fail (codec.parse_token (key_algorithm signed.0) key raw) err_invalid_token)
            _ h4 in
        let (exp, exp_e, h6) = >>=-eq-ok (check_time cfg now tok) _ h5 in
        let (policy, policy_e, h7) = >>=-eq-ok (check_policy cfg tok) _ h6 in
        let (payload, payload_e, h8) =
          >>=-eq-ok (or_fail (decode_segment codec parts.1) err_invalid_token) _ h7 in
        let head = check_header_sound header signed signed_e in
        let key_here = from_key_source_sound (source signed.1) key key_e in
        record {
          header_part = parts.0;
          payload_part = parts.1;
          header = header;
          key = key;
          tok = tok;
          exp = exp;
          payload = payload;
          parts = or_fail-eq-ok _ _ split_e;
          header_decodes = or_fail-eq-ok _ _ header_e;
          algorithm = head.0;
          has_kid = head.1;
          key_found = ap source (sym head.3) ∙ key_here;
          verified =
              ap (λ alg. codec.parse_token (key_algorithm alg) key raw) (sym head.2)
              ∙ or_fail-eq-ok _ _ tok_e;
          current = check_time_sound cfg now tok exp exp_e;
          entitled = check_policy_sound cfg tok (policy_e ∙ ap ok (unit_eq policy tt));
          payload_decodes = or_fail-eq-ok _ _ payload_e;
          result = ok_injective (sym h8);
        }

    verify_token_complete :
        (claims : Claims) → IsAccepted claims → verify_token codec cfg now source raw ≡ ok claims
    unfolding verify_token
    verify_token_complete claims a =
        rw (a.parts, a.header_decodes, check_header_complete a.header a.algorithm a.has_kid)
          (rw a.key_found (
            unfold from_key_source in
            (rw
              (
                a.verified,
                check_time_complete cfg now a.tok a.exp a.current,
                check_policy_complete cfg a.tok a.entitled,
                a.payload_decodes,
              )
              (ap ok (sym a.result)))))

    -- `verifyToken` succeeds with some claims exactly if all of `IsAccepted` holds of the token and
    -- those claims: no check is skipped, and no token that passes them all is refused.
    pub verify_token_iff :
        (claims : Claims) → (verify_token codec cfg now source raw ≡ ok claims) ↔ IsAccepted claims
    verify_token_iff claims = (verify_token_sound claims, verify_token_complete claims)
