-- ===== src/Peers/Card.antt =====
-- cardverify.go: the signed card of a peer.
pub mod Payloads
pub mod Signed
pub mod Examples
use docsclaw.Base.{
  ℕ, suc, ◌+◌, Str, bytes, ◌==◌, Option, none, some, List, [], ◌∷◌, ◌++◌, Bool, true, false, not,
  ◌&&◌, ◌||◌, Result, ok, err, ◌>>=◌, ◌>>◌, fail_if, if◌then◌else◌, any, take, length, leb, ltb,
  eqb, decimal, Map,
}
use docsclaw.Peers.Card.Payloads.{
  CardError, card_format, card_signature, card_http, card_other, JsonCodec, card_payloads,
}

-- A key that pem and x509 have parsed: an ECDSA key, with whether its curve is P-256; an RSA key, with
-- the bits of its modulus; or another, with the name of its type. `material` is the key itself.
pub data PublicKey : Type 0 where
  ecdsa_key : (on_p256 : Bool) → (material : Str) → PublicKey
  rsa_key : (bits : ℕ) → (material : Str) → PublicKey
  other_key : (type_name : Str) → PublicKey

-- Packages os, encoding/pem and crypto/x509; the parsers give a key or an error.
pub record KeyFiles : Type 0 where
  pub read_file : Str → Result Str Str
  pub decode_pem : Str → Option Str
  pub parse_pkix : Str → Result Str PublicKey
  pub parse_pkcs1 : Str → Result Str PublicKey

usable_key : PublicKey → Result Str PublicKey
usable_key (ecdsa_key on_p256 material) =
    if on_p256
    then ok (ecdsa_key on_p256 material)
    else err (bytes "card public key must use the P-256 curve")
usable_key (rsa_key bits material) =
    if ltb bits 2048
    then err (
        bytes "card public key is "
        ++ (decimal bits ++ (bytes " bits; at least " ++ (decimal 2048 ++ bytes " required"))))
    else ok (rsa_key bits material)
usable_key (other_key type_name) = err (bytes "unsupported card public key type " ++ type_name)

parse_key : KeyFiles → Str → Result Str PublicKey
unfolding usable_key
parse_key files block = elim (files.parse_pkix block) [
  | ok key ↦ usable_key key
  | err e ↦ elim (files.parse_pkcs1 block) [
    | ok key ↦ usable_key key
    | err _ ↦ err (bytes "parse card public key: " ++ e)
  ]
]

unfoldable pub load_card_public_key : KeyFiles → Str → Result Str PublicKey
unfolding parse_key
load_card_public_key files path = elim (files.read_file path) [
  | err e ↦ err (bytes "read card public key: " ++ e)
  | ok text ↦ elim (files.decode_pem text) [
    | none ↦ err (bytes "card public key is not PEM-encoded")
    | some block ↦ parse_key files block
  ]
]

pub data Algorithm : Type 0 where
  es256 rs256 : Algorithm

abbrev pub algorithm_name : Algorithm → Str
algorithm_name es256 = bytes "ES256"
algorithm_name rs256 = bytes "RS256"

pub verify_algorithm : PublicKey → Result CardError Algorithm
verify_algorithm (ecdsa_key on_p256 material) =
    if on_p256 then ok es256 else err (card_other (bytes "agent card key must use the P-256 curve"))
verify_algorithm (rsa_key bits material) = ok rs256
verify_algorithm (other_key type_name) =
    err (card_other (bytes "unsupported agent card key type " ++ type_name))

-- `a2a.AgentCardSignature`
pub record CardSignature : Type 0 where
  pub protected : Str
  pub signature : Str

pub record SignatureHeader : Type 0 where
  pub alg : Str
  pub typ : Str
  pub kid : Str

-- What is called for the signatures: encoding/json, encoding/base64 and jws.Verify of a compact text;
-- `quoted` is %q.
pub record JwsCodec : Type 0 where
  pub unmarshal_card : Str → Result Str (List CardSignature)
  pub unmarshal_header : Str → Result Str SignatureHeader
  pub decode_base64 : Str → Result Str Str
  pub encode_base64 : Str → Str
  pub jws_verify : Str → Algorithm → PublicKey → Bool
  pub quoted : Str → Str

pub or_format : {A : Type 0} → Str → Result Str A → Result CardError A
or_format text (err e) = err (card_format (text ++ e))
or_format text (ok a) = ok a

module _ (jws : JwsCodec) where
  abbrev pub compact : CardSignature → Str → Str
  compact sig payload =
      sig.protected ++ (bytes "." ++ (jws.encode_base64 payload ++ (bytes "." ++ sig.signature)))

  pub check_header : Algorithm → SignatureHeader → Result CardError (Unit {0})
  check_header alg header = do
    fail_if (not (header.alg == algorithm_name alg))
        (card_format (bytes "unsupported alg " ++ jws.quoted header.alg))
    fail_if (not (header.typ == bytes "JOSE")) (
        card_format
          (bytes "protected header typ " ++ (jws.quoted header.typ ++ bytes ", want JOSE")))
    fail_if (header.kid == []) (card_format (bytes "protected header has no kid"))

  pub verify_signature : CardSignature → Algorithm → PublicKey → List Str → Result CardError Bool
  unfolding or_format check_header
  verify_signature sig alg key payloads = do
    json ← or_format (bytes "protected header is not base64url: ") (jws.decode_base64 sig.protected)
    header ← or_format (bytes "protected header is not JSON: ") (jws.unmarshal_header json)
    check_header alg header
    decoded ← or_format (bytes "signature is not base64url: ") (jws.decode_base64 sig.signature)
    ok (any (λ payload. jws.jws_verify (compact sig payload) alg key) payloads)

  -- the loop over the signatures, with what it saw; `none` where one verifies
  pub check_signatures :
      Algorithm
      → PublicKey
      → List Str
      → (saw_format saw_mismatch : Bool) → List CardSignature
      → Option CardError
  unfolding verify_signature
  check_signatures alg key payloads saw_format saw_mismatch [] =
      if saw_format && not saw_mismatch
      then some (card_format (bytes "no usable signature entry"))
      else some (card_signature [])
  check_signatures alg key payloads saw_format saw_mismatch (sig ∷ sigs) =
      elim (verify_signature sig alg key payloads) [
        | err _ ↦ check_signatures alg key payloads true saw_mismatch sigs
        | ok true ↦ none
        | ok false ↦ check_signatures alg key payloads saw_format true sigs
      ]

  pub signed_by : Algorithm → PublicKey → List Str → List CardSignature → Option CardError
  unfolding check_signatures
  signed_by alg key payloads [] = some (card_signature (bytes "card has no signatures"))
  signed_by alg key payloads (sig ∷ sigs) =
      check_signatures alg key payloads false false (sig ∷ sigs)

  -- `verifyCard` from the fetched body on; `none` is nil.
  pub check_card : JsonCodec → PublicKey → Str → Option CardError
  unfolding signed_by
  check_card json key body = elim (jws.unmarshal_card body) [
    | err e ↦ some (card_format e)
    | ok sigs ↦ elim (card_payloads json body) [
      | err e ↦ some e
      | ok payloads ↦ elim (verify_algorithm key) [
        | err e ↦ some e
        | ok alg ↦ signed_by alg key payloads sigs
      ]
    ]
  ]

pub record Url : Type 0 where
  pub scheme : Str
  pub host : Str

-- What a GET comes to; the body is what is read before its end or the error.
pub data Fetched : Type 0 where
  not_built not_fetched : Str → Fetched
  fetched : (status : ℕ) → (body : Str) → (read_err : Option Str) → Fetched

-- `url.Parse`, and the client with the policy that it asks before it follows a redirect to a scheme
-- and a host behind a number of requests: an error stops it.
pub record Web (W : Type 0) : Type 0 where
  pub parse_url : Str → Result Str Url
  pub get : (scheme host path : Str) → (Str → Str → ℕ → Option Str) → W → Fetched × W

pub check_redirect : Url → Str → Str → ℕ → Option Str
check_redirect peer scheme host via =
    if not (host == peer.host) || not (scheme == peer.scheme)
    then some (
        bytes "agent card redirect to " ++ (scheme ++ (bytes "://" ++ (host ++ bytes " rejected"))))
    else if leb 5 via
    then some (bytes "too many agent card redirects")
    else none

-- io.ReadAll of an io.LimitReader: the limit hides an error behind it.
unfoldable pub read_limited : ℕ → Str → Option Str → Str × Option Str
read_limited limit body read_err =
    if leb limit (length body) then (take limit body, none) else (body, read_err)

-- A card has at most 2^20 bytes; `limit` is that number.
on_body : ℕ → Str × Option Str → Result CardError Str
on_body limit (text, some e) = err (card_other (bytes "read agent card: " ++ e))
on_body limit (text, none) =
    if ltb limit (length text)
    then err (card_format (bytes "card exceeds " ++ (decimal limit ++ bytes " bytes")))
    else ok text

on_fetched : ℕ → Fetched → Result CardError Str
unfolding read_limited on_body
on_fetched limit (not_built e) = err (card_other (bytes "build agent card request: " ++ e))
on_fetched limit (not_fetched e) = err (card_other (bytes "fetch agent card: " ++ e))
on_fetched limit (fetched status body read_err) =
    if not (eqb status 200)
    then err (card_http status (read_limited 4096 body read_err).0)
    else on_body limit (read_limited (suc limit) body read_err)

module _ {W : Type 0} (web : Web W) (jws : JwsCodec) (json : JsonCodec) (limit : ℕ) where
  pub fetch_card : Url → W → Result CardError Str × W
  unfolding on_fetched check_redirect
  fetch_card peer w =
      let (reply, w') =
        web.get peer.scheme peer.host (bytes "/.well-known/agent-card.json") (check_redirect peer)
          w in
      (on_fetched limit reply, w')

  pub check_fetched : PublicKey → Result CardError Str × W → Option CardError × W
  unfolding check_card
  check_fetched key (err e, w) = (some e, w)
  check_fetched key (ok body, w) = (check_card jws json key body, w)

  unfoldable pub verify_card : Str → Option PublicKey → W → Option CardError × W
  unfolding fetch_card check_fetched
  verify_card peer_url none w = (none, w)
  verify_card peer_url (some key) w = elim (web.parse_url peer_url) [
    | err e ↦ (some (card_other (bytes "parse peer URL: " ++ e)), w)
    | ok u ↦
        if u.host == [] || (not (u.scheme == bytes "http") && not (u.scheme == bytes "https"))
        then (
          some (
              card_other (
                bytes "peer URL "
                ++ (jws.quoted peer_url ++ bytes " is not an absolute http or https URL"))),
          w,
        )
        else check_fetched key (fetch_card u w)
  ]
