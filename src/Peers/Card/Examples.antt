-- ===== src/Peers/Card/Examples.antt =====
-- A card with two entries, of which the second verifies.
use docsclaw.Base.{
  Str, bytes, ◌==◌, lookup, insert, join, map, none, some, [], ◌∷◌, true, ◌≡◌, ◌↔◌, refl, ok, err,
  if◌then◌else◌,
}
use docsclaw.Json.{str}
use docsclaw.Peers.Card.Payloads.{
  JsonCodec, is_required, keep, delete, map_raw, entries, is_empty_value, is_zero_value,
  is_zero_collection, is_zero_json, strip_capabilities, strip_values, strip_empty_collections,
  strip_all_defaults, drop_empty_required, canonicalize, forms, candidates_from, card_payloads,
}
use docsclaw.Peers.Card.{
  PublicKey, ecdsa_key, JwsCodec, verify_algorithm, or_format, check_header, verify_signature,
  check_signatures, signed_by, check_card,
}
use docsclaw.Peers.Card.Signed.{IsSigned, check_card_iff}

abbrev pub json : JsonCodec
json = record {
  unmarshal_raw = λ s.
      if s == bytes "card"
      then ok (
          some (
            (bytes "name", bytes "x")
            ∷ (bytes "signatures", bytes "y")
            ∷ (bytes "url", bytes "e")
            ∷ []))
      else err [];
  marshal_raw = λ raw. elim raw [
    | none ↦ ok (bytes "null")
    | some m ↦ ok (join (bytes ",") (map (λ (e : Str × Str). e.0) m))
  ];
  transform = λ s. ok s;
  unmarshal_value = λ s. if s == bytes "e" then some (str []) else some (str s);
  is_zero_number = λ s. s == bytes "0";
}

abbrev pub jws : JwsCodec
jws = record {
  unmarshal_card = λ s. ok (
      record { protected = bytes "!"; signature = bytes "s" }
      ∷ record { protected = bytes "p"; signature = bytes "s" }
      ∷ []);
  unmarshal_header = λ s. ok (record { alg = bytes "ES256"; typ = bytes "JOSE"; kid = bytes "k" });
  decode_base64 = λ s. if s == bytes "!" then err [] else ok s;
  encode_base64 = λ s. s;
  jws_verify = λ compact alg key. compact == bytes "p.name.s";
  quoted = λ s. s;
}

abbrev pub key : PublicKey
key = ecdsa_key true (bytes "material")

-- The signature covers the form without the empty url.
accepted : check_card jws json key (bytes "card") ≡ none
unfolding check_card signed_by check_signatures verify_signature check_header or_format
    verify_algorithm card_payloads candidates_from forms canonicalize drop_empty_required
    strip_all_defaults strip_empty_collections strip_values strip_capabilities is_zero_json
    is_zero_collection is_zero_value is_empty_value entries map_raw delete keep is_required lookup
    insert join bytes ◌==◌
accepted = refl

check_card_iff_example :
    (check_card jws json key (bytes "card") ≡ none) ↔ IsSigned jws json key (bytes "card")
check_card_iff_example = check_card_iff jws json key (bytes "card")
