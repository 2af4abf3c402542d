-- ===== src/Peers/Card/Payloads.antt =====
-- cardverify.go, cardPayloads: the byte strings that a card's signature may cover.
pub mod Forms
use docsclaw.Base.{
  ℕ, Str, bytes, ◌==◌, Map, lookup, insert, Option, none, some, List, [], ◌∷◌, ◌++◌, Bool, true,
  false, not, ◌&&◌, ◌||◌, Result, ok, err, ◌>>=◌, if◌then◌else◌, any,
}
use docsclaw.Json.{Json, null, bool, num, str, arr, obj, nil, cons, end, field}

-- The errors by what a caller can ask of them: one that wraps ErrCardFormat or ErrCardSignature, with
-- the text behind, a cardHTTPError, or another.
pub data CardError : Type 0 where
  card_format card_signature card_other : Str → CardError
  card_http : (status : ℕ) → (body : Str) → CardError

-- encoding/json and jcs.Transform. A map of raw texts is `none` where it is nil, as JSON's null
-- makes it. `is_zero_number` tells of a number's text whether its float64 is 0.
pub record JsonCodec : Type 0 where
  pub unmarshal_raw : Str → Result Str (Option (Map Str))
  pub marshal_raw : Option (Map Str) → Result Str Str
  pub transform : Str → Result Str Str
  pub unmarshal_value : Str → Option Json
  pub is_zero_number : Str → Bool

unfoldable pub is_required : Str → Bool
is_required key =
    key == bytes "name"
    || key == bytes "description"
    || key == bytes "version"
    || key == bytes "capabilities"
    || key == bytes "skills"
    || key == bytes "supportedInterfaces"
    || key == bytes "defaultInputModes"
    || key == bytes "defaultOutputModes"

-- The entries that stay.
unfoldable pub keep : (Str → Str → Bool) → Map Str → Map Str
keep stays [] = []
keep stays ((key, value) ∷ raw) =
    let rest = keep stays raw in if stays key value then (key, value) ∷ rest else rest

unfoldable pub delete : Str → Map Str → Map Str
unfolding keep
delete key raw = keep (λ k v. not (k == key)) raw

unfoldable pub map_raw : (Map Str → Map Str) → Option (Map Str) → Option (Map Str)
map_raw f none = none
map_raw f (some raw) = some (f raw)

-- A range over nil is empty.
unfoldable pub entries : Option (Map Str) → Map Str
entries none = []
entries (some raw) = raw

module _ (json : JsonCodec) where
  unfoldable pub is_empty_value : Json → Bool
  is_empty_value null = true
  is_empty_value (str s) = s == []
  is_empty_value (arr nil) = true
  is_empty_value (obj end) = true
  is_empty_value _ = false

  unfoldable pub is_zero_value : Json → Bool
  unfolding is_empty_value
  is_zero_value (bool b) = not b
  is_zero_value (num text) = json.is_zero_number text
  is_zero_value value = is_empty_value value

  unfoldable pub is_zero_collection : Str → Bool
  unfolding is_empty_value
  is_zero_collection raw = elim (json.unmarshal_value raw) [
    | none ↦ false
    | some value ↦ is_empty_value value
  ]

  unfoldable pub is_zero_json : Str → Bool
  unfolding is_zero_value
  is_zero_json raw = elim (json.unmarshal_value raw) [
    | none ↦ false
    | some value ↦ is_zero_value value
  ]

  -- the capabilities without the values that are zero, or as they are where they cannot be read
  unfoldable pub strip_capabilities : (Str → Bool) → Str → Map Str → Map Str
  unfolding keep map_raw
  strip_capabilities zero caps out = elim (json.unmarshal_raw caps) [
    | err _ ↦ out
    | ok inner ↦ elim (json.marshal_raw (map_raw (keep (λ k v. not (zero v))) inner)) [
      | err _ ↦ out
      | ok encoded ↦ insert (bytes "capabilities") encoded out
    ]
  ]

  unfoldable pub strip_values : Option (Map Str) → (Str → Bool) → Map Str
  unfolding strip_capabilities is_required entries keep
  strip_values raw zero =
      let out = keep (λ k v. is_required k || not (zero v)) (entries raw) in
      elim (lookup (bytes "capabilities") out) [
        | none ↦ out
        | some caps ↦ strip_capabilities zero caps out
      ]

  unfoldable pub strip_empty_collections : Option (Map Str) → Map Str
  unfolding strip_values is_zero_collection
  strip_empty_collections raw = strip_values raw is_zero_collection

  unfoldable pub strip_all_defaults : Option (Map Str) → Map Str
  unfolding strip_values is_zero_json
  strip_all_defaults raw = strip_values raw is_zero_json

  unfoldable pub drop_empty_required : Map Str → Map Str
  unfolding keep is_required is_zero_json
  drop_empty_required raw = keep (λ k v. not (is_required k && is_zero_json v)) raw

  unfoldable pub canonicalize : Option (Map Str) → Result CardError Str
  canonicalize raw = elim (json.marshal_raw raw) [
    | err e ↦ err (card_format e)
    | ok trimmed ↦ elim (json.transform trimmed) [
      | err e ↦ err (card_format (bytes "canonicalize: " ++ e))
      | ok canonical ↦ ok canonical
    ]
  ]

  -- the four forms of a card without its signatures
  unfoldable pub forms : Option (Map Str) → List (Option (Map Str))
  unfolding delete map_raw strip_empty_collections strip_all_defaults drop_empty_required
  forms whole =
      let raw = map_raw (delete (bytes "signatures")) whole in
      raw
      ∷ some (strip_empty_collections raw)
      ∷ some (strip_all_defaults raw)
      ∷ some (drop_empty_required (strip_all_defaults raw))
      ∷ []

  -- the loop over the forms, which leaves out what it has already
  unfoldable pub candidates_from : List (Option (Map Str)) → List Str → Result CardError (List Str)
  unfolding canonicalize
  candidates_from [] candidates = ok candidates
  candidates_from (form ∷ rest) candidates = elim (canonicalize form) [
    | err e ↦ err e
    | ok canonical ↦ candidates_from rest (
        if any (λ existing. existing == canonical) candidates
        then candidates
        else candidates ++ canonical ∷ [])
  ]

  unfoldable pub card_payloads : Str → Result CardError (List Str)
  unfolding candidates_from forms
  card_payloads body = elim (json.unmarshal_raw body) [
    | err e ↦ err (card_format e)
    | ok whole ↦ candidates_from (forms whole) []
  ]
