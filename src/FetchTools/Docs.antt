-- ===== src/FetchTools/Docs.antt =====
-- fetchdoc.go: the tool fetch_document.
use docsclaw.Base.{
  ℕ, Str, bytes, ◌==◌, reverse, join, Map, lookup, Option, none, some, or_else, List, [], ◌∷◌, ◌++◌,
  map, false, ◌||◌, eqb, if◌then◌else◌, Result, ok, err, ◌>>=◌, ◌>>◌, fail_if, or_fail,
}
use docsclaw.Json.{Json, as_str, obj, Fields, end, field}
use docsclaw.Tools.{ToolResult, errorf}
use docsclaw.Peers.Denials.{Texts, describe_response, describe_error}

-- What a GET comes to: a status with the body, of which the limits are kept by those that read it.
pub data DocReply : Type 0 where
  not_built not_sent : Str → DocReply
  answered : (status : ℕ) → (body : Str) → DocReply

-- url.PathEscape, the JSON decoder, %q, sort.Strings of the names, and the client; the texts of denials.
pub record DocClient (W : Type 0) : Type 0 where
  pub path_escape : Str → Str
  pub decode : Str → Result Str (Map Json)
  pub quoted : Str → Str
  pub sort_strings : List Str → List Str
  pub get : Str → W → DocReply × W
  pub texts : Texts

-- A map of names to base URLs.
abbrev pub Services : Type 0
Services = Map Str

drop_slashes : Str → Str
drop_slashes [] = []
drop_slashes (c ∷ s) = let rest = drop_slashes s in if c ∷ [] == bytes "/" then rest else c ∷ s

-- strings.TrimRight(s, "/")
pub trim_right : Str → Str
unfolding drop_slashes
trim_right s = reverse (drop_slashes (reverse s))

entries : Fields → Map Json
entries end = []
entries (field key value rest) = (key, value) ∷ entries rest

-- `result["document"]` where it is an object, and the result otherwise
document_of : Map Json → Map Json
unfolding entries
document_of result = elim (lookup (bytes "document") result) [
  | some (obj fields) ↦ entries fields
  | _ ↦ result
]

present : Option Str → Str → Result Str Str
present none e = err e
present (some s) e = if s == [] then err e else ok s

module _ {W : Type 0} (client : DocClient W) (services : Services) where
  pub service_names : List Str
  service_names = client.sort_strings (map (λ (s : Str × Str). s.0) services)

  -- the base URL and the document that are asked for
  pub requested : Map Json → Result Str (Str × Str)
  unfolding present
  requested args = do
    service ← present (as_str (lookup (bytes "service") args)) (bytes "service is required")
    doc_id ← present (as_str (lookup (bytes "document_id") args)) (bytes "document_id is required")
    fail_if (doc_id == bytes "." || doc_id == bytes "..")
        (bytes "invalid document_id " ++ (client.quoted doc_id ++ bytes ": must name a document"))
    base ← or_fail (lookup service services) (
        bytes "unknown document service "
        ++ (client.quoted service ++ (bytes "; available: " ++ join (bytes ", ") service_names)))
    ok (base, doc_id)

  pub endpoint : Str → Str → Str
  unfolding trim_right
  endpoint base doc_id = trim_right base ++ (bytes "/documents/" ++ client.path_escape doc_id)

  doc_error : Str → Str → ToolResult
  doc_error doc_id reason = errorf (doc_id ++ (bytes ": " ++ reason))

  shown : Map Json → ToolResult
  unfolding document_of
  shown result =
      let doc = document_of result in
      let title = or_else (as_str (lookup (bytes "title") doc)) [] in
      let content = or_else (as_str (lookup (bytes "content") doc)) [] in
      record {
        output = bytes "**Document:** " ++ (title ++ (bytes "\n\n" ++ content));
        error = false;
      }

  on_reply : Str → DocReply → ToolResult
  unfolding doc_error shown
  on_reply doc_id (not_built e) = doc_error doc_id (describe_error client.texts e)
  on_reply doc_id (not_sent e) = doc_error doc_id (describe_error client.texts e)
  on_reply doc_id (answered status body) =
      if eqb status 200
      then (elim (client.decode body) [
        | err e ↦ doc_error doc_id (bytes "failed to decode response: " ++ e)
        | ok result ↦ shown result
      ])
      else doc_error doc_id (describe_response client.texts status body)

  pub execute : Map Json → W → ToolResult × W
  unfolding on_reply requested endpoint
  execute args w = elim (requested args) [
    | err e ↦ (errorf e, w)
    | ok asked ↦
        let (reply, w') = client.get (endpoint asked.0 asked.1) w in (on_reply asked.1 reply, w')
  ]
