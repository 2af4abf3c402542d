-- ===== src/Retrieval.antt =====
-- pkg/rag and internal/ragsearch: the search of a document store, and its tool.
use docsclaw.Base.{
  ℕ, suc, Str, bytes, ◌==◌, decimal, join, Map, lookup, Option, none, some, List, [], ◌∷◌, ◌++◌,
  false, reverse, not, ltb, eqb, take, if◌then◌else◌, Result, ok, err, ◌>>=◌, ◌>>◌, fail_if,
}
use docsclaw.Json.{Json, Fields, Elems, obj, arr, num, field, end, nil, cons, as_str}
use docsclaw.Text.{trim_space}
use docsclaw.FetchTools.Docs.{trim_right}
use docsclaw.Tools.{ToolResult, errorf}

-- A limit that is not positive acts as 0.
pub record RagConfig : Type 0 where
  pub backend : Str
  pub url : Str
  pub collection : Str
  pub text_field : Str
  pub default_limit : ℕ
  pub max_limit : ℕ

pub apply_defaults : RagConfig → RagConfig
apply_defaults c = record c {
  text_field = if c.text_field == [] then bytes "content" else c.text_field;
  default_limit = if eqb c.default_limit 0 then 5 else c.default_limit;
  max_limit = if eqb c.max_limit 0 then 20 else c.max_limit;
}

pub record WeaviateClient : Type 0 where
  pub base_url : Str
  pub collection : Str
  pub text_field : Str

pub new_weaviate_client : Str → Str → Str → Result Str WeaviateClient
new_weaviate_client url collection text_field =
    let base_url = trim_right url in
    do
      fail_if (base_url == []) (bytes "weaviate: base URL is required")
      fail_if (collection == []) (bytes "weaviate: collection is required")
      ok (record { base_url = base_url; collection = collection; text_field = text_field })

drop_newlines : Str → Str
drop_newlines [] = []
drop_newlines (c ∷ s) = let rest = drop_newlines s in if eqb c 10 then rest else c ∷ s

-- strings.TrimRight(s, "\n")
trim_newlines : Str → Str
unfolding drop_newlines
trim_newlines s = reverse (drop_newlines (reverse s))

-- The client, with the configuration that has its defaults; `quoted` is %q.
pub new_client : (Str → Str) → RagConfig → Result Str (WeaviateClient × RagConfig)
unfolding apply_defaults new_weaviate_client
new_client quoted cfg =
    let c = apply_defaults cfg in
    do
      fail_if (cfg.backend == []) (bytes "rag: backend is required (e.g. \"weaviate\")")
      fail_if (not (c.backend == bytes "weaviate"))
          (bytes "unsupported RAG backend: " ++ quoted c.backend)
      client ← new_weaviate_client c.url c.collection c.text_field
      ok (client, c)

-- `distance` is the number's text, and the score 1 less it.
pub record Chunk : Type 0 where
  pub id : Str
  pub text : Str
  pub distance : Str

-- The answer's body, read up to 2^20 bytes, as the JSON decoder gives it.
pub record GraphQlResponse : Type 0 where
  pub answer : Option Json
  pub errors : List Str

pub data Posted : Type 0 where
  not_built not_sent not_read : Str → Posted
  answered : (status : ℕ) → (body : Str) → Posted

-- Package net/http, the JSON codec for a text and for the answer, and the numbers: 1 less a number
-- with two decimals, and the integer part of a number that is positive.
pub record Store (W : Type 0) : Type 0 where
  pub post : Str → Str → W → Posted × W
  pub marshal_str : Str → Str
  pub marshal_query : Str → Str
  pub decode : Str → Result Str GraphQlResponse
  pub score_text : Str → Str
  pub positive_int : Str → Option ℕ

-- A key of an object; a later one of the same name would replace it, so that it stands once.
field_of : Str → Fields → Option Json
field_of key end = none
field_of key (field name value rest) =
    let later = field_of key rest in if name == key then some value else later

fields_of : Option Json → Fields
fields_of (some (obj fields)) = fields
fields_of _ = end

number_of : Option Json → Option Str
number_of (some (num n)) = some n
number_of _ = none

text_of : Option Json → Str
text_of v = elim (as_str v) [ none ↦ [] | some s ↦ s ]

-- An item that is no object, or has no number as its distance, is left out.
chunk_of : WeaviateClient → Json → Option Chunk
unfolding field_of fields_of number_of text_of
chunk_of client (obj fields) =
    let additional = fields_of (field_of (bytes "_additional") fields) in
    elim (number_of (field_of (bytes "distance") additional)) [
      | none ↦ none
      | some distance ↦ some (record {
        id = text_of (field_of (bytes "id") additional);
        text = text_of (field_of client.text_field fields);
        distance = distance;
      })
    ]
chunk_of client _ = none

chunks_of : WeaviateClient → Elems → List Chunk
unfolding chunk_of
chunks_of client nil = []
chunks_of client (cons item items) =
    let rest = chunks_of client items in
    elim (chunk_of client item) [ none ↦ rest | some c ↦ c ∷ rest ]

pub parse_chunks : WeaviateClient → Option Json → Result Str (List Chunk)
unfolding field_of fields_of chunks_of
parse_chunks client answer = elim (field_of (bytes "Get") (fields_of answer)) [
  | some (obj found) ↦ elim (field_of client.collection found) [
    | some (arr items) ↦ ok (chunks_of client items)
    | _ ↦ ok []
  ]
  | _ ↦ err (bytes "weaviate: unexpected response: missing 'Get' key")
]

module _ {W : Type 0} (store : Store W) (client : WeaviateClient) where
  query_text : Str → ℕ → Str
  query_text query limit =
      bytes "{ Get { "
      ++ (client.collection
          ++ (bytes "(nearText: {concepts: ["
              ++ (store.marshal_str query
                  ++ (bytes "]}, limit: "
                      ++ (decimal limit
                          ++ (bytes ") { "
                              ++ (client.text_field
                                  ++ bytes " _additional { id distance } } } }")))))))

  on_decoded : Result Str GraphQlResponse → Result Str (List Chunk)
  unfolding parse_chunks
  on_decoded (err e) = err (bytes "weaviate: decode response: " ++ e)
  on_decoded (ok response) = elim (response.errors) [
    | [] ↦ parse_chunks client response.answer
    | e ∷ es ↦ err (bytes "weaviate graphql: " ++ join (bytes "; ") (e ∷ es))
  ]

  on_posted : Posted → Result Str (List Chunk)
  unfolding on_decoded
  on_posted (not_built e) = err (bytes "weaviate: create request: " ++ e)
  on_posted (not_sent e) = err (bytes "weaviate: request failed: " ++ e)
  on_posted (not_read e) = err (bytes "weaviate: read response: " ++ e)
  on_posted (answered status body) =
      if eqb status 200
      then on_decoded (store.decode (take 1048576 body))
      else err (bytes "weaviate: HTTP " ++ (decimal status ++ (bytes ": " ++ take 1048576 body)))

  pub search : Str → ℕ → W → Result Str (List Chunk) × W
  unfolding query_text on_posted
  search query limit w =
      let (posted, w') =
        store.post (client.base_url ++ bytes "/v1/graphql")
          (store.marshal_query (query_text query limit)) w in
      (on_posted posted, w')

module _ {W : Type 0} (store : Store W) (client : WeaviateClient) (config : RagConfig) where
  pub limit_of : Map Json → ℕ
  unfolding number_of
  limit_of args =
      let asked : ℕ = elim (number_of (lookup (bytes "limit") args)) [
        | none ↦ config.default_limit
        | some n ↦ elim (store.positive_int n) [ none ↦ config.default_limit | some l ↦ l ]
      ] in
      if ltb config.max_limit asked then config.max_limit else asked

  listed : ℕ → List Chunk → Str
  listed n [] = []
  listed n (c ∷ cs) =
      bytes "["
      ++ (decimal n
          ++ (bytes "] (score: "
              ++ (store.score_text c.distance
                  ++ (bytes ")\n" ++ (c.text ++ (bytes "\n\n" ++ listed (suc n) cs))))))

  shown : Result Str (List Chunk) → ToolResult
  unfolding listed trim_newlines
  shown (err e) = errorf (bytes "rag search failed: " ++ e)
  shown (ok []) = record { output = bytes "No results found for the query."; error = false }
  shown (ok (c ∷ cs)) = record { output = trim_newlines (listed 1 (c ∷ cs)); error = false }

  pub execute : Map Json → W → ToolResult × W
  unfolding search limit_of shown
  execute args w =
      let query = trim_space (text_of (lookup (bytes "query") args)) in
      if query == []
      then (errorf (bytes "query is required"), w)
      else (let (found, w') = search store client query (limit_of args) w in (shown found, w'))
