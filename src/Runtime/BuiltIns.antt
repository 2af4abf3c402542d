-- ===== src/Runtime/BuiltIns.antt =====
-- The tools of internal/exec, webfetch, readfile, writefile, memorytool, fetchdoc, a2acall and
-- ragsearch, and load_skill of internal/cmd/runtime.go, as the registry holds them.
use docsclaw.Base.{
  Str, bytes, ◌==◌, decimal, join, Map, lookup, Option, none, some, List, [], ◌∷◌, ◌++◌, Bool,
  false, if◌then◌else◌, Result, ok, err,
}
use docsclaw.Json.{Json, Fields, Elems, obj, arr, str, field, end, nil, cons, as_str}
use docsclaw.Tools.{Tool, errorf}
use docsclaw.FetchTools.Exec
use docsclaw.FetchTools.Exec.{ExecConfig, Shell, new_exec_tool}
use docsclaw.FetchTools.Web
use docsclaw.FetchTools.Web.{WebClient, WebFetchConfig}
use docsclaw.FetchTools.Docs
use docsclaw.FetchTools.Docs.{DocClient, Services, service_names}
use docsclaw.FileTools.{Files, read_file, write_file}
use docsclaw.Memory
use docsclaw.Peers.Call
use docsclaw.Peers.Call.{A2aCallTool, Calls}
use docsclaw.Retrieval
use docsclaw.Retrieval.{RagConfig, WeaviateClient}
use docsclaw.Skills.Loader.{Entries}
use docsclaw.Skills.Loader.Content.{load_content}

property : Str → Str → Json
property kind description =
    obj (field (bytes "type") (str kind) (field (bytes "description") (str description) end))

texts : List Str → Elems
texts [] = nil
texts (s ∷ ss) = cons (str s) (texts ss)

schema : Fields → List Str → Map Json
unfolding texts
schema properties required =
    (bytes "type", str (bytes "object"))
    ∷ (bytes "properties", obj properties)
    ∷ (bytes "required", arr (texts required))
    ∷ []

only : Str → Str → Map Json
unfolding schema property
only name description = schema (field name (property (bytes "string") description) end) (name ∷ [])

module _ {W : Type 0} where
  unfoldable pub exec_tool : Shell W → ExecConfig → Tool W
  unfolding only
  exec_tool shell cfg = record {
    name = bytes "exec";
    description =
        bytes
          "Run a shell command and return stdout/stderr. Use for file conversion, data processing, and system commands. Dangerous commands (rm -rf, sudo, docker, etc.) are blocked.";
    parameters = only (bytes "command") (bytes "The shell command to execute");
    execute = Exec.execute shell (new_exec_tool cfg);
  }

  unfoldable pub web_fetch_tool : WebClient W → WebFetchConfig → Tool W
  unfolding only
  web_fetch_tool client cfg = record {
    name = bytes "web_fetch";
    description = bytes "Fetch content from a URL via HTTP GET. Returns the response body as text.";
    parameters = only (bytes "url") (bytes "The URL to fetch");
    execute = Web.execute client cfg;
  }

  unfoldable pub read_file_tool : Files W → Str → Tool W
  unfolding only
  read_file_tool files workspace = record {
    name = bytes "read_file";
    description =
        bytes
          "Read a file and return its contents with numbered lines. Use when you need to examine file contents.";
    parameters = only (bytes "path") (bytes "Path to the file to read");
    execute = read_file files workspace;
  }

  unfoldable pub write_file_tool : Files W → Str → Tool W
  unfolding schema property
  write_file_tool files workspace = record {
    name = bytes "write_file";
    description =
        bytes
          "Write content to a file. Creates the file if it doesn't exist, overwrites if it does.";
    parameters =
        schema
          (field (bytes "path") (property (bytes "string") (bytes "Path to the file to write")) (
            field (bytes "content")
              (property (bytes "string") (bytes "Content to write to the file")) end))
          (bytes "path" ∷ bytes "content" ∷ []);
    execute = write_file files workspace;
  }

  unfoldable pub remember_tool : Memory.Store W → Tool W
  unfolding only
  remember_tool store = record {
    name = bytes "remember";
    description =
        bytes
          "Append a fact, observation, or decision to long-term memory. Use this to preserve information that should survive the current session.";
    parameters = only (bytes "entry") (bytes "The fact or observation to remember");
    execute = Memory.execute store;
  }

  unfoldable pub rag_search_tool : Retrieval.Store W → WeaviateClient → RagConfig → Tool W
  unfolding schema property
  rag_search_tool store client config = record {
    name = bytes "rag_search";
    description =
        bytes
          "Search the document store for chunks semantically related to the query. Use this when the user's question requires information from indexed documents. Returns the top-k most relevant text chunks.";
    parameters =
        schema
          (field (bytes "query") (property (bytes "string") (bytes "The search query text")) (
            field (bytes "limit")
              (property (bytes "integer") (
                bytes "Number of chunks to return (default: "
                ++ (decimal config.default_limit
                    ++ (bytes ", max: " ++ (decimal config.max_limit ++ bytes ")")))))
              end))
          (bytes "query" ∷ []);
    execute = Retrieval.execute store client config;
  }

  -- A service's names are also the values of an enumeration.
  unfoldable pub fetch_document_tool : DocClient W → Services → Tool W
  unfolding schema property texts
  fetch_document_tool client services =
      let names = service_names client services in
      record {
        name = bytes "fetch_document";
        description =
            bytes
              "Fetch a document from a named document service by ID (e.g., DOC-001). Returns the document title and content. Available services: "
            ++ (join (bytes ", ") names ++ bytes ".");
        parameters =
            schema
              (field (bytes "service")
                (obj (
                  field (bytes "type") (str (bytes "string")) (
                    field (bytes "description") (str (bytes "Document service name"))
                      (field (bytes "enum") (arr (texts names)) end))))
                (field (bytes "document_id")
                  (property (bytes "string") (bytes "Document ID (e.g., DOC-001)")) end))
              (bytes "service" ∷ bytes "document_id" ∷ []);
        execute = Docs.execute client services;
      }

  -- The verified cards are a field of the tool: a part of the outside state, which `verified` reads
  -- and `keep` writes.
  unfoldable pub a2a_call_tool :
      Calls W → (W → Map Bool) → (Map Bool → W → W) → A2aCallTool → Tool W
  a2a_call_tool calls verified keep t = record {
    name = bytes "a2a_call";
    description = Call.description t;
    parameters = Call.parameters t;
    execute = λ args w.
        let (done, w') = Call.execute calls t args (verified w) w in (done.0, keep done.1 w');
  }

  unfoldable pub load_skill_tool :
      (W → Str → Result Str Str) → (Str → Str) → (W → Str → Option Entries) → Str → Tool W
  unfolding only
  load_skill_tool read quoted tree skills_dir = record {
    name = bytes "load_skill";
    description =
        bytes
          "Load the full instructions for a skill by name. Use this when you need specialized guidance for a task.";
    parameters = only (bytes "name") (bytes "The skill name to load");
    execute = λ args w.
        let name : Str = elim (as_str (lookup (bytes "name") args)) [ none ↦ [] | some s ↦ s ] in
        if name == []
        then (errorf (bytes "skill name is required"), w)
        else elim (load_content (read w) quoted skills_dir (tree w skills_dir) name) [
          | err e ↦ (errorf e, w)
          | ok text ↦ (record { output = text; error = false }, w)
        ];
  }
