-- ===== src/McpClient.antt =====
-- internal/mcpclient: the servers of the Model Context Protocol, and their tools.
pub mod Names
pub mod Examples
use docsclaw.Base.{
  Str, bytes, ◌==◌, join, Map, map, lookup, insert, any, Option, none, some, List, [], ◌∷◌, ◌++◌,
  Bool, false, or_else, if◌then◌else◌, Result, ok, err,
}
use docsclaw.Json.{Json, str}
use docsclaw.Tools.{Tool, ToolResult, errorf}

pub record McpServerConfig : Type 0 where
  pub name : Str
  pub transport : Str
  pub url : Str
  pub command : Str
  pub args : List Str
  pub env : Map Str

-- A command's environment is `none` where it is not set, and then that of the process.
pub data Transport : Type 0 where
  streamable : (endpoint : Str) → Transport
  process : (command : Str) → (args : List Str) → (env : Option (List Str)) → Transport

pub record ListedTool : Type 0 where
  pub name : Str
  pub description : Str
  pub input_schema : Option (Map Json)

pub data McpContent : Type 0 where
  text_content : Str → McpContent
  other_content : McpContent

pub record CallToolResult : Type 0 where
  pub content : List McpContent
  pub is_error : Bool

-- The SDK, with `S` for its sessions; the environment of the process; the order in which a Go map is
-- walked; `quoted` is %q.
pub record Mcp (W S : Type 0) : Type 0 where
  pub connect : Transport → W → Result Str S × W
  pub list_tools : S → W → Result Str (List ListedTool) × W
  pub call_tool : S → Str → Map Json → W → Result Str CallToolResult × W
  pub close : S → W → Option Str × W
  pub environ : List Str
  pub map_order : Map Str → Map Str
  pub quoted : Str → Str

pub record McpTool (S : Type 0) : Type 0 where
  pub prefix : Str
  pub name : Str
  pub description : Str
  pub schema : Map Json
  pub session : S

pub record ServerConn (S : Type 0) : Type 0 where
  pub name : Str
  pub session : S
  pub tools : List (McpTool S)

-- The texts among the contents; any other is skipped.
texts_of : List McpContent → List Str
texts_of [] = []
texts_of (text_content t ∷ rest) = t ∷ texts_of rest
texts_of (other_content ∷ rest) = texts_of rest

pub convert_result : CallToolResult → ToolResult
unfolding texts_of
convert_result result =
    let output = join (bytes "\n") (texts_of result.content) in
    if result.is_error then errorf output else record { output = output; error = false }

module _ {W S : Type 0} (mcp : Mcp W S) where
  -- `none` is nil.
  pub validate : McpServerConfig → Option Str
  validate c =
      if c.name == []
      then some (bytes "MCP server: name is required")
      else if c.transport == bytes "streamable_http"
      then (if c.url == []
          then some (
              bytes "MCP server "
              ++ (mcp.quoted c.name ++ bytes ": url is required for streamable_http transport"))
          else none)
      else if c.transport == bytes "stdio"
      then (if c.command == []
          then some (
              bytes "MCP server "
              ++ (mcp.quoted c.name ++ bytes ": command is required for stdio transport"))
          else none)
      else some (
          bytes "MCP server "
          ++ (mcp.quoted c.name
              ++ (bytes ": unsupported transport "
                  ++ (mcp.quoted c.transport
                      ++ bytes " (must be \"streamable_http\" or \"stdio\")"))))

  pub env_slice : Map Str → List Str
  env_slice env = map (λ entry. entry.0 ++ (bytes "=" ++ entry.1)) (mcp.map_order env)

  extended : Map Str → Option (List Str)
  unfolding env_slice
  extended [] = none
  extended (entry ∷ env) = some (mcp.environ ++ env_slice (entry ∷ env))

  -- `none` is the panic on any other transport.
  pub new_transport : McpServerConfig → Option Transport
  unfolding extended
  new_transport c =
      if c.transport == bytes "streamable_http"
      then some (streamable c.url)
      else if c.transport == bytes "stdio"
      then some (process c.command c.args (extended c.env))
      else none

  execute : McpTool S → Map Json → W → ToolResult × W
  execute t args w =
      let (called, w') = mcp.call_tool t.session t.name args w in
      (
        elim called [
          | err e ↦ errorf (bytes "MCP call failed: " ++ e)
          | ok result ↦ convert_result result
        ],
        w',
      )

  -- A tool as the registry holds it.
  unfoldable pub tool_of : McpTool S → Tool W
  unfolding execute
  tool_of t = record {
    name = t.prefix ++ (bytes "_" ++ t.name);
    description = t.description;
    parameters = t.schema;
    execute = execute t;
  }

  unfoldable pub mcp_tool : Str → S → ListedTool → McpTool S
  mcp_tool server session t = record {
    prefix = server;
    name = t.name;
    description = t.description;
    schema = or_else t.input_schema ((bytes "type", str (bytes "object")) ∷ []);
    session = session;
  }

  -- The loop over the tools of one server, with the servers of all tools so far.
  pub discover_tools : Str → S → List ListedTool → Map Str → Result Str (List (McpTool S) × Map Str)
  unfolding mcp_tool
  discover_tools server session [] seen = ok ([], seen)
  discover_tools server session (t ∷ listed) seen =
      let prefixed = server ++ (bytes "_" ++ t.name) in
      let rest = discover_tools server session listed (insert prefixed server seen) in
      elim (lookup prefixed seen) [
        | some existing ↦ err (
            bytes "MCP tool "
            ++ (mcp.quoted prefixed
                ++ (bytes ": already registered (from server "
                    ++ (mcp.quoted existing ++ bytes ")"))))
        | none ↦ elim rest [
          | err e ↦ err e
          | ok (found, seen') ↦ ok (mcp_tool server session t ∷ found, seen')
        ]
      ]

  -- Every session is closed; the last error is returned.
  close_from : Option Str → List (ServerConn S) → W → Option Str × W
  close_from last [] w = (last, w)
  close_from last (s ∷ servers) w =
      let (failed, w') = mcp.close s.session w in
      close_from (elim failed [ none ↦ last | some e ↦ some e ]) servers w'

  pub close_all : List (ServerConn S) → W → Option Str × W
  unfolding close_from
  close_all = close_from none

  -- The manager so far is closed where a server fails.
  given_up : List (ServerConn S) → Str → W → Result Str (List (ServerConn S)) × W
  unfolding close_all
  given_up servers e w = (err e, (close_all servers w).1)

  server_error : Str → Str → Str → Str
  server_error name what e =
      bytes "MCP server "
      ++ (mcp.quoted name ++ (bytes ": failed to " ++ (what ++ (bytes ": " ++ e))))

  pub new_manager_from_transports :
      List (Str × Transport)
      → List (ServerConn S)
      → Map Str
      → W
      → Result Str (List (ServerConn S)) × W
  unfolding given_up server_error discover_tools
  new_manager_from_transports [] servers seen w = (ok servers, w)
  new_manager_from_transports ((name, transport) ∷ entries) servers seen w =
      let (connected, w1) = mcp.connect transport w in
      elim connected [
        | err e ↦ given_up servers (server_error name (bytes "connect") e) w1
        | ok session ↦
            let (listed, w2) = mcp.list_tools session w1 in
            let conn = λ (found : List (McpTool S)).
              servers ++ record { name = name; session = session; tools = found } ∷ [] in
            elim listed [
              | err e ↦ given_up (conn []) (server_error name (bytes "list tools") e) w2
              | ok infos ↦ elim (discover_tools name session infos seen) [
                | err e ↦ given_up (conn []) e w2
                | ok (found, seen') ↦ new_manager_from_transports entries (conn found) seen' w2
              ]
            ]
      ]

  -- The transports of the configured servers; the outer `none` is a panic.
  pub entries_of : List Str → List McpServerConfig → Option (Result Str (List (Str × Transport)))
  unfolding validate new_transport
  entries_of seen [] = some (ok [])
  entries_of seen (c ∷ configs) =
      let rest = entries_of (c.name ∷ seen) configs in
      elim (validate c) [
        | some e ↦ some (err e)
        | none ↦
            if any (λ n. n == c.name) seen
            then some (err (bytes "MCP server " ++ (mcp.quoted c.name ++ bytes ": duplicate name")))
            else elim (new_transport c) [
              | none ↦ none
              | some transport ↦ elim rest [
                | none ↦ none
                | some (err e) ↦ some (err e)
                | some (ok entries) ↦ some (ok ((c.name, transport) ∷ entries))
              ]
            ]
      ]

  unfoldable pub new_manager :
      List McpServerConfig → W → Option (Result Str (List (ServerConn S)) × W)
  unfolding entries_of new_manager_from_transports
  new_manager configs w = elim (entries_of [] configs) [
    | none ↦ none
    | some (err e) ↦ some (err e, w)
    | some (ok entries) ↦ some (new_manager_from_transports entries [] [] w)
  ]

  unfoldable pub tools : List (ServerConn S) → List (Tool W)
  unfolding tool_of
  tools [] = []
  tools (s ∷ servers) = map tool_of s.tools ++ tools servers
