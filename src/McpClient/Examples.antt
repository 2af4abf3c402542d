-- ===== src/McpClient/Examples.antt =====
-- One server with two tools, one of which has the name of a built-in tool once it is prefixed.
use docsclaw.Base.{
  IsDistinct, ℕ, suc, bytes, ◌==◌, lookup, insert, none, some, ok, List, [], ◌∷◌, map, ◌≡◌, refl,
  false,
}
use docsclaw.Tools.{Tool}
use docsclaw.McpClient.{
  Mcp, McpServerConfig, ListedTool, ServerConn, tools, new_manager, entries_of, validate,
  new_transport, new_manager_from_transports, discover_tools, mcp_tool,
}
use docsclaw.McpClient.Names.{new_manager-IsDistinct}

abbrev pub listed : List ListedTool
listed =
    record { name = bytes "fetch"; description = []; input_schema = none }
    ∷ record { name = bytes "search"; description = []; input_schema = some [] }
    ∷ []

abbrev pub sdk : Mcp ℕ ℕ
sdk = record {
  connect = λ transport w. (ok 1, suc w);
  list_tools = λ session w. (ok listed, suc w);
  call_tool = λ session name args w. (ok (record { content = []; is_error = false }), suc w);
  close = λ session w. (none, suc w);
  environ = [];
  map_order = λ m. m;
  quoted = λ s. s;
}

abbrev pub configs : List McpServerConfig
configs =
    record {
      name = bytes "web";
      transport = bytes "stdio";
      url = [];
      command = bytes "serve";
      args = [];
      env = [];
    }
    ∷ []

abbrev pub servers : List (ServerConn ℕ)
servers =
    record { name = bytes "web"; session = 1; tools = map (mcp_tool sdk (bytes "web") 1) listed }
    ∷ []

is_made : new_manager sdk configs 5 ≡ some (ok servers, 7)
unfolding new_manager entries_of validate new_transport new_manager_from_transports discover_tools
    mcp_tool bytes ◌==◌ lookup insert
is_made = refl

new_manager-IsDistinct_example : IsDistinct (map (λ (t : Tool ℕ). t.name) (tools sdk servers))
new_manager-IsDistinct_example = new_manager-IsDistinct sdk configs 5 servers 7 is_made
