-- ===== src/Runtime/Build/Replaced.antt =====
-- An agent whose MCP server offers a tool under the name of a built-in one.
use docsclaw.Base.{
  has, ℕ, bytes, ◌==◌, lookup, insert, some, none, ok, [], ◌≡◌, refl, false, get_elem?,
}
use docsclaw.Text.{trim_space}
use docsclaw.McpClient.{tool_of, tools, mcp_tool, new_manager}
use docsclaw.McpClient.Examples.{sdk, configs, servers}
use docsclaw.Peers.Card.{load_card_public_key}
use docsclaw.Skills.Loader.{discover}
use docsclaw.Tools.{Tool, Registry, get}
use docsclaw.Runtime.Toolset.Later.{later_names}
use docsclaw.Runtime.AgentConfig.{AgentConfig, load_agent_config}
use docsclaw.Runtime.AgentConfig.Examples.{loaded}
use docsclaw.Runtime.ConfigDir.{
  fallback_card, resolve_workspace, load_system_prompt, load_agent_card, load_prompt_variants,
}
use docsclaw.Runtime.Build.{
  AgentRuntime, Loaded, assembled, workspace_of, skills_dir_of, build_runtime,
}
use docsclaw.Runtime.Build.Allowed.{build_runtime-get_of_server}
use docsclaw.Runtime.Samples.{agent_config, config_codec, world, cmd_config}
use docsclaw.Runtime.Toolset.{World, agent_registry}

abbrev with_server : AgentConfig → AgentConfig
with_server a = record a { tools = record a.tools { mcp = configs } }

abbrev serving : World ℕ ℕ ℕ
serving = record world {
  config = record config_codec { unmarshal = λ s. ok (with_server agent_config) };
}

abbrev files : Loaded
files = record {
  prompt = bytes "Be kind.";
  card = fallback_card;
  variants = [];
  agent_cfg = some (with_server loaded);
}

abbrev built : AgentRuntime ℕ ℕ
built = assembled serving cmd_config files servers none none 2

is_built : build_runtime serving none cmd_config 0 ≡ some (ok built, 2)
unfolding build_runtime load_system_prompt load_agent_card load_prompt_variants load_agent_config
    load_card_public_key new_manager trim_space lookup insert bytes ◌==◌
is_built = refl

is_configured : built.agent_cfg ≡ some (with_server loaded)
unfolding assembled
is_configured = refl

abbrev registry : Registry ℕ
registry =
    agent_registry serving (with_server loaded) (bytes "/w") (bytes "/c/skills") servers none []

has_registry : built.registry ≡ some registry
unfolding assembled discover workspace_of skills_dir_of resolve_workspace trim_space bytes ◌==◌
has_registry = refl

abbrev fetch : Tool ℕ
fetch = tool_of sdk (
    mcp_tool sdk (bytes "web") 1
      (record { name = bytes "fetch"; description = []; input_schema = none }))

is_offered : get_elem? (tools sdk built.closers) 0 ≡ some fetch
unfolding assembled tools
is_offered = refl

is_other : has fetch.name later_names ≡ false
unfolding tool_of mcp_tool bytes ◌==◌
is_other = refl

-- web_fetch is not in the list, but is found, and is the server's.
build_runtime-get_of_server_example : get registry fetch.name ≡ some fetch
build_runtime-get_of_server_example =
    build_runtime-get_of_server serving none cmd_config 0 2 built (with_server loaded) registry 0
      fetch is_built is_configured has_registry is_offered is_other

is_web_fetch : fetch.name ≡ bytes "web_fetch"
unfolding tool_of mcp_tool bytes
is_web_fetch = refl
