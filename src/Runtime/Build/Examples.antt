-- ===== src/Runtime/Build/Examples.antt =====
-- An agent whose list names exec, and a call of it.
use docsclaw.Base.{ℕ, bytes, ◌==◌, lookup, insert, if◌then◌else◌, some, none, ok, [], ◌≡◌, refl}
use docsclaw.Text.{trim_space}
use docsclaw.Peers.Card.{load_card_public_key}
use docsclaw.McpClient.{tools}
use docsclaw.Skills.Loader.{discover}
use docsclaw.Tools.{Registry, new_registry, register, hidden, get}
use docsclaw.Tools.Entries.{is_permitted}
use docsclaw.Runtime.AgentConfig.{load_agent_config}
use docsclaw.Runtime.AgentConfig.Examples.{loaded}
use docsclaw.Runtime.BuiltIns.{
  exec_tool, web_fetch_tool, read_file_tool, write_file_tool, remember_tool, fetch_document_tool,
}
use docsclaw.Runtime.ConfigDir.{
  fallback_card, resolve_workspace, load_system_prompt, load_agent_card, load_prompt_variants,
}
use docsclaw.Runtime.Build.{
  AgentRuntime, Loaded, assembled, workspace_of, skills_dir_of, build_runtime,
}
use docsclaw.Runtime.Build.Allowed.{build_runtime-IsAllowed, build_runtime-exec}
use docsclaw.Runtime.Toolset.{agent_registry}
use docsclaw.Runtime.Toolset.Allowed.{IsAllowed}
use docsclaw.Runtime.Samples.{world, cmd_config}

abbrev files : Loaded
files = record {
  prompt = bytes "Be kind.";
  card = fallback_card;
  variants = [];
  agent_cfg = some loaded;
}

abbrev built : AgentRuntime ℕ ℕ
built = assembled world cmd_config files [] none none 0

is_built : build_runtime world none cmd_config 0 ≡ some (ok built, 0)
unfolding build_runtime load_system_prompt load_agent_card load_prompt_variants load_agent_config
    load_card_public_key trim_space bytes ◌==◌
is_built = refl

is_configured : built.agent_cfg ≡ some loaded
unfolding assembled
is_configured = refl

abbrev registry : Registry ℕ
registry = agent_registry world loaded (bytes "/w") (bytes "/c/skills") [] none []

has_registry : built.registry ≡ some registry
unfolding assembled discover workspace_of skills_dir_of resolve_workspace trim_space bytes ◌==◌
has_registry = refl

has_exec : get registry (bytes "exec") ≡ some (exec_tool world.shell loaded.tools.exec)
unfolding agent_registry get hidden new_registry register tools lookup insert bytes ◌==◌ exec_tool
    web_fetch_tool read_file_tool write_file_tool remember_tool fetch_document_tool
has_exec = refl

build_runtime-IsAllowed_example : IsAllowed world loaded built.closers (bytes "exec")
build_runtime-IsAllowed_example =
    build_runtime-IsAllowed world none cmd_config 0 0 built loaded registry (bytes "exec")
      (exec_tool world.shell loaded.tools.exec) is_built is_configured has_registry has_exec

build_runtime-exec_example : get registry (bytes "exec") ≡ (
    if is_permitted (bytes "exec") loaded.tools.allowed
    then some (exec_tool world.shell loaded.tools.exec)
    else none)
build_runtime-exec_example =
    build_runtime-exec world none cmd_config 0 0 built loaded registry is_built is_configured
      has_registry
