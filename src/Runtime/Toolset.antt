-- ===== src/Runtime/Toolset.antt =====
-- runtime.go, buildRuntime: the registry of an agent, part by part.
pub mod Allowed
pub mod Later
pub mod Commands
pub mod Servers
use docsclaw.Base.{
  ℕ, Str, bytes, ◌==◌, join, any, Map, map, ℤ, pos, negsuc, ltb, is_some, Option, none, some, List,
  [], ◌∷◌, ◌++◌, reverse, Bool, true, false, not, ◌&&◌, if◌then◌else◌, Result, ok, err, ◌>>=◌,
}
use docsclaw.AgentContext.{new_loader, resolve_profile}
use docsclaw.AgentContext
use docsclaw.FetchTools.Exec.{Shell}
use docsclaw.FetchTools.Web.{WebClient}
use docsclaw.FetchTools.Docs.{DocClient}
use docsclaw.FileTools.{Files}
use docsclaw.Llm.{Message, Provider}
use docsclaw.Manifests.{ToolsJson, ToolJsonEntry}
use docsclaw.McpClient.{Mcp, ServerConn, new_manager, tools, close_all}
use docsclaw.Memory.{Disk, file_store, Contents}
use docsclaw.Peers.Call.{Calls, Peer, new}
use docsclaw.Providers.Config.{LlmConfig, Registered, new_provider}
use docsclaw.Retrieval
use docsclaw.Retrieval.{RagConfig, WeaviateClient, new_client}
use docsclaw.Skills.Cards.{SkillYaml, to_agent_skills, merge_skills}
use docsclaw.Skills.Loader.{Entries, SkillMeta, discover, build_summary}
use docsclaw.Tools.{
  Tool, Hook, Registry, LoopConfig, Runtime, default_loop_config, new_registry, register,
  register_always_allowed, run_tool_loop,
}
use docsclaw.Runtime.AgentConfig.{
  AgentConfig, A2aPeer, ConfigCodec, to_loop_config, load_agent_config,
}
use docsclaw.Runtime.BuiltIns.{
  exec_tool, web_fetch_tool, read_file_tool, write_file_tool, remember_tool, rag_search_tool,
  fetch_document_tool, a2a_call_tool, load_skill_tool,
}
use docsclaw.Runtime.ConfigDir.{
  AgentCard, DirCodec, CmdConfig, sanitize_tool_name, resolve_workspace, load_system_prompt,
  load_agent_card, load_prompt_variants, load_tools_json, select_prompt,
}

-- All that the parts need from outside: the packages and services that each one's parameters stand
-- for, the tree below a directory, and the tool a2a_call's own state.
pub record World (W H S : Type 0) : Type 0 where
  pub config : ConfigCodec
  pub dir : DirCodec
  pub read_file : W → Str → Contents
  pub read_text : W → Str → Result Str Str
  pub read_context : W → Str → Str → Option Str
  pub mkdir_all : Str → W → Option Str × W
  pub shell : Shell W
  pub web : WebClient W
  pub files : Files W
  pub disk : Disk W H
  pub mcp : Mcp W S
  pub rag : Retrieval.Store W
  pub docs : DocClient W
  pub calls : Calls W
  pub verified : W → Map Bool
  pub keep_verified : Map Bool → W → W
  pub providers : Registered (Provider W)
  pub tree : W → Str → Option Entries
  pub description_in : Str → Option Str
  pub yaml_in : W → Str → Option SkillYaml

pub register_all : {W : Type 0} → List (Tool W) → Registry W → Registry W
register_all [] r = r
register_all (t ∷ ts) r = register_all ts (register_always_allowed t r)

-- The timeout of a call is left out of a `Peer`.
peer_of : A2aPeer → Peer
peer_of p = record {
  name = p.name;
  url = p.url;
  description = p.description;
  card_key = p.card_key;
}

module _ {W H S : Type 0} (world : World W H S) where
  -- The tools that every agent with an agent-config.yaml has registered.
  pub base_registry : AgentConfig → Str → Registry W
  base_registry a workspace =
      let memory = file_store world.disk (world.dir.join_path workspace (bytes "MEMORY.md")) in
      register (remember_tool memory) (
        register (write_file_tool world.files workspace) (
          register (read_file_tool world.files workspace) (
            register (web_fetch_tool world.web (record { allowed_hosts = a.tools.allowed_hosts }))
              (register (exec_tool world.shell a.tools.exec) (new_registry a.tools.allowed)))))

  pub with_rag : Option (WeaviateClient × RagConfig) → Registry W → Registry W
  with_rag none r = r
  with_rag (some (client, config)) r =
      register_always_allowed (rag_search_tool world.rag client config) r

  pub with_services : Map Str → Registry W → Registry W
  with_services [] r = r
  with_services services r = register (fetch_document_tool world.docs services) r

  -- Only where it is listed by name, and there are peers.
  pub with_peers : List Str → List A2aPeer → Registry W → Registry W
  with_peers allowed [] r = r
  with_peers allowed peers r =
      if any (λ n. n == bytes "a2a_call") allowed
      then register
          (a2a_call_tool world.calls world.verified world.keep_verified (new (map peer_of peers))) r
      else r

  pub with_skills : Str → List SkillMeta → Registry W → Registry W
  with_skills skills_dir [] r = r
  with_skills skills_dir found r =
      register_always_allowed
        (load_skill_tool world.read_text world.config.quoted world.tree skills_dir) r

  unfoldable pub agent_registry :
      AgentConfig
      → Str
      → Str
      → List (ServerConn S)
      → Option (WeaviateClient × RagConfig)
      → List SkillMeta
      → Registry W
  unfolding peer_of base_registry register_all with_rag with_services with_peers with_skills
  agent_registry a workspace skills_dir servers rag found = with_skills skills_dir found (
      with_peers a.tools.allowed a.a2a_peers (
        with_services a.document_services
          (with_rag rag (register_all (tools world.mcp servers) (base_registry a workspace)))))

  unfoldable pub rag_of : Option AgentConfig → Result Str (Option (WeaviateClient × RagConfig))
  rag_of none = ok none
  rag_of (some a) = elim (a.rag) [
    | none ↦ ok none
    | some c ↦ elim (new_client world.config.quoted c) [
      | err e ↦ err (bytes "rag: " ++ e)
      | ok made ↦ ok (some made)
    ]
  ]
