-- ===== src/Runtime/Build.antt =====
-- internal/cmd/runtime.go: buildRuntime puts the agent together.
pub mod Conversation
pub mod Allowed
pub mod Examples
pub mod Replaced
use docsclaw.Base.{
  ℕ, Str, bytes, ◌==◌, join, any, Map, map, ℤ, pos, negsuc, ltb, is_some, Option, none, some, List,
  [], ◌∷◌, ◌++◌, reverse, Bool, true, false, not, ◌&&◌, if◌then◌else◌, Result, ok, err, ◌>>=◌,
}
use docsclaw.AgentContext.{new_loader, resolve_profile}
use docsclaw.AgentContext
use docsclaw.FetchTools.Exec.{Shell}
use docsclaw.FetchTools.Web.{WebClient}
use docsclaw.FetchTools.Docs.{DocClient}
use docsclaw.FileTools.{Files}
use docsclaw.Llm.{Message, Provider}
use docsclaw.Manifests.{ToolsJson, ToolJsonEntry}
use docsclaw.McpClient.{Mcp, ServerConn, new_manager, tools, close_all}
use docsclaw.Memory.{Disk, file_store, Contents}
use docsclaw.Peers.Call.{Calls, Peer, new}
use docsclaw.Providers.Config.{LlmConfig, Registered, new_provider}
use docsclaw.Retrieval
use docsclaw.Retrieval.{RagConfig, WeaviateClient, new_client}
use docsclaw.Skills.Cards.{SkillYaml, to_agent_skills, merge_skills}
use docsclaw.Skills.Loader.{Entries, SkillMeta, discover, build_summary}
use docsclaw.Tools.{
  Tool, Hook, Registry, LoopConfig, Runtime, default_loop_config, new_registry, register,
  register_always_allowed, run_tool_loop,
}
use docsclaw.Runtime.AgentConfig.{
  AgentConfig, A2aPeer, ConfigCodec, to_loop_config, load_agent_config,
}
use docsclaw.Runtime.BuiltIns.{
  exec_tool, web_fetch_tool, read_file_tool, write_file_tool, remember_tool, rag_search_tool,
  fetch_document_tool, a2a_call_tool, load_skill_tool,
}
use docsclaw.Runtime.Toolset.{World, agent_registry, rag_of}
use docsclaw.Runtime.ConfigDir.{
  AgentCard, DirCodec, CmdConfig, sanitize_tool_name, resolve_workspace, load_system_prompt,
  load_agent_card, load_prompt_variants, load_tools_json, select_prompt,
}

-- What the four files of the directory hold, in the order in which they are read.
pub record Loaded : Type 0 where
  pub prompt : Str
  pub card : AgentCard
  pub variants : Map Str
  pub agent_cfg : Option AgentConfig

-- `closers` has the servers that are closed with the runtime.
pub record AgentRuntime (W S : Type 0) : Type 0 where
  pub cfg : CmdConfig
  pub agent_cfg : Option AgentConfig
  pub provider : Option (Provider W)
  pub registry : Option (Registry W)
  pub loop_config : LoopConfig W
  pub agent_card : AgentCard
  pub prompt_variants : Map Str
  pub base_prompt : Str
  pub skills_summary : Str
  pub closers : List (ServerConn S)

pub system_prompt : {W S : Type 0} → AgentRuntime W S → Str
system_prompt rt = rt.base_prompt ++ rt.skills_summary

-- The names that are left of the inventory's.
clean_names : List ToolJsonEntry → List Str
clean_names [] = []
clean_names (t ∷ ts) =
    let rest = clean_names ts in
    let clean = sanitize_tool_name t.name in if clean == [] then rest else clean ∷ rest

workspace_of : CmdConfig → Option AgentConfig → Str
workspace_of cfg none = resolve_workspace [] cfg.workspace
workspace_of cfg (some a) = resolve_workspace a.tools.workspace cfg.workspace

module _ {W H S : Type 0} (world : World W H S) where
  -- An agent that was configured with its MCP servers, and what remains outside.
  connected : Option AgentConfig → Str → W → Option (Result Str (List (ServerConn S)) × W)
  connected none workspace w = some (ok [], w)
  connected (some a) workspace w =
      let (failed, w') = world.mkdir_all workspace w in
      elim failed [
        | some e ↦ some (err (bytes "failed to create workspace: " ++ e), w')
        | none ↦ elim (a.tools.mcp) [
          | [] ↦ some (ok [], w')
          | c ∷ cs ↦ elim (new_manager world.mcp (c ∷ cs) w') [
            | none ↦ none
            | some (err e, w'') ↦ some (err (bytes "failed to connect to MCP servers: " ++ e), w'')
            | some (ok servers, w'') ↦ some (ok servers, w'')
          ]
        ]
      ]

  chosen_provider : Option (Provider W) → LlmConfig → Result Str (Option (Provider W))
  chosen_provider (some p) llm = ok (some p)
  chosen_provider none llm =
      if llm.api_key == [] then ok none else (elim (new_provider world.providers llm) [
        | err e ↦ err (bytes "failed to create LLM provider: " ++ e)
        | ok p ↦ ok (some p)
      ])

  -- Flag, configuration, default.
  skills_dir_of : CmdConfig → Option AgentConfig → Str
  skills_dir_of cfg agent_cfg =
      let configured : Str = elim agent_cfg [ none ↦ [] | some a ↦ a.skills_dir ] in
      if not (cfg.skills_dir == [])
      then cfg.skills_dir
      else if not (configured == [])
      then configured
      else world.dir.join_path cfg.config_dir (bytes "skills")

  inventory_text : W → Str
  unfolding clean_names
  inventory_text w =
      elim (load_tools_json world.dir (world.read_file w) (bytes "/etc/docsclaw/tools.json")) [
        | err _ ↦ []
        | ok none ↦ []
        | ok (some tj) ↦
            bytes "\n\nAvailable OS tools: "
            ++ (join (bytes ", ") (clean_names tj.tools)
                ++ bytes "\nDo NOT attempt to use tools not in this list.")
      ]

  workspace_text : Option AgentConfig → Str → Str
  workspace_text none workspace = []
  workspace_text (some _) workspace =
      bytes "\n\nYour workspace directory is " ++ (workspace ++ bytes ". Always write files there.")

  with_card_skills : W → List SkillMeta → AgentCard → AgentCard
  with_card_skills w [] card = card
  with_card_skills w found card = record card {
    skills = merge_skills card.skills (to_agent_skills (world.yaml_in w) found);
  }

  summary_of : Option AgentConfig → List SkillMeta → Str
  summary_of none found = []
  summary_of (some _) [] = []
  summary_of (some _) found = build_summary found

  load_files : CmdConfig → W → Result Str Loaded
  load_files cfg w = load_system_prompt world.dir (world.read_file w) cfg.config_dir >>= λ prompt.
      load_agent_card world.dir (world.read_file w) cfg.config_dir >>= λ card.
      load_prompt_variants world.dir (world.read_file w) cfg.config_dir >>= λ variants.
      load_agent_config world.config (world.read_file w) cfg.config_dir >>= λ agent_cfg.
      ok (record { prompt = prompt; card = card; variants = variants; agent_cfg = agent_cfg })

  -- `buildRuntime` behind all that may fail.
  assembled :
      CmdConfig
      → Loaded
      → List (ServerConn S)
      → Option (Provider W)
      → Option (WeaviateClient × RagConfig)
      → W
      → AgentRuntime W S
  unfolding inventory_text workspace_text with_card_skills summary_of skills_dir_of agent_registry
  assembled cfg files servers provider rag w =
      let workspace = workspace_of cfg files.agent_cfg in
      let skills_dir = skills_dir_of cfg files.agent_cfg in
      let found = discover world.description_in skills_dir (world.tree w skills_dir) in
      let profile = (resolve_profile cfg.workspace_profile).0 in
      record {
        cfg = cfg;
        agent_cfg = files.agent_cfg;
        provider = provider;
        registry = elim (files.agent_cfg) [
          | none ↦ none
          | some a ↦ some (agent_registry world a workspace skills_dir servers rag found)
        ];
        loop_config = elim (files.agent_cfg) [
          | none ↦ record { max_iterations = 0; max_result_bytes = 0; hook = none }
          | some a ↦ to_loop_config a
        ];
        agent_card = with_card_skills w found files.card;
        prompt_variants = files.variants;
        base_prompt =
            files.prompt
            ++ (workspace_text files.agent_cfg workspace
                ++ (AgentContext.load new_loader (world.read_context w workspace) profile
                    ++ inventory_text w));
        skills_summary = summary_of files.agent_cfg found;
        closers = servers;
      }

  -- On an error the servers that were connected are closed.
  failed_with : List (ServerConn S) → Str → W → Result Str (AgentRuntime W S) × W
  failed_with servers e w = (err e, (close_all world.mcp servers w).1)

  with_servers :
      Option (Provider W)
      → CmdConfig
      → Loaded
      → List (ServerConn S)
      → W
      → Result Str (AgentRuntime W S) × W
  unfolding assembled failed_with chosen_provider rag_of
  with_servers override cfg files servers w = elim (chosen_provider override cfg.llm) [
    | err e ↦ failed_with servers e w
    | ok provider ↦ elim (rag_of world files.agent_cfg) [
      | err e ↦ failed_with servers e w
      | ok rag ↦ (ok (assembled cfg files servers provider rag w), w)
    ]
  ]

  -- `none` is a panic; `override` is the provider of the options.
  pub build_runtime :
      Option (Provider W) → CmdConfig → W → Option (Result Str (AgentRuntime W S) × W)
  unfolding load_files connected with_servers workspace_of
  build_runtime override cfg w = elim (load_files cfg w) [
    | err e ↦ some (err e, w)
    | ok files ↦ elim (connected files.agent_cfg (workspace_of cfg files.agent_cfg) w) [
      | none ↦ none
      | some (err e, w') ↦ some (err e, w')
      | some (ok servers, w') ↦ some (with_servers override cfg files servers w')
    ]
  ]
