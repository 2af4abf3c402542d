-- ===== src/Runtime/Build/Allowed.antt =====
-- runtime.go: which tools the agent that is built can call.
use docsclaw.Base.{
  has, List-cases, ℕ, get_elem?, IsDistinct, map, [], ◌∷◌, false, Str, bytes, sym, none,
  if◌then◌else◌, Option, Option-cases, some, List, ◌≡◌, inl, inr, arith, Result-cases, ok, err, ap,
  subst, ◌∙◌,
}
use docsclaw.Llm.{Provider}
use docsclaw.McpClient.{ServerConn, tools, new_manager}
use docsclaw.McpClient.Names.{new_manager-IsDistinct}
use docsclaw.Retrieval.{RagConfig, WeaviateClient}
use docsclaw.Skills.Loader.{SkillMeta, discover}
use docsclaw.Tools.Entries.{is_permitted}
use docsclaw.Runtime.BuiltIns.{exec_tool}
use docsclaw.Runtime.Toolset.Later.{later_names}
use docsclaw.Runtime.Toolset.Servers.{get-agent_registry_of_server}
use docsclaw.Runtime.Toolset.Commands.{get-agent_registry}
use docsclaw.Tools.{Tool, Registry, get}
use docsclaw.Runtime.AgentConfig.{AgentConfig}
use docsclaw.Runtime.ConfigDir.{CmdConfig}
use docsclaw.Runtime.Build.{
  AgentRuntime, build_runtime, Loaded, load_files, connected, chosen_provider, assembled,
  failed_with, with_servers, workspace_of, skills_dir_of,
}
use docsclaw.Runtime.Toolset.{World, agent_registry, rag_of}
use docsclaw.Runtime.Toolset.Allowed.{IsAllowed, agent_registry-IsAllowed}

module _ {W H S : Type 0} (world : World W H S) where
  -- How a runtime comes about.
  record IsBuilt (cfg : CmdConfig) (rt : AgentRuntime W S) : Type 0 where
    files : Loaded
    servers : List (ServerConn S)
    provider : Option (Provider W)
    rag : Option (WeaviateClient × RagConfig)
    at : W
    made : rag_of world files.agent_cfg ≡ ok rag
    distinct : IsDistinct (map (λ (t : Tool W). t.name) (tools world.mcp servers))
    same : assembled world cfg files servers provider rag at ≡ rt

  connected-IsDistinct :
      (agent_cfg : Option AgentConfig) (ws : Str) (w w' : W) (servers : List (ServerConn S))
      → connected world agent_cfg ws w ≡ some (ok servers, w')
      → IsDistinct (map (λ (t : Tool W). t.name) (tools world.mcp servers))
  unfolding connected tools
  connected-IsDistinct none ws w w' servers h =
      subst (λ s. IsDistinct (map (λ (t : Tool W). t.name) (tools world.mcp s)))
        (let same : [] ≡ servers = ground (arith, h) in same) tt
  connected-IsDistinct (some a) ws w w' servers h = elim (Option-cases (world.mkdir_all ws w).0) [
    | inr (x, e) ↦ absurd (ground (arith, h, e))
    | inl e ↦ elim (List-cases (a.tools.mcp)) [
      | inl f ↦
          subst (λ s. IsDistinct (map (λ (t : Tool W). t.name) (tools world.mcp s)))
            (let same : [] ≡ servers = ground (arith, h, e, f) in same) tt
      | inr (c, cs, f) ↦
          elim (Option-cases (new_manager world.mcp (c ∷ cs) (world.mkdir_all ws w).1)) [
            | inl g ↦ absurd (ground (arith, h, e, f, g))
            | inr ((err x, w1), g) ↦ absurd (ground (arith, h, e, f, g))
            | inr ((ok found, w1), g) ↦
                subst (λ s. IsDistinct (map (λ (t : Tool W). t.name) (tools world.mcp s)))
                  (let same : found ≡ servers = ground (arith, h, e, f, g) in same)
                  (new_manager-IsDistinct world.mcp (c ∷ cs) (world.mkdir_all ws w).1 found w1 g)
          ]
    ]
  ]

  with_servers-IsBuilt :
      (override : Option (Provider W)) (cfg : CmdConfig) (files : Loaded)
      (servers : List (ServerConn S)) (w : W) (rt : AgentRuntime W S)
      → IsDistinct (map (λ (t : Tool W). t.name) (tools world.mcp servers))
      → (with_servers world override cfg files servers w).0 ≡ ok rt
      → IsBuilt cfg rt
  unfolding with_servers failed_with
  with_servers-IsBuilt override cfg files servers w rt distinct h =
      elim (Result-cases (chosen_provider world override cfg.llm)) [
        | inl (x, e) ↦ absurd (ground (arith, h, e))
        | inr (provider, e) ↦ elim (Result-cases (rag_of world files.agent_cfg)) [
          | inl (x, f) ↦ absurd (ground (arith, h, e, f))
          | inr (rag, f) ↦ record {
            files = files;
            servers = servers;
            provider = provider;
            rag = rag;
            at = w;
            made = f;
            distinct = distinct;
            same = ground (arith, h, e, f);
          }
        ]
      ]

  build_runtime-IsBuilt :
      (override : Option (Provider W)) (cfg : CmdConfig) (w w' : W) (rt : AgentRuntime W S)
      → build_runtime world override cfg w ≡ some (ok rt, w')
      → IsBuilt cfg rt
  unfolding build_runtime
  build_runtime-IsBuilt override cfg w w' rt h = elim (Result-cases (load_files world cfg w)) [
    | inl (x, e) ↦ absurd (ground (arith, h, e))
    | inr (files, e) ↦
        elim (Option-cases (connected world files.agent_cfg (workspace_of cfg files.agent_cfg) w)) [
          | inl f ↦ absurd (ground (arith, h, e, f))
          | inr ((err x, w1), f) ↦ absurd (ground (arith, h, e, f))
          | inr ((ok servers, w1), f) ↦
              with_servers-IsBuilt override cfg files servers w1 rt
                (connected-IsDistinct files.agent_cfg (workspace_of cfg files.agent_cfg) w w1
                  servers f)
                (ground (arith, h, e, f))
        ]
  ]

  -- The registry of a runtime, by what it was made of.
  registry_of :
      (cfg : CmdConfig) (rt : AgentRuntime W S) (a : AgentConfig) (r : Registry W)
      (b : IsBuilt cfg rt)
      → rt.agent_cfg ≡ some a
      → rt.registry ≡ some r
      → (ws sd : Str) × (found : List SkillMeta) × (agent_registry world a ws sd b.servers b.rag
            found
          ≡ r)
  unfolding assembled
  registry_of cfg rt a r b e f =
      let chosen : b.files.agent_cfg ≡ some a =
        ap (λ (x : AgentRuntime W S). x.agent_cfg) b.same ∙ e in
      let ws = workspace_of cfg b.files.agent_cfg in
      let sd = skills_dir_of world cfg b.files.agent_cfg in
      let found = discover world.description_in sd (world.tree b.at sd) in
      (ws, sd, found, ground (arith, chosen, ap (λ (x : AgentRuntime W S). x.registry) b.same ∙ f))

  of_built :
      (cfg : CmdConfig) (rt : AgentRuntime W S) (a : AgentConfig) (r : Registry W) (n : Str)
      (t : Tool W)
      → IsBuilt cfg rt
      → rt.agent_cfg ≡ some a
      → rt.registry ≡ some r
      → get r n ≡ some t
      → IsAllowed world a rt.closers n
  unfolding assembled
  of_built cfg rt a r n t b e f g =
      let chosen : b.files.agent_cfg ≡ some a =
        ap (λ (x : AgentRuntime W S). x.agent_cfg) b.same ∙ e in
      let (ws, sd, found, same) = registry_of cfg rt a r b e f in
      subst (λ servers. IsAllowed world a servers n)
        (ap (λ (x : AgentRuntime W S). x.closers) b.same)
        (agent_registry-IsAllowed world a ws sd b.servers b.rag found n t
          (subst (λ c. rag_of world c ≡ ok b.rag) chosen b.made) (ap (λ x. get x n) same ∙ g))

  -- Every tool that an agent which was built can call is one that the list of its configuration
  -- names, or a tool of one of its MCP servers, or rag_search where retrieval is configured, or
  -- load_skill; unless the list is empty.
  pub build_runtime-IsAllowed :
      (override : Option (Provider W)) (cfg : CmdConfig) (w w' : W) (rt : AgentRuntime W S)
      (a : AgentConfig) (r : Registry W) (n : Str) (t : Tool W)
      → build_runtime world override cfg w ≡ some (ok rt, w')
      → rt.agent_cfg ≡ some a
      → rt.registry ≡ some r
      → get r n ≡ some t
      → IsAllowed world a rt.closers n
  build_runtime-IsAllowed override cfg w w' rt a r n t h e f g =
      of_built cfg rt a r n t (build_runtime-IsBuilt override cfg w w' rt h) e f g

  -- An agent that was built has a tool under the name exec exactly if the list of its configuration
  -- is empty or names exec, and then it is the one that the configuration describes, whatever tools
  -- the MCP servers offer and whatever else is registered.
  pub build_runtime-exec :
      (override : Option (Provider W)) (cfg : CmdConfig) (w w' : W) (rt : AgentRuntime W S)
      (a : AgentConfig) (r : Registry W)
      → build_runtime world override cfg w ≡ some (ok rt, w')
      → rt.agent_cfg ≡ some a
      → rt.registry ≡ some r
      → get r (bytes "exec") ≡ (
          if is_permitted (bytes "exec") a.tools.allowed
          then some (exec_tool world.shell a.tools.exec)
          else none)
  build_runtime-exec override cfg w w' rt a r h e f =
      let b = build_runtime-IsBuilt override cfg w w' rt h in
      let (ws, sd, found, same) = registry_of cfg rt a r b e f in
      ap (λ x. get x (bytes "exec")) (sym same)
      ∙ get-agent_registry world a ws sd b.servers b.rag found

  -- Every tool of the MCP servers of an agent that was built can be called under its name, whatever
  -- the list of allowed tools says: it takes the place of a built-in tool of that name, unless the
  -- name is one of the four that are registered behind, rag_search, fetch_document, a2a_call and
  -- load_skill.
  pub build_runtime-get_of_server :
      (override : Option (Provider W)) (cfg : CmdConfig) (w w' : W) (rt : AgentRuntime W S)
      (a : AgentConfig) (r : Registry W) (i : ℕ) (t : Tool W)
      → build_runtime world override cfg w ≡ some (ok rt, w')
      → rt.agent_cfg ≡ some a
      → rt.registry ≡ some r
      → get_elem? (tools world.mcp rt.closers) i ≡ some t
      → has t.name later_names ≡ false
      → get r t.name ≡ some t
  unfolding assembled
  build_runtime-get_of_server override cfg w w' rt a r i t h e f at other =
      let b = build_runtime-IsBuilt override cfg w w' rt h in
      let (ws, sd, found, same) = registry_of cfg rt a r b e f in
      ap (λ x. get x t.name) (sym same)
      ∙ get-agent_registry_of_server world a ws sd b.servers b.rag found i t b.distinct
          (ap (λ (x : AgentRuntime W S). get_elem? (tools world.mcp x.closers) i) b.same ∙ at) other
