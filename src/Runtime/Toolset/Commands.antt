-- ===== src/Runtime/Toolset/Commands.antt =====
-- runtime.go: what an agent's registry has under the name exec.
use docsclaw.Base.{
  has, All, All-append, Str, bytes, ◌==◌, eq_iff, any, any-append, map, eqb, Option, none, some,
  List, [], ◌∷◌, ◌++◌, Bool, true, false, ◌≡◌, refl, ap, ◌∙◌, arith, Bool-cases, inl, inr,
  if◌then◌else◌,
}
use docsclaw.McpClient.{Mcp, ServerConn, McpTool, tool_of, tools}
use docsclaw.Retrieval.{RagConfig, WeaviateClient}
use docsclaw.Skills.Loader.{SkillMeta}
use docsclaw.Tools.{Tool, get}
use docsclaw.Tools.Entries.{
  entry, is_permitted, entry-new_registry, entry-register_same, entry-register_other, get-entry,
}
use docsclaw.Runtime.Toolset.Later.{later_names, entry-register_all, entry-agent_registry}
use docsclaw.Runtime.AgentConfig.{AgentConfig}
use docsclaw.Runtime.BuiltIns.{
  exec_tool, web_fetch_tool, read_file_tool, write_file_tool, remember_tool,
}
use docsclaw.Runtime.Toolset.{World, base_registry, agent_registry}
use docsclaw.Runtime.Toolset.Allowed.{agent_registry-IsKept}

abbrev exec : Str
exec = bytes "exec"

has_underscore : Str → Bool
has_underscore s = any (eqb 95) s

no_later : has exec later_names ≡ false
unfolding bytes ◌==◌
no_later = refl

-- A name with an underscore is another one.
other_of_underscore : (s : Str) → has_underscore s ≡ true → (s == exec) ≡ false
unfolding has_underscore bytes
other_of_underscore s h = elim (Bool-cases (s == exec)) [
  | inl e ↦ absurd (ground (arith, h, ap has_underscore ((eq_iff s exec).0 e)))
  | inr e ↦ e
]

module _ {W : Type 0} where
  -- The name of an MCP tool has an underscore.
  tools_of_server :
      {S : Type 0} (mcp : Mcp W S) (ts : List (McpTool S))
      → All (λ (t : Tool W). (t.name == exec) ≡ false) (map (tool_of mcp) ts)
  unfolding tool_of has_underscore bytes
  tools_of_server mcp [] = tt
  tools_of_server mcp (t ∷ ts) = (
    other_of_underscore (t.prefix ++ (bytes "_" ++ t.name))
        (ground (arith, any-append (eqb 95) t.prefix (bytes "_" ++ t.name))),
    tools_of_server mcp ts,
  )

  tools_are_other :
      {S : Type 0} (mcp : Mcp W S) (servers : List (ServerConn S))
      → All (λ (t : Tool W). (t.name == exec) ≡ false) (tools mcp servers)
  unfolding tools
  tools_are_other mcp [] = tt
  tools_are_other mcp (s ∷ servers) =
      All-append (λ (t : Tool W). (t.name == exec) ≡ false) (map (tool_of mcp) s.tools)
        (tools mcp servers) (tools_of_server mcp s.tools) (tools_are_other mcp servers)

module _ {W H S : Type 0} (world : World W H S) where
  -- The parts behind the first registration leave the name alone.
  entry-base_registry :
      (a : AgentConfig) (workspace : Str)
      → entry exec (base_registry world a workspace)
        ≡ (some (exec_tool world.shell a.tools.exec), false)
  unfolding base_registry exec_tool web_fetch_tool read_file_tool write_file_tool remember_tool
      bytes ◌==◌
  entry-base_registry a workspace =
      entry-register_other exec _ _ refl
      ∙ entry-register_other exec _ _ refl
      ∙ entry-register_other exec _ _ refl
      ∙ entry-register_other exec _ _ refl
      ∙ entry-register_same exec _ _ refl
      ∙ ap (λ e. (some (exec_tool world.shell a.tools.exec), e.1))
          (entry-new_registry exec a.tools.allowed)

  pub get-agent_registry :
      (a : AgentConfig) (workspace skills_dir : Str) (servers : List (ServerConn S))
      (rag : Option (WeaviateClient × RagConfig)) (found : List SkillMeta)
      → get (agent_registry world a workspace skills_dir servers rag found) exec ≡ (
          if is_permitted exec a.tools.allowed
          then some (exec_tool world.shell a.tools.exec)
          else none)
  unfolding agent_registry
  get-agent_registry a workspace skills_dir servers rag found =
      get-entry exec a.tools.allowed _ _
        (agent_registry-IsKept world a workspace skills_dir servers rag found).filter
        (entry-agent_registry world exec (no_later) a workspace skills_dir servers rag found
          ∙ entry-register_all exec (tools world.mcp servers) _ (tools_are_other world.mcp servers)
          ∙ entry-base_registry a workspace)
