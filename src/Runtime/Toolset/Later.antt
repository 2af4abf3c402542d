-- ===== src/Runtime/Toolset/Later.antt =====
-- runtime.go: what is registered behind the tools of the MCP servers.
use docsclaw.Base.{
  has, All, Str, bytes, ◌==◌, Map, Option, none, some, List, [], ◌∷◌, false, ◌≡◌, refl, ◌∙◌, arith,
  Bool-cases, inl, inr,
}
use docsclaw.McpClient.{ServerConn, tools}
use docsclaw.Retrieval.{RagConfig, WeaviateClient}
use docsclaw.Skills.Loader.{SkillMeta}
use docsclaw.Tools.{Tool, Registry, register_always_allowed}
use docsclaw.Tools.Entries.{entry, entry-register_other, entry-register_always_allowed_other}
use docsclaw.Runtime.AgentConfig.{AgentConfig, A2aPeer}
use docsclaw.Runtime.BuiltIns.{rag_search_tool, fetch_document_tool, a2a_call_tool, load_skill_tool}
use docsclaw.Runtime.Toolset.{
  World, register_all, base_registry, with_rag, with_services, with_peers, with_skills,
  agent_registry,
}

-- The names that are registered last.
abbrev pub later_names : List Str
later_names =
    bytes "rag_search" ∷ bytes "fetch_document" ∷ bytes "a2a_call" ∷ bytes "load_skill" ∷ []

module _ {W : Type 0} (n : Str) where
  pub entry-register_all :
      (ts : List (Tool W)) (r : Registry W)
      → All (λ (t : Tool W). (t.name == n) ≡ false) ts
      → entry n (register_all ts r) ≡ entry n r
  unfolding register_all
  entry-register_all [] r h = refl
  entry-register_all (t ∷ ts) r (first, rest) =
      entry-register_all ts (register_always_allowed t r) rest
      ∙ entry-register_always_allowed_other n t r first

module _ {W H S : Type 0} (world : World W H S) (n : Str) (other : has n later_names ≡ false) where
  entry-with_rag :
      (rag : Option (WeaviateClient × RagConfig)) (r : Registry W)
      → entry n (with_rag world rag r) ≡ entry n r
  unfolding with_rag rag_search_tool
  entry-with_rag none r = refl
  entry-with_rag (some (client, config)) r =
      entry-register_always_allowed_other n _ r (ground (arith, other))

  entry-with_services :
      (services : Map Str) (r : Registry W) → entry n (with_services world services r) ≡ entry n r
  unfolding with_services fetch_document_tool
  entry-with_services [] r = refl
  entry-with_services (s ∷ services) r = entry-register_other n _ r (ground (arith, other))

  entry-with_peers :
      (listed : List Str) (peers : List A2aPeer) (r : Registry W)
      → entry n (with_peers world listed peers r) ≡ entry n r
  unfolding with_peers a2a_call_tool
  entry-with_peers listed [] r = refl
  entry-with_peers listed (p ∷ peers) r = elim (Bool-cases (has (bytes "a2a_call") listed)) [
    | inl e ↦ rw e (entry-register_other n _ r (ground (arith, other)))
    | inr e ↦ rw e refl
  ]

  entry-with_skills :
      (skills_dir : Str) (found : List SkillMeta) (r : Registry W)
      → entry n (with_skills world skills_dir found r) ≡ entry n r
  unfolding with_skills load_skill_tool
  entry-with_skills skills_dir [] r = refl
  entry-with_skills skills_dir (s ∷ found) r =
      entry-register_always_allowed_other n _ r (ground (arith, other))

  pub entry-agent_registry :
      (a : AgentConfig) (workspace skills_dir : Str) (servers : List (ServerConn S))
      (rag : Option (WeaviateClient × RagConfig)) (found : List SkillMeta)
      → entry n (agent_registry world a workspace skills_dir servers rag found)
        ≡ entry n (register_all (tools world.mcp servers) (base_registry world a workspace))
  unfolding agent_registry
  entry-agent_registry a workspace skills_dir servers rag found =
      entry-with_skills skills_dir found _
      ∙ entry-with_peers a.tools.allowed a.a2a_peers _
      ∙ entry-with_services a.document_services _
      ∙ entry-with_rag rag _
