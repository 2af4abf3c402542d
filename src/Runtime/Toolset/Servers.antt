-- ===== src/Runtime/Toolset/Servers.antt =====
-- runtime.go: what becomes of the tools of the MCP servers.
use docsclaw.Base.{
  has, ℕ, zero, suc, Str, ◌==◌, eq_iff, get_elem?, map, Option, some, List, [], ◌∷◌, true, false,
  ◌≡◌, ◌≢◌, refl, ◌∙◌, All, IsDistinct, Bool-cases, inl, inr, subst,
}
use docsclaw.McpClient.{ServerConn, tools}
use docsclaw.Retrieval.{RagConfig, WeaviateClient}
use docsclaw.Skills.Loader.{SkillMeta}
use docsclaw.Tools.{Tool, Registry, get, register_always_allowed}
use docsclaw.Tools.Entries.{entry, entry-register_always_allowed_same, get-entry_always}
use docsclaw.Runtime.AgentConfig.{AgentConfig}
use docsclaw.Runtime.Toolset.{World, register_all, base_registry, agent_registry}
use docsclaw.Runtime.Toolset.Later.{later_names, entry-register_all, entry-agent_registry}

module _ {W : Type 0} where
  others :
      (n : Str) (ts : List (Tool W))
      → All (λ y. y ≢ n) (map (λ (t : Tool W). t.name) ts)
      → All (λ (t : Tool W). (t.name == n) ≡ false) ts
  others n [] h = tt
  others n (t ∷ ts) (first, rest) = (
    (elim (Bool-cases (t.name == n)) [
      | inl e ↦ absurd (first ((eq_iff t.name n).0 e))
      | inr e ↦ e
    ]),
    others n ts rest,
  )

  entry-of_server :
      (ts : List (Tool W)) (i : ℕ) (t : Tool W) (r : Registry W)
      → IsDistinct (map (λ (t : Tool W). t.name) ts)
      → get_elem? ts i ≡ some t
      → entry t.name (register_all ts r) ≡ (some t, true)
  unfolding register_all
  entry-of_server [] i t r distinct at = absurd (cc at)
  entry-of_server (u ∷ ts) zero t r (apart, distinct) at =
      let same : u ≡ t = cc at in
      subst (λ x. entry x.name (register_all ts (register_always_allowed u r)) ≡ (some x, true))
        same
        (entry-register_all u.name ts (register_always_allowed u r) (others u.name ts apart)
          ∙ entry-register_always_allowed_same u.name u r ((eq_iff u.name u.name).1 refl))
  entry-of_server (u ∷ ts) (suc i) t r (apart, distinct) at =
      entry-of_server ts i t (register_always_allowed u r) distinct at

module _ {W H S : Type 0} (world : World W H S) where
  pub get-agent_registry_of_server :
      (a : AgentConfig) (workspace skills_dir : Str) (servers : List (ServerConn S))
      (rag : Option (WeaviateClient × RagConfig)) (found : List SkillMeta) (i : ℕ) (t : Tool W)
      → IsDistinct (map (λ (t : Tool W). t.name) (tools world.mcp servers))
      → get_elem? (tools world.mcp servers) i ≡ some t
      → has t.name later_names ≡ false
      → get (agent_registry world a workspace skills_dir servers rag found) t.name ≡ some t
  get-agent_registry_of_server a workspace skills_dir servers rag found i t distinct at other =
      get-entry_always t.name _ t (
        entry-agent_registry world t.name other a workspace skills_dir servers rag found
        ∙ entry-of_server (tools world.mcp servers) i t (base_registry world a workspace) distinct
            at)
