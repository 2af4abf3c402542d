-- ===== src/Runtime/Toolset/Allowed.antt =====
-- runtime.go: which tools a registry lets through.
use docsclaw.Base.{
  has, Str, bytes, ◌==◌, eq_iff, Map, is_some, map, Option, Option-cases, none, some, List, [], ◌∷◌,
  true, ◌≡◌, ◌⊎◌, inl, inr, arith, Bool-cases, ok, ap, sym,
}
use docsclaw.McpClient.{ServerConn, tools}
use docsclaw.Retrieval.{RagConfig, WeaviateClient}
use docsclaw.Skills.Loader.{SkillMeta}
use docsclaw.Tools.{Tool, Registry, get, register_always_allowed}
use docsclaw.Tools.Allowed.{
  IsKept, new_registry-IsKept, register-IsKept, register_always_allowed-IsKept, get-IsKept,
}
use docsclaw.Runtime.AgentConfig.{AgentConfig, A2aPeer}
use docsclaw.Runtime.BuiltIns.{rag_search_tool, load_skill_tool}
use docsclaw.Runtime.Toolset.{
  World, register_all, base_registry, with_rag, with_services, with_peers, with_skills,
  agent_registry, rag_of,
}

abbrev named : {W : Type 0} → List (Tool W) → List Str
named ts = map (λ t. t.name) ts

-- The names that are allowed besides, the last one first.
abbrev rev_onto : List Str → List Str → List Str
rev_onto [] names = names
rev_onto (x ∷ xs) names = rev_onto xs (x ∷ names)

has-rev_onto :
    (n : Str) (xs names : List Str)
    → has n (rev_onto xs names) ≡ true
    → (has n xs ≡ true) ⊎ (has n names ≡ true)
has-rev_onto n [] names h = inr h
has-rev_onto n (x ∷ xs) names h = elim (has-rev_onto n xs (x ∷ names) h) [
  | inl e ↦ inl (ground (arith, e))
  | inr e ↦ elim (Bool-cases (x == n)) [
    | inl f ↦ inl (ground (arith, f))
    | inr f ↦ inr (ground (arith, e, f))
  ]
]

module _ {W : Type 0} where
  register_all-IsKept :
      (allowed names : List Str) (ts : List (Tool W)) (r : Registry W)
      → IsKept allowed names r
      → IsKept allowed (rev_onto (named ts) names) (register_all ts r)
  unfolding register_all
  register_all-IsKept allowed names [] r k = k
  register_all-IsKept allowed names (t ∷ ts) r k =
      register_all-IsKept allowed (t.name ∷ names) ts (register_always_allowed t r)
        (register_always_allowed-IsKept allowed names t r k)

module _ {W H S : Type 0} (world : World W H S) where
  base_registry-IsKept :
      (a : AgentConfig) (workspace : Str)
      → IsKept a.tools.allowed [] (base_registry world a workspace)
  unfolding base_registry
  base_registry-IsKept a workspace =
      let allowed = a.tools.allowed in
      register-IsKept allowed [] _ _ (
        register-IsKept allowed [] _ _ (
          register-IsKept allowed [] _ _ (
            register-IsKept allowed [] _ _
              (register-IsKept allowed [] _ _ (new_registry-IsKept allowed)))))

  -- The names that the optional parts allow in front of the others.
  abbrev rag_names : Option (WeaviateClient × RagConfig) → List Str → List Str
  rag_names none names = names
  rag_names (some _) names = bytes "rag_search" ∷ names

  abbrev skill_names : List SkillMeta → List Str → List Str
  skill_names [] names = names
  skill_names (_ ∷ _) names = bytes "load_skill" ∷ names

  with_rag-IsKept :
      (allowed names : List Str) (rag : Option (WeaviateClient × RagConfig)) (r : Registry W)
      → IsKept allowed names r
      → IsKept allowed (rag_names rag names) (with_rag world rag r)
  unfolding with_rag rag_search_tool
  with_rag-IsKept allowed names none r k = k
  with_rag-IsKept allowed names (some (client, config)) r k =
      register_always_allowed-IsKept allowed names (rag_search_tool world.rag client config) r k

  with_services-IsKept :
      (allowed names : List Str) (services : Map Str) (r : Registry W)
      → IsKept allowed names r
      → IsKept allowed names (with_services world services r)
  unfolding with_services
  with_services-IsKept allowed names [] r k = k
  with_services-IsKept allowed names (s ∷ services) r k = register-IsKept allowed names _ r k

  with_peers-IsKept :
      (allowed names listed : List Str) (peers : List A2aPeer) (r : Registry W)
      → IsKept allowed names r
      → IsKept allowed names (with_peers world listed peers r)
  unfolding with_peers
  with_peers-IsKept allowed names listed [] r k = k
  with_peers-IsKept allowed names listed (p ∷ peers) r k =
      elim (Bool-cases (has (bytes "a2a_call") listed)) [
        | inl e ↦ rw e (register-IsKept allowed names _ r k)
        | inr e ↦ rw e k
      ]

  with_skills-IsKept :
      (allowed names : List Str) (skills_dir : Str) (found : List SkillMeta) (r : Registry W)
      → IsKept allowed names r
      → IsKept allowed (skill_names found names) (with_skills world skills_dir found r)
  unfolding with_skills load_skill_tool
  with_skills-IsKept allowed names skills_dir [] r k = k
  with_skills-IsKept allowed names skills_dir (s ∷ found) r k =
      register_always_allowed-IsKept allowed names
        (load_skill_tool world.read_text world.config.quoted world.tree skills_dir) r k

  pub agent_registry-IsKept :
      (a : AgentConfig) (workspace skills_dir : Str) (servers : List (ServerConn S))
      (rag : Option (WeaviateClient × RagConfig)) (found : List SkillMeta)
      → IsKept a.tools.allowed
          (skill_names found (rag_names rag (rev_onto (named (tools world.mcp servers)) [])))
          (agent_registry world a workspace skills_dir servers rag found)
  unfolding agent_registry
  agent_registry-IsKept a workspace skills_dir servers rag found =
      let allowed = a.tools.allowed in
      let mcp = rev_onto (named (tools world.mcp servers)) [] in
      with_skills-IsKept allowed (rag_names rag mcp) skills_dir found _ (
        with_peers-IsKept allowed (rag_names rag mcp) allowed a.a2a_peers _ (
          with_services-IsKept allowed (rag_names rag mcp) a.document_services _ (
            with_rag-IsKept allowed mcp rag _ (
              register_all-IsKept allowed [] (tools world.mcp servers) _
                (base_registry-IsKept a workspace)))))

  -- A name that stands in one of these lists.
  abbrev pub IsAllowed : AgentConfig → List (ServerConn S) → Str → Type 0
  IsAllowed a servers n =
      (a.tools.allowed ≡ [])
      ⊎ ((has n a.tools.allowed ≡ true)
          ⊎ ((has n (named (tools world.mcp servers)) ≡ true)
              ⊎ (((n ≡ bytes "rag_search") × (is_some a.rag ≡ true)) ⊎ (n ≡ bytes "load_skill"))))

  skill_names_sound :
      (n : Str) (found : List SkillMeta) (names : List Str)
      → has n (skill_names found names) ≡ true
      → (n ≡ bytes "load_skill") ⊎ (has n names ≡ true)
  skill_names_sound n [] names h = inr h
  skill_names_sound n (s ∷ found) names h = elim (Bool-cases (bytes "load_skill" == n)) [
    | inl e ↦ inl (sym ((eq_iff (bytes "load_skill") n).0 e))
    | inr e ↦ inr (ground (arith, h, e))
  ]

  rag_names_sound :
      (n : Str) (a : AgentConfig) (rag : Option (WeaviateClient × RagConfig)) (names : List Str)
      → rag_of world (some a) ≡ ok rag
      → has n (rag_names rag names) ≡ true
      → ((n ≡ bytes "rag_search") × (is_some a.rag ≡ true)) ⊎ (has n names ≡ true)
  unfolding rag_of
  rag_names_sound n a none names made h = inr h
  rag_names_sound n a (some (client, config)) names made h =
      elim (Bool-cases (bytes "rag_search" == n)) [
        | inr e ↦ inr (ground (arith, h, e))
        | inl e ↦ elim (Option-cases (a.rag)) [
          | inl f ↦ absurd (ground (arith, made, f))
          | inr (c, f) ↦ inl (sym ((eq_iff (bytes "rag_search") n).0 e), ap is_some f)
        ]
      ]

  pub agent_registry-IsAllowed :
      (a : AgentConfig) (workspace skills_dir : Str) (servers : List (ServerConn S))
      (rag : Option (WeaviateClient × RagConfig)) (found : List SkillMeta) (n : Str) (t : Tool W)
      → rag_of world (some a) ≡ ok rag
      → get (agent_registry world a workspace skills_dir servers rag found) n ≡ some t
      → IsAllowed a servers n
  agent_registry-IsAllowed a workspace skills_dir servers rag found n t made h =
      let mcp = rev_onto (named (tools world.mcp servers)) [] in
      elim (get-IsKept a.tools.allowed (skill_names found (rag_names rag mcp)) _ n t
        (agent_registry-IsKept a workspace skills_dir servers rag found) h) [
          | inl e ↦ inl e
          | inr (inl e) ↦ inr (inl e)
          | inr (inr e) ↦ inr (
              inr (elim (skill_names_sound n found (rag_names rag mcp) e) [
                | inl f ↦ inr (inr f)
                | inr f ↦ elim (rag_names_sound n a rag mcp made f) [
                  | inl g ↦ inr (inl g)
                  | inr g ↦ elim (has-rev_onto n (named (tools world.mcp servers)) [] g) [
                    | inl k ↦ inl k
                    | inr k ↦ absurd (cc k)
                  ]
                ]
              ]))
        ]
