-- ===== src/Skills/Cards.antt =====
-- pkg/skills/a2a.go: skills on the agent card.
pub mod Merge
use docsclaw.Base.{
  ℕ, Str, bytes, ◌==◌, Map, lookup, insert, or_else, Option, none, some, List, [], ◌∷◌, ◌++◌, Bool,
  true, false, not, ◌&&◌, if◌then◌else◌,
}
use docsclaw.Skills.Loader.{SkillMeta}

pub record SkillYaml : Type 0 where
  pub name : Str
  pub namespace : Str
  pub version : Str
  pub description : Str
  pub author : Str
  pub tags : List Str
  pub authors : List Str
  pub required_tools : List Str
  pub example_inputs : List Str

pub record AgentSkill : Type 0 where
  pub id : Str
  pub name : Str
  pub description : Str
  pub tags : List Str
  pub examples : List Str

unless_empty : Str → List Str
unless_empty s = if s == [] then [] else s ∷ []

author_tags : Str → List Str → List Str
unfolding unless_empty
author_tags author [] = unless_empty author
author_tags author (first ∷ authors) = if author == [] then unless_empty first else author ∷ []

derive_tags : SkillYaml → List Str
unfolding author_tags unless_empty
derive_tags sy = elim (sy.tags) [
  | [] ↦ unless_empty sy.namespace ++ (author_tags sy.author sy.authors ++ sy.required_tools)
  | t ∷ ts ↦ t ∷ ts
]

-- A nil slice and an empty one are both `[]`.
derive_examples : List Str → List Str
derive_examples [] = []
derive_examples (input ∷ inputs) =
    let rest = derive_examples inputs in if input == [] then rest else input ∷ rest

-- `yaml_in dir` is the parsed skill.yaml of a directory, `none` where it is missing or invalid.
module _ (yaml_in : Str → Option SkillYaml) where
  to_agent_skill : SkillMeta → AgentSkill
  to_agent_skill m = elim (yaml_in m.dir) [
    | none ↦ record {
      id = m.name;
      name = m.name;
      description = m.description;
      tags = [];
      examples = [];
    }
    | some sy ↦ record {
      id = m.name;
      name = m.name;
      description = if sy.description == [] then m.description else sy.description;
      tags = derive_tags sy;
      examples = derive_examples sy.example_inputs;
    }
  ]

  pub to_agent_skills : List SkillMeta → List AgentSkill
  unfolding to_agent_skill derive_tags derive_examples
  to_agent_skills [] = []
  to_agent_skills (m ∷ metas) = to_agent_skill m ∷ to_agent_skills metas

-- the map `seen` after the loop over the static skills
seen_ids : Map Bool → List AgentSkill → Map Bool
seen_ids seen [] = seen
seen_ids seen (s ∷ static) = seen_ids (insert s.id true seen) static

unseen : Map Bool → List AgentSkill → List AgentSkill
unseen seen [] = []
unseen seen (s ∷ discovered) =
    let rest = unseen seen discovered in if or_else (lookup s.id seen) false then rest else s ∷ rest

pub merge_skills : List AgentSkill → List AgentSkill → List AgentSkill
unfolding seen_ids unseen
merge_skills static discovered = static ++ unseen (seen_ids [] static) discovered
