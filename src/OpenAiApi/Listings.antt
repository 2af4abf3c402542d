-- ===== src/OpenAiApi/Listings.antt =====
-- handler.go, Models and Skills: what the endpoint lists.
use docsclaw.Base.{ℕ, Str, bytes, Option, none, some, ◌++◌, List, map, []}
use docsclaw.Llm.{Provider}
use docsclaw.Skills.Cards.{AgentSkill}
use docsclaw.OpenAiApi.{Handler}

-- The list holds this one model.
pub record ModelObject : Type 0 where
  pub id : Str
  pub object : Str
  pub created : ℕ
  pub owned_by : Str
  pub description : Str

pub record SkillObject : Type 0 where
  pub id : Str
  pub name : Str
  pub description : Str

backed_by : {W : Type 0} → Option (Provider W) → Str
backed_by none = []
backed_by (some p) = bytes " backed by " ++ p.model

-- `agent` is the agent's name as %q prints it.
pub models : {W : Type 0} → Handler W → ℕ → Str → ModelObject
unfolding backed_by
models h now agent = record {
  id = bytes "docsclaw";
  object = bytes "model";
  created = now;
  owned_by = bytes "docsclaw";
  description = bytes "Agent " ++ (agent ++ backed_by h.provider);
}

-- The skills of the agent's card, where there is one.
pub skills : Option (List AgentSkill) → List SkillObject
skills none = []
skills (some listed) =
    map (λ (s : AgentSkill). record { id = s.id; name = s.name; description = s.description })
      listed
