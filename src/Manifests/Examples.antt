-- ===== src/Manifests/Examples.antt =====
-- A catalog with one core tool, and a manifest that asks for another.
use docsclaw.Base.{
  none, refl, has, Str, bytes, ◌==◌, decimal, List, [], ◌∷◌, map, true, false, ◌||◌, ◌≡◌, ◌↔◌, All,
  IsDistinct,
}
use docsclaw.Catalog.{
  ToolCatalog, ToolEntry, SkillCheck, core_tools, check_skill, check_compatibility,
}
use docsclaw.Manifests.{
  AgentManifest, build_agent_config_yaml, listed, section, number, exec_section, ResourceValues,
}
use docsclaw.Manifests.Containerfile.{generate_containerfile}
use docsclaw.Manifests.Installed.{IsSorting, IsDeclared, check_compatibility-generate_containerfile}

abbrev entry : Str → ToolEntry
entry tier = record {
  tier = tier;
  packages = [];
  score = 1;
  code_execution = false;
  network_capable = true;
}

abbrev catalog : ToolCatalog
catalog = record {
  tools = (bytes "curl", entry (bytes "core")) ∷ (bytes "jq", entry (bytes "standard")) ∷ [];
}

abbrev asked : List Str
asked = bytes "jq" ∷ bytes "curl" ∷ []

abbrev no_values : ResourceValues
no_values = record { cpu = []; memory = [] }

abbrev manifest : AgentManifest
manifest = record {
  name = bytes "helper";
  version = bytes "1";
  base = record { image = bytes "base"; go_builder = []; tool_builder = bytes "builder" };
  tools = asked;
  prompt_text = bytes "Be kind.";
  prompt_source = none;
  skills = [];
  runtime = record {
    allowed = [];
    timeout = 0;
    max_output = 0;
    allowed_hosts = [];
    max_iterations = 0;
    skills_dir = [];
  };
  deploy = record {
    image = [];
    service_account = [];
    replicas = 0;
    requests = no_values;
    limits = no_values;
  };
}

-- The names of the catalog come in order.
abbrev in_order : List Str → List Str
in_order names = names

in_order-IsSorting : IsSorting in_order
in_order-IsSorting = record { members = λ name names. refl; distinct = λ names d. d }

check_compatibility-generate_containerfile_example :
    (names : List Str) × IsDeclared names (generate_containerfile in_order manifest catalog)
    × IsDistinct names
    × ((name : Str) → has name names ≡ (has name (core_tools catalog in_order) || has name asked))
    × ((skills : List SkillCheck)
        → check_compatibility in_order asked skills catalog
          ≡ map (check_skill (λ name. has name names)) skills)
    × ((skill : SkillCheck)
        → skill.has_skill_yaml ≡ true
        → ((check_skill (λ name. has name names) skill).satisfied ≡ true)
          ↔ All (λ name. has name names ≡ true) skill.required)
check_compatibility-generate_containerfile_example =
    check_compatibility-generate_containerfile in_order manifest catalog in_order-IsSorting

-- The keys that are written for the limits of a tool.
hosts_written :
    (m : AgentManifest)
    → m.runtime.skills_dir ≡ []
    → m.runtime.allowed ≡ []
    → m.runtime.timeout ≡ 0
    → m.runtime.max_output ≡ 0
    → m.runtime.allowed_hosts ≡ bytes "example.org" ∷ []
    → m.runtime.max_iterations ≡ 3
    → build_agent_config_yaml m
      ≡ bytes
          "tools:\n  webFetch:\n    allowedHosts:\n      - example.org\nloop:\n  maxIterations: 3\n"
unfolding build_agent_config_yaml section listed number exec_section decimal ◌==◌ bytes
hosts_written m a b c d e f = rw (a, b, c, d, e, f)
