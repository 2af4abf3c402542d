-- ===== src/Manifests.antt =====
-- pkg/manifest: an agent's manifest, and the tools.json and agent-config.yaml made from it.
pub mod Containerfile
pub mod Deployment
pub mod Kubernetes
pub mod Merged
pub mod Installed
pub mod Examples
use docsclaw.Base.{
  ℕ, Str, bytes, ◌==◌, decimal, Map, lookup, any, or_else, is_some, Option, none, some, List, [],
  ◌∷◌, ◌++◌, Bool, true, false, not, ◌&&◌, ◌||◌, ltb, if◌then◌else◌, Result, ok, err, ◌>>=◌, ◌>>◌,
  fail_if,
}
use docsclaw.Catalog.{ToolCatalog, ToolEntry, core_tools, highest_tier, max_risk_score}
use docsclaw.Memory.{Contents, contents, missing, unreadable}

pub record PromptSource : Type 0 where
  pub git : Str
  pub path : Str
  pub ref : Str

pub record SkillRef : Type 0 where
  pub name : Str
  pub image : Str

pub record BaseImage : Type 0 where
  pub image : Str
  pub go_builder : Str
  pub tool_builder : Str

-- A number that is negative acts as 0.
pub record RuntimeConfig : Type 0 where
  pub allowed : List Str
  pub timeout : ℕ
  pub max_output : ℕ
  pub allowed_hosts : List Str
  pub max_iterations : ℕ
  pub skills_dir : Str

pub record ResourceValues : Type 0 where
  pub cpu : Str
  pub memory : Str

-- The number of replicas is not negative.
pub record DeployConfig : Type 0 where
  pub image : Str
  pub service_account : Str
  pub replicas : ℕ
  pub requests : ResourceValues
  pub limits : ResourceValues

-- What the functions read of the manifest; the declared secrets are read by none.
pub record AgentManifest : Type 0 where
  pub name : Str
  pub version : Str
  pub base : BaseImage
  pub tools : List Str
  pub prompt_text : Str
  pub prompt_source : Option PromptSource
  pub skills : List SkillRef
  pub runtime : RuntimeConfig
  pub deploy : DeployConfig

pub validate : AgentManifest → Result Str (Unit {0})
validate m = do
  fail_if (m.name == []) (bytes "metadata.name is required")
  fail_if (m.base.image == []) (bytes "spec.base.image is required")
  fail_if (m.prompt_text == [] && not (is_some m.prompt_source))
      (bytes "spec.prompt.text or spec.prompt.source is required")
  fail_if (not (m.prompt_text == []) && is_some m.prompt_source)
      (bytes "spec.prompt.text and spec.prompt.source are mutually exclusive")

-- `decode` is the YAML decoder with known fields only.
pub parse : (Str → Result Str AgentManifest) → Str → Result Str AgentManifest
unfolding validate
parse decode text = elim (decode text) [
  | err e ↦ err (bytes "parse manifest: " ++ e)
  | ok m ↦ do validate m; ok m
]

pub parse_file :
    (Str → Result Str AgentManifest) → (Str → Result Str Str) → Str → Result Str AgentManifest
unfolding parse
parse_file decode read path = elim (read path) [
  | err e ↦ err (bytes "read manifest " ++ (path ++ (bytes ": " ++ e)))
  | ok text ↦ parse decode text
]

-- The loop of `MergeWithCore`: names that were not seen before.
add_unseen : List Str → List Str → List Str
add_unseen seen [] = []
add_unseen seen (name ∷ names) =
    let known = add_unseen seen names in
    let rest = add_unseen (name ∷ seen) names in
    if any (λ n. n == name) seen then known else name ∷ rest

-- Both loops share what was seen, so that they are one over both lists.
pub merge_with_core : (List Str → List Str) → List Str → ToolCatalog → List Str
unfolding add_unseen
merge_with_core sort_strings tools cat = add_unseen [] (core_tools cat sort_strings ++ tools)

pub record ToolJsonEntry : Type 0 where
  pub name : Str
  pub package_name : Str
  pub tier : Str
  pub score : ℕ
  pub code_execution : Bool
  pub network_capable : Bool

pub record ToolsJson : Type 0 where
  pub manifest_version : Str
  pub agent_name : Str
  pub base : Str
  pub highest_tier : Str
  pub risk_score : ℕ
  pub tools : List ToolJsonEntry

-- Names that are not in the catalog are left out.
entries_of : ToolCatalog → List Str → List ToolJsonEntry
entries_of cat [] = []
entries_of cat (name ∷ names) =
    let rest = entries_of cat names in
    elim (lookup name cat.tools) [
      | none ↦ rest
      | some entry ↦
          record {
            name = name;
            package_name = or_else (lookup (bytes "dnf") entry.packages) [];
            tier = entry.tier;
            score = entry.score;
            code_execution = entry.code_execution;
            network_capable = entry.network_capable;
          }
          ∷ rest
    ]

-- What is marshalled with an indent of two, and ends a line.
pub generate_tools_json : (List Str → List Str) → AgentManifest → ToolCatalog → ToolsJson
unfolding entries_of merge_with_core
generate_tools_json sort_strings m cat =
    let all_tools = sort_strings (merge_with_core sort_strings m.tools cat) in
    record {
      manifest_version = m.version;
      agent_name = m.name;
      base = m.base.image;
      highest_tier = highest_tier cat all_tools;
      risk_score = max_risk_score cat all_tools;
      tools = entries_of cat all_tools;
    }

-- A line of text for each item.
listed : Str → List Str → Str
listed front [] = []
listed front (item ∷ items) = front ++ (item ++ (bytes "\n" ++ listed front items))

section : Str → Str → List Str → Str
unfolding listed
section header front [] = []
section header front (item ∷ items) = header ++ listed front (item ∷ items)

number : Str → ℕ → Str
number front n = if ltb 0 n then front ++ (decimal n ++ bytes "\n") else []

exec_section : ℕ → ℕ → Str
unfolding number
exec_section timeout max_output =
    if ltb 0 timeout || ltb 0 max_output
    then bytes "  exec:\n"
      ++ (number (bytes "    timeout: ") timeout ++ number (bytes "    maxOutput: ") max_output)
    else []

pub build_agent_config_yaml : AgentManifest → Str
unfolding section exec_section number
build_agent_config_yaml m =
    let r = m.runtime in
    (if r.skills_dir == [] then [] else bytes "skills_dir: " ++ (r.skills_dir ++ bytes "\n"))
    ++ (bytes "tools:\n"
        ++ (section (bytes "  allowed:\n") (bytes "    - ") r.allowed
            ++ (exec_section r.timeout r.max_output
                ++ (section (bytes "  webFetch:\n    allowedHosts:\n") (bytes "      - ")
                      r.allowed_hosts
                    ++ number (bytes "loop:\n  maxIterations: ") r.max_iterations))))

nonempty : List Str → Bool
nonempty [] = false
nonempty (x ∷ xs) = true

pub has_runtime_config : AgentManifest → Bool
unfolding nonempty
has_runtime_config m =
    let r = m.runtime in
    nonempty r.allowed
    || ltb 0 r.timeout
    || ltb 0 r.max_output
    || nonempty r.allowed_hosts
    || ltb 0 r.max_iterations
    || not (r.skills_dir == [])
