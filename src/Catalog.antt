-- ===== src/Catalog.antt =====
-- pkg/catalog/catalog.go and pkg/manifest/check.go: the catalog of tools, and which skills a
-- manifest's tools satisfy.
pub mod Checks
use docsclaw.Base.{
  ℕ, Str, bytes, ◌==◌, Map, lookup, is_some, Option, none, some, List, [], ◌∷◌, ◌++◌, map, Bool,
  true, false, ◌||◌, any, ltb, if◌then◌else◌, Result, ok, err,
}

-- What the functions read of an entry; `score` is that of its risk, which is not negative.
pub record ToolEntry : Type 0 where
  pub tier : Str
  pub packages : Map Str
  pub score : ℕ
  pub code_execution : Bool
  pub network_capable : Bool

pub record ToolCatalog : Type 0 where
  pub tools : Map ToolEntry

-- Packages os and embed, the YAML decoder with known fields only, and sort.Strings.
pub record CatalogFiles : Type 0 where
  pub read_embedded : Result Str Str
  pub read_file : Str → Result Str Str
  pub decode : Str → Result Str ToolCatalog

parse : CatalogFiles → Str → Result Str ToolCatalog
parse files text = elim (files.decode text) [
  | err e ↦ err (bytes "parse catalog: " ++ e)
  | ok cat ↦ ok cat
]

pub load_default : CatalogFiles → Result Str ToolCatalog
unfolding parse
load_default files = elim (files.read_embedded) [
  | err e ↦ err (bytes "read embedded catalog: " ++ e)
  | ok text ↦ parse files text
]

pub load_from_file : CatalogFiles → Str → Result Str ToolCatalog
unfolding parse
load_from_file files path = elim (files.read_file path) [
  | err e ↦ err (bytes "read catalog " ++ (path ++ (bytes ": " ++ e)))
  | ok text ↦ parse files text
]

tier_order : Str → Option ℕ
tier_order tier =
    if tier == bytes "core"
    then some 0
    else if tier == bytes "standard"
    then some 1
    else if tier == bytes "extended"
    then some 2
    else if tier == bytes "runtime"
    then some 3
    else none

-- A missing key of a Go map gives 0.
order_of : Str → ℕ
unfolding tier_order
order_of tier = elim (tier_order tier) [ none ↦ 0 | some n ↦ n ]

core_names : Map ToolEntry → List Str
core_names [] = []
core_names ((name, entry) ∷ tools) =
    let rest = core_names tools in if entry.tier == bytes "core" then name ∷ rest else rest

module _ (cat : ToolCatalog) where
  -- The tool's entry where the catalog has it, else the default.
  with_entry : {A : Type 0} → Str → A → (ToolEntry → A) → A
  with_entry name default f = elim (lookup name cat.tools) [ none ↦ default | some entry ↦ f entry ]

  pub core_tools : (List Str → List Str) → List Str
  unfolding core_names
  core_tools sort_strings = sort_strings (core_names cat.tools)

  higher_tier : Str → ToolEntry → Str
  unfolding order_of tier_order
  higher_tier highest entry = elim (tier_order entry.tier) [
    | none ↦ highest
    | some order ↦ if ltb (order_of highest) order then entry.tier else highest
  ]

  tier_from : Str → List Str → Str
  unfolding with_entry higher_tier
  tier_from highest [] = highest
  tier_from highest (name ∷ names) = tier_from (with_entry name highest (higher_tier highest)) names

  pub highest_tier : List Str → Str
  unfolding tier_from
  highest_tier = tier_from (bytes "core")

  risk_from : ℕ → List Str → ℕ
  unfolding with_entry
  risk_from max [] = max
  risk_from max (name ∷ names) =
      risk_from (with_entry name max (λ entry. if ltb max entry.score then entry.score else max))
        names

  pub max_risk_score : List Str → ℕ
  unfolding risk_from
  max_risk_score = risk_from 0

  pub package_names : List Str → Str → List Str
  unfolding with_entry
  package_names [] distro = []
  package_names (name ∷ names) distro =
      let rest = package_names names distro in
      with_entry name rest
        (λ entry. elim (lookup distro entry.packages) [ none ↦ rest | some pkg ↦ pkg ∷ rest ])

  -- `none` is nil; `quoted` is %q.
  pub validate : (Str → Str) → List Str → Option Str
  validate quoted [] = none
  validate quoted (name ∷ names) =
      let rest = validate quoted names in
      if is_some (lookup name cat.tools)
      then rest
      else some (bytes "unknown tool " ++ (quoted name ++ bytes " not in catalog"))

pub record SkillCheck : Type 0 where
  pub name : Str
  pub required : List Str
  pub optional : List Str
  pub has_skill_yaml : Bool

pub record CheckResult : Type 0 where
  pub skill_name : Str
  pub satisfied : Bool
  pub unknown : Bool
  pub missing_required : List Str
  pub missing_optional : List Str

-- The names that are not installed.
pub missing : (Str → Bool) → List Str → List Str
missing installed [] = []
missing installed (name ∷ names) =
    let rest = missing installed names in if installed name then rest else name ∷ rest

none_in : List Str → Bool
none_in [] = true
none_in (name ∷ names) = false

pub check_skill : (Str → Bool) → SkillCheck → CheckResult
unfolding missing none_in
check_skill installed skill =
    let required = missing installed skill.required in
    if skill.has_skill_yaml
    then record {
      skill_name = skill.name;
      satisfied = none_in required;
      unknown = false;
      missing_required = required;
      missing_optional = missing installed skill.optional;
    }
    else record {
      skill_name = skill.name;
      satisfied = true;
      unknown = true;
      missing_required = [];
      missing_optional = [];
    }

pub is_installed : List Str → List Str → Str → Bool
is_installed manifest_tools core name =
    any (λ t. t == name) manifest_tools || any (λ t. t == name) core

pub check_compatibility :
    (List Str → List Str) → List Str → List SkillCheck → ToolCatalog → List CheckResult
unfolding check_skill is_installed core_tools
check_compatibility sort_strings manifest_tools skills cat =
    map (check_skill (is_installed manifest_tools (core_tools cat sort_strings))) skills
