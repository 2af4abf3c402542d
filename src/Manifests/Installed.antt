-- ===== src/Manifests/Installed.antt =====
-- containerfile.go against check.go: the tools that an image declares are those that skills may need.
use docsclaw.Base.{
  has, Str, bytes, concat, join, decimal, List, [], ◌∷◌, ◌++◌, map, true, ◌||◌, ◌≡◌, ◌↔◌, refl, sym,
  ap, ◌∙◌, All, IsDistinct, if◌then◌else◌,
}
use mathlib.Core.List.{append_assoc}
use mathlib.Core.Path.{fun_ext}
use docsclaw.Catalog.{ToolCatalog, SkillCheck, core_tools, check_skill, check_compatibility}
use docsclaw.Catalog.Checks.{check_skill_lem}
use docsclaw.Manifests.{AgentManifest, merge_with_core}
use docsclaw.Manifests.Containerfile.{
  ContainerfileData, header_lines, builder_lines, footer_lines, rendered, generate_containerfile,
}
use docsclaw.Manifests.Merged.{check_compatibility-merge_with_core}

-- sort.Strings: the same strings, and none twice that was there once.
pub record IsSorting (sort_strings : List Str → List Str) : Type 0 where
  pub members : (name : Str) (names : List Str) → has name (sort_strings names) ≡ has name names
  pub distinct : (names : List Str) → IsDistinct names → IsDistinct (sort_strings names)

concat-append : (xs ys : List Str) → concat (xs ++ ys) ≡ concat xs ++ concat ys
concat-append [] ys = refl
concat-append (x ∷ xs) ys =
    ap (λ s. x ++ s) (concat-append xs ys) ∙ sym (append_assoc x (concat xs) (concat ys))

-- The lines in front of the label of the tools.
stages : ContainerfileData → List Str
stages d =
    bytes "FROM "
    ∷ d.go_builder_image
    ∷ bytes " AS builder\n"
    ∷ bytes "\n"
    ∷ bytes "WORKDIR /app\n"
    ∷ bytes "\n"
    ∷ bytes "COPY go.mod go.sum ./\n"
    ∷ bytes "RUN go mod download\n"
    ∷ bytes "\n"
    ∷ bytes "COPY . .\n"
    ∷ bytes "RUN CGO_ENABLED=0 GOOS=linux go build -o /docsclaw ./cmd/docsclaw\n"
    ∷ bytes "\n"
    ∷ bytes "FROM "
    ∷ d.base_image
    ∷ bytes "\n"
    ∷ bytes "\n"
    ∷ []

-- A line that declares the tools stands in the text.
abbrev pub IsDeclared : List Str → Str → Type 0
IsDeclared names text =
    (front : Str) × (rest : Str) × (text
      ≡ front
        ++ (bytes "LABEL io.docsclaw.tools/installed=\""
            ++ (join (bytes ",") names ++ (bytes "\"\n" ++ rest))))

labels : ContainerfileData → List Str
labels d =
    bytes "LABEL io.docsclaw.tools/tier=\""
    ∷ d.highest_tier
    ∷ bytes "\"\n"
    ∷ bytes "LABEL io.docsclaw.tools/risk-score=\""
    ∷ decimal d.risk_score
    ∷ bytes "\"\n"
    ∷ bytes "LABEL io.docsclaw.tools/agent-name=\""
    ∷ d.agent_name
    ∷ bytes "\"\n"
    ∷ bytes "\n"
    ∷ bytes "USER root\n"
    ∷ []

rendered-IsDeclared :
    (d : ContainerfileData) (names : List Str)
    → d.installed_csv ≡ join (bytes ",") names
    → IsDeclared names (rendered d)
unfolding rendered header_lines stages labels
rendered-IsDeclared d names e =
    let more = labels d ++ ((if d.has_tool_builder then builder_lines d else []) ++ footer_lines) in
    (
      concat (stages d),
      concat more,
      concat-append (stages d)
            (bytes "LABEL io.docsclaw.tools/installed=\"" ∷ d.installed_csv ∷ bytes "\"\n" ∷ more)
          ∙ ap
              (λ csv.
                concat (stages d)
                ++ (bytes "LABEL io.docsclaw.tools/installed=\""
                    ++ (csv ++ (bytes "\"\n" ++ concat more))))
              e,
    )

module _ (sort_strings : List Str → List Str) (m : AgentManifest) (cat : ToolCatalog) where
  -- With a sort that gives the same strings, none twice that was there once: the Containerfile of a
  -- manifest declares a list of tools in its label of the installed ones. In it are exactly the core
  -- tools of the catalog and those of the manifest, each once; the check of skills holds exactly
  -- these for installed; and a skill with a skill.yaml is satisfied exactly if all that it requires
  -- are declared. This does not say which of them the image gets.
  pub check_compatibility-generate_containerfile :
      IsSorting sort_strings
      → (names : List Str) × IsDeclared names (generate_containerfile sort_strings m cat)
        × IsDistinct names
        × ((name : Str)
            → has name names ≡ (has name (core_tools cat sort_strings) || has name m.tools))
        × ((skills : List SkillCheck)
            → check_compatibility sort_strings m.tools skills cat
              ≡ map (check_skill (λ name. has name names)) skills)
        × ((skill : SkillCheck)
            → skill.has_skill_yaml ≡ true
            → ((check_skill (λ name. has name names) skill).satisfied ≡ true)
              ↔ All (λ name. has name names ≡ true) skill.required)
  unfolding generate_containerfile
  check_compatibility-generate_containerfile sorting =
      let merged = merge_with_core sort_strings m.tools cat in
      let (distinct, members, checked, _) =
        check_compatibility-merge_with_core sort_strings m.tools cat in
      (
        sort_strings merged,
        rendered-IsDeclared _ (sort_strings merged) refl,
        sorting.distinct merged distinct,
        λ name. sorting.members name merged ∙ members name,
        λ skills.
            checked skills
            ∙ ap (λ p. map (check_skill p) skills)
                (fun_ext (λ name. sym (sorting.members name merged))),
        check_skill_lem (λ name. has name (sort_strings merged)),
      )
