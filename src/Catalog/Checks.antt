-- ===== src/Catalog/Checks.antt =====
-- check.go: what a result of the check says.
use docsclaw.Base.{
  has, Str, List, [], ◌∷◌, map, Bool, true, ◌||◌, ◌≡◌, ◌↔◌, refl, arith, inl, inr, Bool-cases, All,
  List-cases,
}
use docsclaw.Catalog.{
  ToolCatalog, SkillCheck, core_tools, missing, none_in, check_skill, is_installed,
  check_compatibility,
}

-- Of the names that are required, those that are not in the list are missing.
missing-none :
    (installed : Str → Bool) (names : List Str)
    → (missing installed names ≡ []) ↔ All (λ name. installed name ≡ true) names
unfolding missing
missing-none installed [] = (λ h. tt, λ h. refl)
missing-none installed (n ∷ names) =
    let ih = missing-none installed names in
    (
      λ h. elim (Bool-cases (installed n)) [
        | inl e ↦ (e, ih.0 (ground (arith, h, e)))
        | inr e ↦ absurd (ground (arith, h, e))
      ],
      λ (first, rest). ground (arith, first, ih.1 rest),
    )

pub check_skill_lem :
    (installed : Str → Bool) (skill : SkillCheck)
    → skill.has_skill_yaml ≡ true
    → ((check_skill installed skill).satisfied ≡ true)
      ↔ All (λ name. installed name ≡ true) skill.required
unfolding check_skill none_in
check_skill_lem installed skill h =
    let m = missing-none installed skill.required in
    (
      λ k. m.0 (elim (List-cases (missing installed skill.required)) [
        | inl e ↦ e
        | inr (x, xs, e) ↦ absurd (ground (arith, h, k, e))
      ]),
      λ k. ground (arith, h, m.1 k),
    )

pub check_compatibility_lem :
    (sort_strings : List Str → List Str) (tools : List Str) (skills : List SkillCheck)
    (cat : ToolCatalog)
    → check_compatibility sort_strings tools skills cat
      ≡ map (check_skill (λ name. has name tools || has name (core_tools cat sort_strings))) skills
unfolding check_compatibility is_installed
check_compatibility_lem sort_strings tools skills cat = refl
