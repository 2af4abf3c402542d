-- ===== src/Manifests/Merged.antt =====
-- containerfile.go, MergeWithCore, against check.go: what is checked is what is built.
use mathlib.Core.Path.{fun_ext}
use docsclaw.Base.{
  has, any-append, ◌∙◌, Str, ◌==◌, eq_iff, List, [], ◌∷◌, ◌++◌, map, true, not, ◌&&◌, ◌||◌, ◌≡◌,
  ◌≢◌, ◌↔◌, refl, ap, sym, arith, inl, inr, Bool-cases, All, IsDistinct,
}
use docsclaw.Catalog.{ToolCatalog, SkillCheck, core_tools, check_skill, check_compatibility}
use docsclaw.Catalog.Checks.{check_skill_lem, check_compatibility_lem}
use docsclaw.Manifests.{add_unseen, merge_with_core}

has-add_unseen :
    (name : Str) (seen names : List Str)
    → has name (add_unseen seen names) ≡ (has name names && not (has name seen))
unfolding add_unseen
has-add_unseen name seen [] = refl
has-add_unseen name seen (n ∷ names) = elim (Bool-cases (n == name)) [
  | inl e ↦ ground (
    arith,
    e,
    ap (λ x. has x seen) ((eq_iff n name).0 e),
    has-add_unseen name seen names,
    has-add_unseen name (n ∷ seen) names,
  )
  | inr e ↦ ground (arith, e, has-add_unseen name seen names, has-add_unseen name (n ∷ seen) names)
]

fresh_of_not_has :
    (n : Str) (names : List Str)
    → ((name : Str) → has name names ≡ true → n ≢ name)
    → All (λ y. y ≢ n) names
fresh_of_not_has n [] h = tt
fresh_of_not_has n (x ∷ names) h = (
  λ e. h x (ground (arith, (eq_iff x x).1 refl)) (sym e),
  fresh_of_not_has n names (λ name k. h name (ground (arith, k))),
)

add_unseen-IsDistinct : (seen names : List Str) → IsDistinct (add_unseen seen names)
unfolding add_unseen
add_unseen-IsDistinct seen [] = tt
add_unseen-IsDistinct seen (n ∷ names) = elim (Bool-cases (has n seen)) [
  | inl e ↦ rw e (add_unseen-IsDistinct seen names)
  | inr e ↦ rw e (
    fresh_of_not_has n (add_unseen (n ∷ seen) names) (λ name k same.
        absurd (ground (arith, k, (eq_iff n name).1 same, has-add_unseen name (n ∷ seen) names))),
    add_unseen-IsDistinct (n ∷ seen) names,
  )
]

module _ (sort_strings : List Str → List Str) (tools : List Str) (cat : ToolCatalog) where
  -- The tools that an image is built with are the core tools of the catalog and those of the
  -- manifest, each once; the check of skills asks of exactly these whether they are installed; and a
  -- skill with a skill.yaml is satisfied exactly if all that it requires are among them.
  pub check_compatibility-merge_with_core :
      let merged = merge_with_core sort_strings tools cat in
      IsDistinct merged
      × ((name : Str)
          → has name merged ≡ (has name (core_tools cat sort_strings) || has name tools))
      × ((skills : List SkillCheck)
          → check_compatibility sort_strings tools skills cat
            ≡ map (check_skill (λ name. has name merged)) skills)
      × ((skill : SkillCheck)
          → skill.has_skill_yaml ≡ true
          → ((check_skill (λ name. has name merged) skill).satisfied ≡ true)
            ↔ All (λ name. has name merged ≡ true) skill.required)
  unfolding merge_with_core
  check_compatibility-merge_with_core =
      let all = core_tools cat sort_strings ++ tools in
      let members : (name : Str)
          → has name (add_unseen [] all)
            ≡ (has name (core_tools cat sort_strings) || has name tools) =
        λ name. ground (
          arith,
          has-add_unseen name [] all,
          any-append (λ n. n == name) (core_tools cat sort_strings) tools,
        ) in
      (
        add_unseen-IsDistinct [] all,
        members,
        λ skills.
            check_compatibility_lem sort_strings tools skills cat
            ∙ ap (λ p. map (check_skill p) skills) (fun_ext (λ name. ground (arith, members name))),
        check_skill_lem (λ name. has name (add_unseen [] all)),
      )
