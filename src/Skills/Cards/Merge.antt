-- ===== src/Skills/Cards/Merge.antt =====
-- a2a.go, MergeSkills: static entries win.
use docsclaw.Base.{
  Str, ◌==◌, eq_iff, Map, lookup, insert, lookup-insert, or_else, List, [], ◌∷◌, ◌++◌, Bool, true,
  false, not, ◌&&◌, ◌||◌, ◌≡◌, refl, ap, ◌∙◌, arith, any, Bool-cases, inl, inr, if◌then◌else◌,
}
use docsclaw.Skills.Cards.{AgentSkill, seen_ids, unseen, merge_skills}

-- Some skill of the list has the id.
abbrev has_id : Str → List AgentSkill → Bool
has_id id skills = any (λ s. s.id == id) skills

seen_ids-lookup :
    (seen : Map Bool) (static : List AgentSkill) (id : Str)
    → or_else (lookup id (seen_ids seen static)) false
      ≡ (has_id id static || or_else (lookup id seen) false)
unfolding seen_ids
seen_ids-lookup seen [] id = refl
seen_ids-lookup seen (s ∷ static) id = ground (
  arith,
  seen_ids-lookup (insert s.id true seen) static id,
  lookup-insert s.id id true seen,
  eq_iff s.id id,
)

has_id-append :
    (id : Str) (xs ys : List AgentSkill) → has_id id (xs ++ ys) ≡ (has_id id xs || has_id id ys)
has_id-append id [] ys = refl
has_id-append id (x ∷ xs) ys = ground (arith, has_id-append id xs ys)

-- The discovered skills whose id no static one has, in their order.
new_skills : List AgentSkill → List AgentSkill → List AgentSkill
new_skills static [] = []
new_skills static (s ∷ discovered) =
    let rest = new_skills static discovered in if has_id s.id static then rest else s ∷ rest

unseen-eq :
    (static discovered : List AgentSkill)
    → unseen (seen_ids [] static) discovered ≡ new_skills static discovered
unfolding unseen new_skills lookup
unseen-eq static [] = refl
unseen-eq static (s ∷ discovered) =
    ground (arith, unseen-eq static discovered, seen_ids-lookup [] static s.id)

has_id-new_skills :
    (static discovered : List AgentSkill) (id : Str)
    → has_id id (new_skills static discovered) ≡ (has_id id discovered && not (has_id id static))
unfolding new_skills
has_id-new_skills static [] id = refl
has_id-new_skills static (s ∷ discovered) id = elim (Bool-cases (s.id == id)) [
  | inl e ↦
      let same = ap (λ k. has_id k static) ((eq_iff s.id id).0 e) in
      ground (arith, has_id-new_skills static discovered id, same)
  | inr e ↦ ground (arith, has_id-new_skills static discovered id)
]

-- The merged list is the static skills as they are, followed by those discovered ones whose id no
-- static skill has, in their order; so an id is on the card exactly if it was in either list.
merge_skills_lem :
    (static discovered : List AgentSkill) (id : Str)
    → (merge_skills static discovered ≡ static ++ new_skills static discovered)
      × (has_id id (merge_skills static discovered) ≡ (has_id id static || has_id id discovered))
unfolding merge_skills
merge_skills_lem static discovered id =
    let same = unseen-eq static discovered in
    (
      rw same,
      rw same (
          has_id-append id static (new_skills static discovered)
          ∙ ground (arith, has_id-new_skills static discovered id)),
    )
