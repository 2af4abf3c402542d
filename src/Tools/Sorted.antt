-- ===== src/Tools/Sorted.antt =====
-- registry.go, the order of Definitions.
use docsclaw.Base.{
  Str, ◌==◌, Map, IsUnique, List, [], ◌∷◌, Bool, true, false, ◌≡◌, refl, arith, any, All,
  Bool-cases, inl, inr,
}
use docsclaw.Llm.{ToolDefinition}
use docsclaw.Tools.{
  Tool, Registry, insert_definition, sort_definitions, hidden, collect, definitions, str_lt,
}
use docsclaw.Tools.Names.{IsKeyed, any-sort_definitions, any-collect}

str_lt_trans : (s t u : Str) → str_lt s t ≡ true → str_lt t u ≡ true → str_lt s u ≡ true
unfolding str_lt
str_lt_trans s t [] h k = absurd (cc)
str_lt_trans s [] (c ∷ u) h k = absurd (cc)
str_lt_trans [] (b ∷ t) (c ∷ u) h k = refl
str_lt_trans (a ∷ s) (b ∷ t) (c ∷ u) h k = ground (arith, str_lt_trans s t u)

str_lt_total : (s t : Str) → str_lt s t ≡ false → (s == t) ≡ false → str_lt t s ≡ true
unfolding str_lt ◌==◌
str_lt_total [] [] h k = absurd (cc)
str_lt_total (a ∷ s) [] h k = refl
str_lt_total [] (b ∷ t) h k = absurd (cc)
str_lt_total (a ∷ s) (b ∷ t) h k = ground (arith, str_lt_total s t)

-- Each name comes strictly before all later ones.
abbrev pub IsAscending : List ToolDefinition → Type 0
IsAscending [] = Unit
IsAscending (d ∷ ds) = All (λ e. str_lt d.name e.name ≡ true) ds × IsAscending ds

All-insert_definition :
    (P : ToolDefinition → Type 0) (d : ToolDefinition) (ds : List ToolDefinition)
    → P d
    → All P ds
    → All P (insert_definition d ds)
unfolding insert_definition
All-insert_definition P d [] p h = (p, tt)
All-insert_definition P d (e ∷ ds) p (q, h) = elim (Bool-cases (str_lt e.name d.name)) [
  | inl c ↦ rw c (q, All-insert_definition P d ds p h)
  | inr c ↦ rw c (p, (q, h))
]

smaller_than_tail :
    (d e : ToolDefinition) (ds : List ToolDefinition)
    → str_lt d.name e.name ≡ true
    → All (λ x. str_lt e.name x.name ≡ true) ds
    → All (λ x. str_lt d.name x.name ≡ true) ds
smaller_than_tail d e [] h a = tt
smaller_than_tail d e (x ∷ ds) h (b, a) =
    (str_lt_trans d.name e.name x.name h b, smaller_than_tail d e ds h a)

insert_definition-IsAscending :
    (d : ToolDefinition) (ds : List ToolDefinition)
    → IsAscending ds
    → any (λ e. e.name == d.name) ds ≡ false
    → IsAscending (insert_definition d ds)
unfolding insert_definition
insert_definition-IsAscending d [] h new = (tt, tt)
insert_definition-IsAscending d (e ∷ ds) (a, h) new = elim (Bool-cases (str_lt e.name d.name)) [
  | inl c ↦ rw c (
    All-insert_definition (λ x. str_lt e.name x.name ≡ true) d ds c a,
    insert_definition-IsAscending d ds h (ground arith),
  )
  | inr c ↦
      let first = str_lt_total e.name d.name c (ground arith) in
      rw c ((first, smaller_than_tail d e ds first a), (a, h))
]

module _ {W : Type 0} where
  collect-IsAscending :
      (hide : Str → Bool) (m : Map (Tool W))
      → All (λ e. e.1.name ≡ e.0) m
      → IsUnique m
      → IsAscending (sort_definitions (collect hide m))
  unfolding collect sort_definitions
  collect-IsAscending hide [] k u = tt
  collect-IsAscending hide ((n, t) ∷ m) (same, k) (new, u) = elim (Bool-cases (hide n)) [
    | inl c ↦ rw c (collect-IsAscending hide m k u)
    | inr c ↦ rw c (
        insert_definition-IsAscending _ (sort_definitions (collect hide m))
          (collect-IsAscending hide m k u)
          (rw same (
            ground (
              arith,
              any-sort_definitions (λ d. d.name == n) (collect hide m),
              any-collect hide n m k,
            ))))
  ]

  -- In a registry that holds each tool under its own name, and each name once, the definitions
  -- stand in strictly ascending order of their names, so their order does not depend on the map's.
  pub definitions-IsAscending : (r : Registry W) → IsKeyed r → IsAscending (definitions r)
  unfolding definitions
  definitions-IsAscending r h = collect-IsAscending (hidden r) r.tools h.keyed h.unique
