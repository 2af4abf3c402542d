-- ===== src/Tools/Names.antt =====
-- registry.go, Definitions against Get.
use docsclaw.Base.{
  Str, ◌==◌, eq_iff, Map, lookup, insert, IsUnique, insert-IsUnique, List, [], ◌∷◌, Bool, not, ◌&&◌,
  ◌||◌, ◌≡◌, refl, arith, any, All, is_some, Bool-cases, inl, inr,
}
use docsclaw.Llm.{ToolDefinition}
use docsclaw.Tools.{
  Tool, Registry, insert_definition, sort_definitions, new_registry, register,
  register_always_allowed, hidden, get, collect, definitions,
}

-- The registry's map holds each tool under its own name, and each name once.
pub record IsKeyed {W : Type 0} (r : Registry W) : Type 0 where
  pub keyed : All (λ e. e.1.name ≡ e.0) r.tools
  pub unique : IsUnique r.tools

module _ {W : Type 0} where
  insert-keyed :
      (t : Tool W) (m : Map (Tool W))
      → All (λ e. e.1.name ≡ e.0) m
      → All (λ e. e.1.name ≡ e.0) (insert t.name t m)
  unfolding insert
  insert-keyed t [] h = (refl, tt)
  insert-keyed t ((j, u) ∷ m) (e, h) = elim (Bool-cases (j == t.name)) [
    | inl c ↦ rw c (refl, h)
    | inr c ↦ rw c (e, insert-keyed t m h)
  ]

  pub new_registry-IsKeyed : (names : List Str) → IsKeyed (new_registry {W = W} names)
  unfolding new_registry
  new_registry-IsKeyed [] = record { keyed = tt; unique = tt }
  new_registry-IsKeyed (_ ∷ _) = record { keyed = tt; unique = tt }

  pub register-IsKeyed : (t : Tool W) (r : Registry W) → IsKeyed r → IsKeyed (register t r)
  unfolding register
  register-IsKeyed t r h = record {
    keyed = insert-keyed t r.tools h.keyed;
    unique = insert-IsUnique t.name t r.tools h.unique;
  }

  pub register_always_allowed-IsKeyed :
      (t : Tool W) (r : Registry W) → IsKeyed r → IsKeyed (register_always_allowed t r)
  unfolding register_always_allowed
  register_always_allowed-IsKeyed t r h = record {
    keyed = insert-keyed t r.tools h.keyed;
    unique = insert-IsUnique t.name t r.tools h.unique;
  }

any-insert_definition :
    (p : ToolDefinition → Bool) (d : ToolDefinition) (ds : List ToolDefinition)
    → any p (insert_definition d ds) ≡ (p d || any p ds)
unfolding insert_definition
any-insert_definition p d [] = refl
any-insert_definition p d (e ∷ ds) = ground (arith, any-insert_definition p d ds)

pub any-sort_definitions :
    (p : ToolDefinition → Bool) (ds : List ToolDefinition) → any p (sort_definitions ds) ≡ any p ds
unfolding sort_definitions
any-sort_definitions p [] = refl
any-sort_definitions p (d ∷ ds) =
    ground (arith, any-insert_definition p d (sort_definitions ds), any-sort_definitions p ds)

module _ {W : Type 0} where
  pub any-collect :
      (hide : Str → Bool) (n : Str) (m : Map (Tool W))
      → All (λ e. e.1.name ≡ e.0) m
      → any (λ d. d.name == n) (collect hide m) ≡ (not (hide n) && is_some (lookup n m))
  unfolding collect lookup
  any-collect hide n [] h = ground arith
  any-collect hide n ((k, t) ∷ m) (e, h) =
      ground (arith, any-collect hide n m h, eq_iff k n, eq_iff t.name n)

  -- In a registry that holds each tool under its own name, the definitions that the provider is
  -- given name a tool exactly when `Get` hands that tool out.
  definitions-get :
      (r : Registry W) (n : Str)
      → IsKeyed r
      → any (λ d. d.name == n) (definitions r) ≡ is_some (get r n)
  unfolding definitions get
  definitions-get r n h = ground (
    arith,
    any-sort_definitions (λ d. d.name == n) (collect (hidden r) r.tools),
    any-collect (hidden r) n r.tools h.keyed,
  )
