-- ===== src/Tools/Entries.antt =====
-- registry.go: what a registry holds under one name, step by step.
use docsclaw.Base.{
  has, Option-cases, Str, ◌==◌, lookup, lookup-insert, Option, none, some, List, [], ◌∷◌, Bool,
  true, false, ◌≡◌, refl, arith, ap, ap₂, if◌then◌else◌, inl, inr,
}
use docsclaw.Tools.{
  Tool, Registry, flag, filter_of, new_registry, register, register_always_allowed, hidden, get,
}

-- The tool under a name, and whether the name is allowed besides the filter.
abbrev pub entry : {W : Type 0} → Str → Registry W → Option (Tool W) × Bool
entry n r = (lookup n r.tools, flag n r.always_allowed)

-- What the filter of a list says of a name.
abbrev pub is_permitted : Str → List Str → Bool
is_permitted n [] = true
is_permitted n (a ∷ allowed) = has n (a ∷ allowed)

flag-filter_of_eq : (n : Str) (names : List Str) → flag n (filter_of names) ≡ has n names
unfolding flag filter_of lookup
flag-filter_of_eq n [] = refl
flag-filter_of_eq n (x ∷ names) =
    ground (arith, lookup-insert x n true (filter_of names), flag-filter_of_eq n names)

module _ {W : Type 0} (n : Str) where
  pub entry-new_registry :
      (allowed : List Str) → entry n (new_registry {W = W} allowed) ≡ (none, false)
  unfolding new_registry flag lookup
  entry-new_registry [] = refl
  entry-new_registry (a ∷ allowed) = refl

  pub entry-register_same :
      (t : Tool W) (r : Registry W)
      → (t.name == n) ≡ true
      → entry n (register t r) ≡ (some t, flag n r.always_allowed)
  unfolding register
  entry-register_same t r h =
      ap (λ o. (o, flag n r.always_allowed)) (ground (arith, h, lookup-insert t.name n t r.tools))

  pub entry-register_other :
      (t : Tool W) (r : Registry W) → (t.name == n) ≡ false → entry n (register t r) ≡ entry n r
  unfolding register
  entry-register_other t r h =
      ap (λ o. (o, flag n r.always_allowed)) (ground (arith, h, lookup-insert t.name n t r.tools))

  pub entry-register_always_allowed_other :
      (t : Tool W) (r : Registry W)
      → (t.name == n) ≡ false
      → entry n (register_always_allowed t r) ≡ entry n r
  unfolding register_always_allowed flag
  entry-register_always_allowed_other t r h =
      ap₂ (λ o b. (o, b)) (ground (arith, h, lookup-insert t.name n t r.tools))
        (ground (arith, h, lookup-insert t.name n true r.always_allowed))

  -- A tool whose name is not allowed besides is handed out by the filter alone.
  pub get-entry :
      (allowed : List Str) (r : Registry W) (t : Tool W)
      → r.allowed_filter ≡ (new_registry {W = W} allowed).allowed_filter
      → entry n r ≡ (some t, false)
      → get r n ≡ (if is_permitted n allowed then some t else none)
  unfolding get hidden new_registry
  get-entry [] r t kept e =
      let found : lookup n r.tools ≡ some t = ap (λ x. x.0) e in ground (arith, kept, found)
  get-entry (a ∷ allowed) r t kept e =
      let found : lookup n r.tools ≡ some t = ap (λ x. x.0) e in
      let besides : flag n r.always_allowed ≡ false = ap (λ x. x.1) e in
      ground (arith, kept, found, besides, flag-filter_of_eq n (a ∷ allowed))

  pub entry-register_always_allowed_same :
      (t : Tool W) (r : Registry W)
      → (t.name == n) ≡ true
      → entry n (register_always_allowed t r) ≡ (some t, true)
  unfolding register_always_allowed flag
  entry-register_always_allowed_same t r h =
      ap₂ (λ o b. (o, b)) (ground (arith, h, lookup-insert t.name n t r.tools))
        (ground (arith, h, lookup-insert t.name n true r.always_allowed))

  -- A name that is allowed besides is found whatever the filter.
  pub get-entry_always :
      (r : Registry W) (t : Tool W) → entry n r ≡ (some t, true) → get r n ≡ some t
  unfolding get hidden
  get-entry_always r t e =
      let found : lookup n r.tools ≡ some t = ap (λ x. x.0) e in
      let besides : flag n r.always_allowed ≡ true = ap (λ x. x.1) e in
      elim (Option-cases r.allowed_filter) [
        | inl f ↦ ground (arith, found, f)
        | inr (names, f) ↦ ground (arith, found, besides, f)
      ]
