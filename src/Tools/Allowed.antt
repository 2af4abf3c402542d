-- ===== src/Tools/Allowed.antt =====
-- registry.go: which names a registry can hand out, by how it was filled.
use docsclaw.Base.{
  has, Str, lookup, lookup-insert, Option-cases, some, List, [], ◌∷◌, true, ◌≡◌, ◌⊎◌, inl, inr,
  refl, arith, Bool-cases,
}
use docsclaw.Tools.{
  Tool, Registry, flag, filter_of, new_registry, register, register_always_allowed, hidden, get,
}

flag-filter_of : (n : Str) (names : List Str) → flag n (filter_of names) ≡ true → has n names ≡ true
unfolding flag filter_of lookup
flag-filter_of n [] h = absurd (cc h)
flag-filter_of n (x ∷ names) h =
    ground (arith, h, lookup-insert x n true (filter_of names), flag-filter_of n names)

module _ {W : Type 0} where
  -- The filter is that of the list `allowed`, and nothing but `names` is allowed besides.
  pub record IsKept (allowed names : List Str) (r : Registry W) : Type 0 where
    pub filter : r.allowed_filter ≡ (new_registry {W = W} allowed).allowed_filter
    pub always : (n : Str) → flag n r.always_allowed ≡ true → has n names ≡ true

  pub new_registry-IsKept : (allowed : List Str) → IsKept allowed [] (new_registry allowed)
  unfolding new_registry flag lookup
  new_registry-IsKept [] = record { filter = refl; always = λ n h. absurd (cc h) }
  new_registry-IsKept (a ∷ allowed) = record { filter = refl; always = λ n h. absurd (cc h) }

  pub register-IsKept :
      (allowed names : List Str) (t : Tool W) (r : Registry W)
      → IsKept allowed names r
      → IsKept allowed names (register t r)
  unfolding register
  register-IsKept allowed names t r k = record { filter = k.filter; always = k.always }

  pub register_always_allowed-IsKept :
      (allowed names : List Str) (t : Tool W) (r : Registry W)
      → IsKept allowed names r
      → IsKept allowed (t.name ∷ names) (register_always_allowed t r)
  unfolding register_always_allowed flag
  register_always_allowed-IsKept allowed names t r k = record {
    filter = k.filter;
    always = λ n h. ground (arith, h, lookup-insert t.name n true r.always_allowed, k.always n);
  }

  pub get-IsKept :
      (allowed names : List Str) (r : Registry W) (n : Str) (t : Tool W)
      → IsKept allowed names r
      → get r n ≡ some t
      → (allowed ≡ []) ⊎ ((has n allowed ≡ true) ⊎ (has n names ≡ true))
  unfolding get hidden new_registry
  get-IsKept [] names r n t k h = inl refl
  get-IsKept (a ∷ allowed) names r n t k h = inr (elim (Option-cases (lookup n r.tools)) [
    | inl e ↦ absurd (ground (arith, h, e))
    | inr (u, e) ↦ elim (Bool-cases (flag n (filter_of (a ∷ allowed)))) [
      | inl f ↦ inl (flag-filter_of n (a ∷ allowed) f)
      | inr f ↦ inr (k.always n (ground (arith, h, e, f, k.filter)))
    ]
  ])
