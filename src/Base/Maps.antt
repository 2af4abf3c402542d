-- ===== src/Base/Maps.antt =====
-- Go maps with string keys: association lists in which a key stands once. The code never depends
-- on the order of a map's entries.
use mathlib.Core.Path.{◌≡◌, refl, subst}
use mathlib.Core.Bool.{Bool, true}
use mathlib.Core.Logic.{inl, inr}
use mathlib.Core.Option.{Option, none, some}
use mathlib.Core.List.{List, [], ◌∷◌}
use native.Mathlib.Omega.{arith}
use docsclaw.Base.Tests.{is_none, Bool-cases, if◌then◌else◌}
use docsclaw.Base.Lists.{any}
use docsclaw.Base.Strings.{Str, ◌==◌, eq_iff}

abbrev pub Map {ℓ} : Type ℓ → Type ℓ
Map V = List (Str × V)

-- A name stands in a list.
abbrev pub has : Str → List Str → Bool
has name names = any (λ n. n == name) names

module _ {ℓ} {V : Type ℓ} where
  -- m[key], with ok
  unfoldable pub lookup : Str → Map V → Option V
  lookup key [] = none
  lookup key ((first, value) ∷ rest) = if first == key then some value else lookup key rest

  -- m[key] = value
  unfoldable pub insert : Str → V → Map V → Map V
  insert key value [] = (key, value) ∷ []
  insert key value ((first, old) ∷ rest) =
      if first == key then (key, value) ∷ rest else (first, old) ∷ insert key value rest

  pub lookup-insert :
      (key asked : Str) (value : V) (m : Map V)
      → lookup asked (insert key value m) ≡ (if key == asked then some value else lookup asked m)
  unfolding lookup insert
  lookup-insert key asked value [] = refl
  lookup-insert key asked value ((first, old) ∷ rest) =
      let later = lookup-insert key asked value rest in
      ground (arith, later, eq_iff first asked, eq_iff first key, eq_iff key asked)

  -- Each key stands once.
  abbrev pub IsUnique : Map V → Type 0
  IsUnique [] = Unit
  IsUnique ((k, v) ∷ m) = (is_none (lookup k m) ≡ true) × IsUnique m

  pub insert-IsUnique : (k : Str) (v : V) (m : Map V) → IsUnique m → IsUnique (insert k v m)
  unfolding insert lookup
  insert-IsUnique k v [] h = (refl, tt)
  insert-IsUnique k v ((j, w) ∷ m) (fresh, h) = elim (Bool-cases (j == k)) [
    | inl e ↦ rw e (subst (λ i. is_none (lookup i m) ≡ true) ((eq_iff j k).0 e) fresh, h)
    | inr e ↦
        rw e
          (ground (arith, lookup-insert k j v m, eq_iff k j, eq_iff j k), insert-IsUnique k v m h)
  ]
