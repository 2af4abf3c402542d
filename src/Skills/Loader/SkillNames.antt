-- ===== src/Skills/Loader/SkillNames.antt =====
-- loader.go, the test of LoadContent: which names can be joined to the skills directory.
use docsclaw.Base.{
  Str, bytes, ◌==◌, eq_iff, [], ◌∷◌, ◌++◌, reverse, true, false, ◌≡◌, ◌≢◌, ◌⊎◌, inl, inr, refl, sym,
  arith, eqb, All, All-append, Bool-cases, subst,
}
use docsclaw.Skills.Loader.{drop_slashes, last_element, base, valid_name}

abbrev pub HasNoSlash : Str → Type 0
HasNoSlash s = All (λ c. c ≢ b'/') s

last_element-HasNoSlash : (cur s : Str) → HasNoSlash cur → HasNoSlash (last_element cur s)
unfolding last_element
last_element-HasNoSlash cur [] h = h
last_element-HasNoSlash cur (c ∷ s) h = elim (Bool-cases (eqb c b'/')) [
  | inl e ↦ rw e (last_element-HasNoSlash [] s tt)
  | inr e ↦ rw e (
      last_element-HasNoSlash (cur ++ c ∷ []) s
        (All-append (λ x. x ≢ b'/') cur (c ∷ []) h ((λ same. ground arith), tt)))
]

base-cases : (name : Str) → name ≢ [] → (base name ≡ bytes "/") ⊎ HasNoSlash (base name)
unfolding base
base-cases [] h = absurd (h refl)
base-cases (c ∷ s) h = elim (Bool-cases (reverse (drop_slashes (reverse (c ∷ s))) == [])) [
  | inl e ↦ inl (rw e)
  | inr e ↦ inr (rw e (last_element-HasNoSlash [] (reverse (drop_slashes (reverse (c ∷ s)))) tt))
]

-- A name that passes the test of `LoadContent` is "/", or it is not empty, is neither "." nor "..",
-- and holds no separator; so joined to the skills directory it names that directory itself or
-- something directly in it.
valid_name_sound :
    (name : Str)
    → valid_name name ≡ true
    → (name ≡ bytes "/")
      ⊎ ((name ≢ []) × (name ≢ bytes ".") × (name ≢ bytes "..") × HasNoSlash name)
unfolding valid_name
valid_name_sound name h =
    let given : (name == []) ≡ false = ground arith in
    let ne : name ≢ [] = λ e. absurd (cc (given, (eq_iff name []).1 e)) in
    let dot : (name == bytes ".") ≡ false = ground arith in
    let dots : (name == bytes "..") ≡ false = ground arith in
    let same : name ≡ base name = (eq_iff name (base name)).0 (ground arith) in
    elim (base-cases name ne) [
      | inl root ↦ inl (cc)
      | inr plain ↦ inr (
        ne,
        λ e. absurd (cc (dot, (eq_iff name (bytes ".")).1 e)),
        λ e. absurd (cc (dots, (eq_iff name (bytes "..")).1 e)),
        subst HasNoSlash (sym same) plain,
      )
    ]
