-- ===== src/Peers/Card/Payloads/Forms.antt =====
-- cardverify.go, cardPayloads: leaving out what is there already loses no payload.
use docsclaw.Base.{
  Str, ◌==◌, eq_iff, Map, Option, List, [], ◌∷◌, ◌++◌, Bool, true, ◌||◌, ◌≡◌, refl, sym, ◌∙◌, subst,
  arith, Result, Result-cases, ok, err, any, Bool-cases, inl, inr, if◌then◌else◌,
}
use docsclaw.Peers.Card.Payloads.{
  CardError, JsonCodec, canonicalize, candidates_from, forms, card_payloads,
}

any_snoc : (p : Str → Bool) (xs : List Str) (x : Str) → any p (xs ++ x ∷ []) ≡ (any p xs || p x)
any_snoc p [] x = ground arith
any_snoc p (y ∷ xs) x = let later = any_snoc p xs x in ground (arith, later)

-- What is there already adds nothing.
any_known :
    (p : Str → Bool) (xs : List Str) (x : Str)
    → any (λ existing. existing == x) xs ≡ true
    → any p xs ≡ (any p xs || p x)
any_known p [] x h = absurd (cc h)
any_known p (y ∷ xs) x h = elim (Bool-cases (y == x)) [
  | inl e ↦ rw ((eq_iff y x).0 e) (ground arith)
  | inr e ↦ let later = any_known p xs x (ground (arith, h, e)) in ground (arith, later)
]

ok_injective : {A : Type 0} {x y : A} → ◌≡◌ {A = Result CardError A} (ok x) (ok y) → x ≡ y
ok_injective e = cc e

module _ (json : JsonCodec) where
  -- The canonical forms, one for each.
  pub canonical_forms : List (Option (Map Str)) → Result CardError (List Str)
  canonical_forms [] = ok []
  canonical_forms (form ∷ rest) = elim (canonicalize json form) [
    | err e ↦ err e
    | ok canonical ↦ elim (canonical_forms rest) [ err e ↦ err e | ok all ↦ ok (canonical ∷ all) ]
  ]

  add : List Str → Str → List Str
  add before x = if any (λ existing. existing == x) before then before else before ++ x ∷ []

  any-add :
      (p : Str → Bool) (before : List Str) (x : Str) → any p (add before x) ≡ (any p before || p x)
  unfolding add
  any-add p before x = elim (Bool-cases (any (λ existing. existing == x) before)) [
    | inl e ↦ rw (e, add) (any_known p before x e)
    | inr e ↦ rw (e, add) (any_snoc p before x)
  ]

  candidates_from-next :
      (form : Option (Map Str)) (fs : List (Option (Map Str))) (before : List Str) (x : Str)
      → canonicalize json form ≡ ok x
      → candidates_from json (form ∷ fs) before ≡ candidates_from json fs (add before x)
  unfolding candidates_from add
  candidates_from-next form fs before x e = rw (e, candidates_from) refl

  -- As a test sees them, the payloads are the canonical forms.
  candidates_from_of_ok :
      (fs : List (Option (Map Str))) (all before : List Str)
      → canonical_forms fs ≡ ok all
      → (payloads : List Str) × (candidates_from json fs before ≡ ok payloads)
        × ((p : Str → Bool) → any p payloads ≡ (any p before || any p all))
  unfolding canonical_forms candidates_from
  candidates_from_of_ok [] all before e =
      (before, refl, λ p. rw (sym (ok_injective e)) (ground arith))
  candidates_from_of_ok (form ∷ fs) all before e = elim (Result-cases (canonicalize json form)) [
    | inl (f, failed) ↦ absurd (cc (e, failed))
    | inr (x, done) ↦ elim (Result-cases (canonical_forms fs)) [
      | inl (f, failed) ↦ absurd (ground (arith, e, done, failed))
      | inr (rest, more) ↦
          let (payloads, found, same) = candidates_from_of_ok fs rest (add before x) more in
          (
            payloads,
            candidates_from-next form fs before x done ∙ found,
            λ p.
                let whole : all ≡ x ∷ rest = ground (arith, e, done, more) in
                let later = same p in
                let first = any-add p before x in rw whole (ground (arith, later, first)),
          )
    ]
  ]

  candidates_from_of_err :
      (fs : List (Option (Map Str))) (before : List Str) (e : CardError)
      → canonical_forms fs ≡ err e
      → candidates_from json fs before ≡ err e
  unfolding canonical_forms candidates_from
  candidates_from_of_err [] before e h = absurd (cc h)
  candidates_from_of_err (form ∷ fs) before e h = elim (Result-cases (canonicalize json form)) [
    | inl (f, failed) ↦ ground (arith, h, failed)
    | inr (x, done) ↦
        candidates_from-next form fs before x done
        ∙ candidates_from_of_err fs (add before x) e (ground (arith, h, done))
  ]

  pub card_payloads_of_ok :
      (body : Str) (whole : Option (Map Str)) (canonical : List Str)
      → json.unmarshal_raw body ≡ ok whole
      → canonical_forms (forms json whole) ≡ ok canonical
      → (payloads : List Str) × (card_payloads json body ≡ ok payloads)
        × ((p : Str → Bool) → any p payloads ≡ any p canonical)
  unfolding card_payloads
  card_payloads_of_ok body whole canonical e f =
      rw (e, card_payloads) (candidates_from_of_ok (forms json whole) canonical [] f)

  -- Where the payloads of a card can be made, they are, as a test sees them, its canonical forms.
  pub card_payloads-forms :
      (body : Str) (payloads : List Str)
      → card_payloads json body ≡ ok payloads
      → (whole : Option (Map Str)) × (canonical : List Str) × (json.unmarshal_raw body ≡ ok whole)
        × (canonical_forms (forms json whole) ≡ ok canonical)
        × ((p : Str → Bool) → any p payloads ≡ any p canonical)
  unfolding card_payloads
  card_payloads-forms body payloads h = elim (Result-cases (json.unmarshal_raw body)) [
    | inl (e, f) ↦ absurd (ground (arith, h, f))
    | inr (whole, f) ↦ elim (Result-cases (canonical_forms (forms json whole))) [
      | inl (e, g) ↦
          let failed = candidates_from_of_err (forms json whole) [] e g in
          absurd (ground (arith, h, f, failed))
      | inr (canonical, g) ↦
          let (found, k, same) = card_payloads_of_ok body whole canonical f g in
          (
            whole,
            canonical,
            f,
            g,
            subst (λ x. (p : Str → Bool) → any p x ≡ any p canonical) (ok_injective (sym k ∙ h))
                same,
          )
    ]
  ]
