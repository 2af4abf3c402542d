-- ===== src/Utf8/Runes.antt =====
-- Cutting a text after a number of runes: pkg/agentcontext/loader.go, truncateRunes.
use docsclaw.Base.{
  ℕ, zero, suc, ◌+◌, ◌-◌, min, Str, [], ◌∷◌, ◌++◌, Bool, true, false, ◌≡◌, refl, ap, arith, leb,
  ltb, ◌&&◌, Bool-cases, inl, inr, if◌then◌else◌,
}
use docsclaw.Utf8.{
  announced, second_fits, continues, multi_width, valid_width, count_from, rune_count,
  truncate_from, truncate_runes,
}

continues-truncate_from :
    (k n r : ℕ) (s : Str) → continues k s ≡ true → continues k (truncate_from n r k s) ≡ true
unfolding continues truncate_from
continues-truncate_from zero n r s h = refl
continues-truncate_from (suc k) n r [] h = h
continues-truncate_from (suc k) n r (b ∷ s) h = ground (arith, continues-truncate_from k n r s)

continues_of_truncate_from :
    (m n r k : ℕ) (s : Str) → continues m (truncate_from n r k s) ≡ true → continues m s ≡ true
unfolding continues truncate_from
continues_of_truncate_from zero n r k s h = refl
continues_of_truncate_from (suc m) n r k [] h = h
continues_of_truncate_from (suc m) n r (suc k) (b ∷ s) h =
    ground (arith, continues_of_truncate_from m n r k s)
continues_of_truncate_from (suc m) n r zero (b ∷ s) h =
    ground (arith, continues_of_truncate_from m n (r + 1) (valid_width (b ∷ s) - 1) s)

abbrev fits : ℕ → ℕ → Str → Bool
fits a b s = leb 2 (announced a) && (second_fits a b && continues (announced a - 2) s)

multi_width_of_fits : (a b : ℕ) (s : Str) → fits a b s ≡ true → multi_width a (b ∷ s) ≡ announced a
unfolding multi_width
multi_width_of_fits a b s h = rw h

multi_width_of_not_fits : (a b : ℕ) (s : Str) → fits a b s ≡ false → multi_width a (b ∷ s) ≡ 0
unfolding multi_width
multi_width_of_not_fits a b s h = rw h

fits-truncate_from :
    (n r a b : ℕ) (s : Str)
    → fits a b s ≡ true
    → fits a b (truncate_from n r (announced a - 2) s) ≡ true
fits-truncate_from n r a b s h = ground (arith, continues-truncate_from (announced a - 2) n r s)

not_fits-truncate_from :
    (n r k a b : ℕ) (s : Str) → fits a b s ≡ false → fits a b (truncate_from n r k s) ≡ false
not_fits-truncate_from n r k a b s h =
    ground (arith, continues_of_truncate_from (announced a - 2) n r k s)

announced_of_fits :
    (a b : ℕ) (s : Str) → fits a b s ≡ true → announced a - 1 ≡ suc (announced a - 2)
announced_of_fits a b s h = ground arith

multi_width_cut :
    (c : Bool) (a b : ℕ) (s : Str)
    → fits a b s ≡ false
    → multi_width a (if c then [] else b ∷ s) ≡ 0
multi_width_cut true a b s h = unfold multi_width in refl
multi_width_cut false a b s h = multi_width_of_not_fits a b s h

-- What is kept behind a rune's first byte decides its width as the whole text does.
multi_width-kept :
    (n r a : ℕ) (s : Str)
    → multi_width a (truncate_from n r (multi_width a s - 1) s) ≡ multi_width a s
multi_width-kept n r a [] = unfold truncate_from in refl
multi_width-kept n r a (b ∷ s) = elim (Bool-cases (fits a b s)) [
  | inl e ↦ rw (multi_width_of_fits a b s e) (
      rw (announced_of_fits a b s e)
        (unfold truncate_from in multi_width_of_fits a b _ (fits-truncate_from n r a b s e)))
  | inr e ↦ rw (multi_width_of_not_fits a b s e) (
      unfold truncate_from in
      multi_width_cut (leb n r) a b _
        (not_fits-truncate_from n (r + 1) (valid_width (b ∷ s) - 1) a b s e))
]

valid_width-kept :
    (n r a : ℕ) (s : Str)
    → valid_width (a ∷ truncate_from n r (valid_width (a ∷ s) - 1) s) ≡ valid_width (a ∷ s)
unfolding valid_width
valid_width-kept n r a s = elim (Bool-cases (ltb a 0x80)) [
  | inl e ↦ rw e
  | inr e ↦ rw e (multi_width-kept n r a s)
]

count_from-truncate_from :
    (n r k : ℕ) (s : Str) → count_from k (truncate_from n r k s) ≡ min (n - r) (count_from k s)
unfolding count_from truncate_from
count_from-truncate_from n r k [] = omega arith
count_from-truncate_from n r (suc k) (a ∷ s) = count_from-truncate_from n r k s
count_from-truncate_from n r zero (a ∷ s) =
    let ih = count_from-truncate_from n (r + 1) (valid_width (a ∷ s) - 1) s in
    let same = valid_width-kept n (r + 1) a s in ground (arith, ih, same)

truncate_from-prefix : (n r k : ℕ) (s : Str) → (rest : Str) × (s ≡ truncate_from n r k s ++ rest)
unfolding truncate_from
truncate_from-prefix n r k [] = ([], refl)
truncate_from-prefix n r (suc k) (a ∷ s) =
    let (rest, e) = truncate_from-prefix n r k s in (rest, ap (λ l. a ∷ l) e)
truncate_from-prefix n r zero (a ∷ s) =
    let (rest, e) = truncate_from-prefix n (r + 1) (valid_width (a ∷ s) - 1) s in
    elim (Bool-cases (leb n r)) [ inl c ↦ (a ∷ s, rw c) | inr c ↦ (rest, rw c (ap (λ l. a ∷ l) e)) ]

-- Cutting a text after `n` runes, valid UTF-8 or not, leaves as many of its runes as there are, but
-- at most `n`, and what is left is the front of the text.
pub rune_count-truncate_runes :
    (s : Str) (n : ℕ)
    → (rune_count (truncate_runes s n) ≡ min n (rune_count s))
      × (rest : Str) × (s ≡ truncate_runes s n ++ rest)
unfolding rune_count truncate_runes
rune_count-truncate_runes s n =
    let counted = count_from-truncate_from n 0 zero s in
    let (rest, e) = truncate_from-prefix n 0 zero s in (omega (arith, counted), rest, e)
